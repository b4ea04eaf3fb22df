-- ===== src/Path/Normal.antt =====
-- The paths that fsNormalizePath returns, and that it returns them unchanged.
use mathlib.Core.Path.{◌∙◌, ap₂, ◌≡⟨◌⟩◌, ◌∎}
use mathlib.Core.Option.{some-injective}
use mathlib.Core.List.{reverse-append, append_assoc, append-nil, reverse-reverse}
use redis_fs.Base.{
  ℕ, ◌+◌, ◌≤◌, ◌<◌, ◌≡◌, refl, sym, ap, Bool, true, false, some, List, [], ◌∷◌, ◌++◌, arith, ltb,
  ◌==◌, length, All, All-append, reverse, length-reverse, Bool-cases, inl, inr,
}
use redis_fs.Base.ByteStrings.{Bytes}
use redis_fs.Path.{
  slash, root, max_depth, component, after_component, Parts, push, pop, render, finish, normalize,
  is_dot, is_dot_dot,
}
use redis_fs.Path.Components.{
  split, components, non_empty, cons_head, push_all, normalize-eq-push_all, components_round,
  components-slash, components-nil,
}

abbrev pub NoSlash : Bytes → Type 0
NoSlash w = All (λ c. (c == slash) ≡ false) w

-- A piece between slashes.
abbrev pub IsPiece : Bytes → Type 0
IsPiece w = (0 < length w) × NoSlash w

-- A component of a normal path.
pub record IsName (w : Bytes) : Type 0 where
  pub piece : IsPiece w
  pub not_dot : is_dot w ≡ false
  pub not_dot_dot : is_dot_dot w ≡ false

abbrev pub path_of : List Bytes → Bytes
path_of [] = root
path_of (c ∷ cs) = render (c ∷ cs)

-- "/", or at most 256 names, each behind a slash.
pub record IsNormal (p : Bytes) : Type 0 where
  pub names : List Bytes
  pub are_names : All IsName names
  pub depth : length names ≤ max_depth
  pub path : p ≡ path_of names

cons_head-NoSlash :
    (c : ℕ) (ws : List Bytes) → (c == slash) ≡ false → All NoSlash ws → All NoSlash (cons_head c ws)
cons_head-NoSlash c [] h k = ((h, tt), tt)
cons_head-NoSlash c (w ∷ ws) h k = ((h, k.0), k.1)

split-NoSlash : (s : Bytes) → All NoSlash (split s)
unfolding split
split-NoSlash [] = (tt, tt)
split-NoSlash (c ∷ s) = elim (Bool-cases (c == slash)) [
  | inl e ↦ rw e (tt, split-NoSlash s)
  | inr e ↦ rw e (cons_head-NoSlash c (split s) e (split-NoSlash s))
]

non_empty-IsPiece : (ws : List Bytes) → All NoSlash ws → All IsPiece (non_empty ws)
non_empty-IsPiece [] h = tt
non_empty-IsPiece ([] ∷ ws) h = non_empty-IsPiece ws h.1
non_empty-IsPiece ((c ∷ w) ∷ ws) h = ((omega arith, h.0), non_empty-IsPiece ws h.1)

components-IsPiece : (s : Bytes) → All IsPiece (components s)
unfolding components
components-IsPiece s = non_empty-IsPiece (split s) (split-NoSlash s)

-- The stack holds names, and not too many.
record IsSound (p : Parts) : Type 0 where
  names : All IsName p.stack
  depth : length p.stack ≤ max_depth

pop-All : (st : List Bytes) → All IsName st → All IsName (pop st)
pop-All [] h = tt
pop-All (c ∷ st) h = h.1

length-pop : (st : List Bytes) → length (pop st) ≤ length st
length-pop [] = omega arith
length-pop (c ∷ st) = omega arith

push-IsSound : (p : Parts) (c : Bytes) → IsPiece c → IsSound p → IsSound (push p c)
unfolding push
push-IsSound p c h k = elim (Bool-cases (is_dot c)) [
  | inl e ↦ rw e k
  | inr e ↦ elim (Bool-cases (is_dot_dot c)) [
    | inl e' ↦
        rw (e, e')
          (record {
            names = pop-All p.stack k.names;
            depth = omega (arith, k.depth, length-pop p.stack);
          })
    | inr e' ↦ elim (Bool-cases (ltb (length p.stack) max_depth)) [
      | inl l ↦
          rw (e, e', l)
            (record {
              names = (record { piece = h; not_dot = e; not_dot_dot = e' }, k.names);
              depth = ground arith;
            })
      | inr l ↦ rw (e, e', l) (record { names = k.names; depth = k.depth })
    ]
  ]
]

push_all-IsSound :
    (p : Parts) (cs : List Bytes) → All IsPiece cs → IsSound p → IsSound (push_all p cs)
unfolding push_all
push_all-IsSound p [] h k = k
push_all-IsSound p (c ∷ cs) h k = push_all-IsSound (push p c) cs h.1 (push-IsSound p c h.0 k)

All-reverse : (cs : List Bytes) → All IsName cs → All IsName (reverse cs)
All-reverse [] h = tt
All-reverse (c ∷ cs) h =
    rw (reverse-append (c ∷ []) cs)
      (All-append IsName (reverse cs) (c ∷ []) (All-reverse cs h.1) (h.0, tt))

pub path_of-eq-render : (cs : List Bytes) → 0 < length cs → render cs ≡ path_of cs
path_of-eq-render [] h = absurd (omega arith)
path_of-eq-render (c ∷ cs) h = refl

finish-IsNormal :
    (st : List Bytes) (b : Bool) (r : Bytes)
    → IsSound (record { stack = st; overflow = b })
    → finish (record { stack = st; overflow = b }) ≡ some r
    → IsNormal r
unfolding finish
finish-IsNormal st true r k h = cc
finish-IsNormal [] false r k h = record {
  names = [];
  are_names = tt;
  depth = omega arith;
  path = ground arith;
}
finish-IsNormal (c ∷ st) false r k h = record {
  names = reverse (c ∷ st);
  are_names = All-reverse (c ∷ st) k.names;
  depth = omega (arith, k.depth, length-reverse (c ∷ st));
  path =
      sym (some-injective (render (reverse (c ∷ st))) r h)
      ∙ path_of-eq-render (reverse (c ∷ st)) (omega (arith, length-reverse (c ∷ st)));
}

-- What fsNormalizePath returns is "/", or at most 256 names, each behind a slash.
pub normalize-IsNormal : (s r : Bytes) → normalize s ≡ some r → IsNormal r
normalize-IsNormal s r h =
    let p = push_all (record { stack = []; overflow = false }) (components s) in
    finish-IsNormal p.stack p.overflow r
      (push_all-IsSound (record { stack = []; overflow = false }) (components s)
        (components-IsPiece s) (record { names = tt; depth = omega arith }))
      (sym (normalize-eq-push_all s) ∙ h)

component-append : (w t : Bytes) → NoSlash w → component t ≡ [] → component (w ++ t) ≡ w
unfolding component
component-append [] t h k = k
component-append (c ∷ w) t h k = rw h.0 (ap (λ v. c ∷ v) (component-append w t h.1 k))

after_component-append :
    (w t : Bytes) → NoSlash w → after_component t ≡ t → after_component (w ++ t) ≡ t
unfolding after_component
after_component-append [] t h k = k
after_component-append (c ∷ w) t h k = rw h.0 (after_component-append w t h.1 k)

component-render : (cs : List Bytes) → component (render cs) ≡ []
unfolding component render
component-render [] = refl
component-render (c ∷ cs) = refl

after_component-render : (cs : List Bytes) → after_component (render cs) ≡ render cs
unfolding after_component render
after_component-render [] = refl
after_component-render (c ∷ cs) = refl

-- The components of a rendered path are its names.
pub components-render : (cs : List Bytes) → All IsName cs → components (render cs) ≡ cs
unfolding render
components-render [] h = components-nil
components-render ([] ∷ cs) h = absurd (omega (arith, h.0.piece.0))
components-render ((c ∷ w) ∷ cs) h =
    let t = render cs in
    components (slash ∷ ((c ∷ w) ++ t))
    ≡⟨ components-slash ((c ∷ w) ++ t) ⟩ components ((c ∷ w) ++ t)
    ≡⟨ components_round c (w ++ t) h.0.piece.1.0 ⟩
      component ((c ∷ w) ++ t) ∷ components (after_component ((c ∷ w) ++ t))
    ≡⟨ ap₂ (λ v u. v ∷ components u) (component-append (c ∷ w) t h.0.piece.1 (component-render cs))
        (after_component-append (c ∷ w) t h.0.piece.1 (after_component-render cs)) ⟩
      (c ∷ w) ∷ components t
    ≡⟨ ap (λ l. (c ∷ w) ∷ l) (components-render cs h.1) ⟩ (c ∷ w) ∷ cs ∎

-- Names are pushed onto the stack as they are, as long as there is room.
pub push_all_names :
    (cs st : List Bytes)
    → All IsName cs
    → length cs + length st ≤ max_depth
    → push_all (record { stack = st; overflow = false }) cs
      ≡ record { stack = reverse cs ++ st; overflow = false }
unfolding push_all push
push_all_names [] st h k = refl
push_all_names (c ∷ cs) st h k =
    let room : ltb (length st) max_depth ≡ true = ground arith in
    rw (h.0.not_dot, h.0.not_dot_dot, room)
      (push_all_names cs (c ∷ st) h.1 (omega arith)
        ∙ ap (λ l. record { stack = l; overflow = false })
            (sym (append_assoc (reverse cs) (c ∷ []) st)
              ∙ ap (λ l. l ++ st) (sym (reverse-append (c ∷ []) cs))))

finish-names :
    (l : List Bytes)
    → 0 < length l
    → finish (record { stack = l; overflow = false }) ≡ some (render (reverse l))
unfolding finish
finish-names [] h = absurd (omega arith)
finish-names (c ∷ l) h = refl

normalize-root : normalize root ≡ some root
unfolding normalize
normalize-root = refl

normalize-render :
    (cs : List Bytes)
    → All IsName cs
    → length cs ≤ max_depth
    → normalize (path_of cs) ≡ some (path_of cs)
normalize-render [] h k = normalize-root
normalize-render (c ∷ cs) h k =
    normalize-eq-push_all (render (c ∷ cs))
    ∙ rw (components-render (c ∷ cs) h, push_all_names (c ∷ cs) [] h (omega arith), append-nil)
        (finish-names (reverse (c ∷ cs)) (omega (arith, length-reverse (c ∷ cs)))
          ∙ ap (λ l. some (render l)) (reverse-reverse (c ∷ cs)))

pub normalize-eq-some : (p : Bytes) → IsNormal p → normalize p ≡ some p
normalize-eq-some p n = rw n.path (normalize-render n.names n.are_names n.depth)

-- fsNormalizePath returns unchanged what it has returned.
pub normalize-normalize : (s r : Bytes) → normalize s ≡ some r → normalize r ≡ some r
normalize-normalize s r h = normalize-eq-some r (normalize-IsNormal s r h)

-- A normal path begins with a slash.
pub normal-slash : (p : Bytes) → IsNormal p → (s : Bytes) × (p ≡ slash ∷ s)
unfolding render
normal-slash p n = split n.names n.path
  where
    split : (cs : List Bytes) → p ≡ path_of cs → (s : Bytes) × (p ≡ slash ∷ s)
    split [] e = ([], e)
    split (c ∷ cs) e = (_, e)
