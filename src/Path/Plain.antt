-- ===== src/Path/Plain.antt =====
-- module/path.c on texts with no NUL, which is what `strlen` leaves: the paths that come out have none.
use mathlib.Core.Option.{some-injective}
use mathlib.Core.List.{reverse-append}
use mathlib.Core.Logic.{◌≢◌}
use redis_fs.Base.{
  ◌-◌, ℕ, ◌≤◌, ◌<◌, ◌≡◌, refl, sym, ◌∙◌, Bool, true, false, ◌&&◌, some, List, [], ◌∷◌, ◌++◌,
  reverse, All, All-append, All-take, All-drop, arith, Bool-cases, inl, inr, if◌then◌else◌, ltb,
  leb, ◌==◌, length, length-append, take, byte_at, NoNul,
}
use redis_fs.Base.ByteStrings.{Bytes}
use redis_fs.Path.{
  slash, root, max_depth, Parts, pop, push, finish, normalize, parent, base_name, join, is_root,
  render, is_dot, is_dot_dot, last_slash,
}
use redis_fs.Path.Components.{
  split, cons_head, non_empty, components, push_all, normalize-eq-push_all,
}
use redis_fs.Path.Normal.{IsNormal, IsName, path_of, path_of-eq-render, normalize-IsNormal}
use redis_fs.Path.Parent.{join-parent-base_name, parent-snoc, base_name-snoc, render-snoc}
use redis_fs.Path.Depth.{join-name_inverse}

-- A name as it stands in a C string.
abbrev pub IsCName : Bytes → Type 0
IsCName w = IsName w × NoNul w

slash-NoNul : slash ≢ 0
slash-NoNul e = absurd (omega arith)

render-NoNul : (i : List Bytes) → All NoNul i → NoNul (render i)
unfolding render
render-NoNul [] h = tt
render-NoNul (w ∷ i) h = (slash-NoNul, All-append _ w (render i) h.0 (render-NoNul i h.1))

All-snd : (i : List Bytes) → All IsCName i → All NoNul i
All-snd [] h = tt
All-snd (w ∷ i) h = (h.0.1, All-snd i h.1)

pub path_of-NoNul : (i : List Bytes) → All IsCName i → NoNul (path_of i)
path_of-NoNul [] h = (slash-NoNul, tt)
path_of-NoNul (w ∷ i) h = render-NoNul (w ∷ i) (All-snd (w ∷ i) h)

cons_head-NoNul : (c : ℕ) (ws : List Bytes) → c ≢ 0 → All NoNul ws → All NoNul (cons_head c ws)
cons_head-NoNul c [] h k = ((h, tt), tt)
cons_head-NoNul c (w ∷ ws) h k = ((h, k.0), k.1)

split-NoNul : (s : Bytes) → NoNul s → All NoNul (split s)
unfolding split
split-NoNul [] h = (tt, tt)
split-NoNul (c ∷ s) h = elim (Bool-cases (c == slash)) [
  | inl e ↦ rw e (tt, split-NoNul s h.1)
  | inr e ↦ rw e (cons_head-NoNul c (split s) h.0 (split-NoNul s h.1))
]

non_empty-NoNul : (ws : List Bytes) → All NoNul ws → All NoNul (non_empty ws)
non_empty-NoNul [] h = tt
non_empty-NoNul ([] ∷ ws) h = non_empty-NoNul ws h.1
non_empty-NoNul ((c ∷ w) ∷ ws) h = (h.0, non_empty-NoNul ws h.1)

pop-NoNul : (st : List Bytes) → All NoNul st → All NoNul (pop st)
pop-NoNul [] h = tt
pop-NoNul (c ∷ st) h = h.1

push-NoNul : (p : Parts) (c : Bytes) → NoNul c → All NoNul p.stack → All NoNul (push p c).stack
unfolding push
push-NoNul p c h k = elim (Bool-cases (is_dot c)) [
  | inl e ↦ rw e k
  | inr e ↦ elim (Bool-cases (is_dot_dot c)) [
    | inl e' ↦ rw (e, e') (pop-NoNul p.stack k)
    | inr e' ↦ elim (Bool-cases (ltb (length p.stack) max_depth)) [
      | inl l ↦ rw (e, e', l) (h, k)
      | inr l ↦ rw (e, e', l) k
    ]
  ]
]

push_all-NoNul :
    (p : Parts) (cs : List Bytes)
    → All NoNul cs
    → All NoNul p.stack
    → All NoNul (push_all p cs).stack
unfolding push_all
push_all-NoNul p [] h k = k
push_all-NoNul p (c ∷ cs) h k = push_all-NoNul (push p c) cs h.1 (push-NoNul p c h.0 k)

reverse-NoNul : (cs : List Bytes) → All NoNul cs → All NoNul (reverse cs)
reverse-NoNul [] h = tt
reverse-NoNul (c ∷ cs) h =
    rw (reverse-append (c ∷ []) cs)
      (All-append NoNul (reverse cs) (c ∷ []) (reverse-NoNul cs h.1) (h.0, tt))

finish-NoNul :
    (st : List Bytes) (b : Bool) (r : Bytes)
    → All NoNul st
    → finish (record { stack = st; overflow = b }) ≡ some r
    → NoNul r
unfolding finish
finish-NoNul st true r k h = cc h
finish-NoNul [] false r k h = rw (sym (some-injective root r h)) (slash-NoNul, tt)
finish-NoNul (c ∷ st) false r k h =
    rw (sym (some-injective (render (reverse (c ∷ st))) r h))
      (render-NoNul (reverse (c ∷ st)) (reverse-NoNul (c ∷ st) k))

pub normalize-NoNul : (s r : Bytes) → NoNul s → normalize s ≡ some r → NoNul r
unfolding components
normalize-NoNul s r h e =
    let p = push_all (record { stack = []; overflow = false }) (components s) in
    finish-NoNul p.stack p.overflow r
      (push_all-NoNul (record { stack = []; overflow = false }) (components s)
        (non_empty-NoNul (split s) (split-NoNul s h)) tt)
      (sym (normalize-eq-push_all s) ∙ e)

-- A path as the handlers use it: normal, with no NUL.
pub record IsCPath (p : Bytes) : Type 0 where
  pub normal : IsNormal p
  pub plain : NoNul p

pub normalize-IsCPath : (s r : Bytes) → NoNul s → normalize s ≡ some r → IsCPath r
normalize-IsCPath s r h e = record {
  normal = normalize-IsNormal s r e;
  plain = normalize-NoNul s r h e;
}

pub join-IsCPath : (a b r : Bytes) → NoNul a → NoNul b → join a b ≡ some r → IsCPath r
unfolding join
join-IsCPath a b r h k e = elim (Bool-cases (ltb 0 (length b) && byte_at b 0 == slash)) [
  | inl q ↦ normalize-IsCPath b r k (rw q at e)
  | inr q ↦
      normalize-IsCPath (a ++ (slash ∷ b)) r (All-append _ a (slash ∷ b) h (slash-NoNul, k))
        (rw q at e)
]

pub root-IsCPath : IsCPath root
root-IsCPath = record {
  normal = record { names = []; are_names = tt; depth = omega arith; path = refl };
  plain = (slash-NoNul, tt);
}

pub not_root : (p : Bytes) → is_root p ≡ false → p ≢ root
unfolding is_root
not_root p h e = let is : is_root p ≡ true = rw e refl in cc (h, is)

either-NoNul : (b : Bool) (s t : Bytes) → NoNul s → NoNul t → NoNul (if b then s else t)
either-NoNul true s t h k = h
either-NoNul false s t h k = k

pub parent-NoNul : (p : Bytes) → NoNul p → NoNul (parent p)
unfolding parent
parent-NoNul p h =
    let last = length p - 1 in
    let from = if byte_at p last == slash && ltb 0 last then last - 1 else last in
    let cut = last_slash p from in
    either-NoNul (leb (length p) 1) root (if cut == 0 then root else take cut p) (slash-NoNul, tt)
      (either-NoNul (cut == 0) root (take cut p) (slash-NoNul, tt) (All-take _ cut p h))

base_name-NoNul : (p : Bytes) → NoNul p → NoNul (base_name p)
unfolding base_name
base_name-NoNul p h =
    either-NoNul (leb (length p) 1) root _ (slash-NoNul, tt) (All-take _ _ _ (All-drop _ _ p h))

-- A path other than "/" is its parent joined with its name.
pub parent-IsCPath :
    (p : Bytes)
    → IsCPath p
    → is_root p ≡ false
    → IsCPath (parent p) × IsCName (base_name p) × (join (parent p) (base_name p) ≡ some p)
parent-IsCPath p h nr =
    let (joins, above, name) = join-parent-base_name p h.normal (not_root p nr) in
    (
      record { normal = above; plain = parent-NoNul p h.plain },
      (name, base_name-NoNul p h.plain),
      joins,
    )

pub is_root-joined : (a w : Bytes) → 0 < length w → is_root (a ++ (slash ∷ w)) ≡ false
unfolding is_root
is_root-joined a w h = ground (arith, length-append a (slash ∷ w))

-- A directory's path joined with a name is the path of a child.
pub record IsChild (p w q : Bytes) : Type 0 where
  pub is_path : IsCPath q
  pub below : is_root q ≡ false
  pub parent_is : parent q ≡ p
  pub name_is : base_name q ≡ w

pub join-IsChild : (p w q : Bytes) → IsCPath p → IsCName w → join p w ≡ some q → IsChild p w q
join-IsChild p w q h k e =
    let i = h.normal.names in
    let (is, room) =
      join-name_inverse i w q h.normal.are_names k.0 h.normal.depth (rw h.normal.path at e) in
    let long : 0 < length (i ++ (w ∷ [])) = omega (arith, length-append i (w ∷ [])) in
    let rendered : q ≡ render (i ++ (w ∷ [])) = is ∙ sym (path_of-eq-render (i ++ (w ∷ [])) long) in
    record {
      is_path = join-IsCPath p w q h.plain k.1 e;
      below = rw (rendered, render-snoc i w) (is_root-joined (render i) w k.0.piece.0);
      parent_is = rw rendered (parent-snoc i w k.0) ∙ sym h.normal.path;
      name_is = rw rendered (base_name-snoc i w k.0);
    }

All-split : (s t : Bytes) → NoNul (s ++ t) → NoNul s × NoNul t
All-split [] t h = (tt, h)
All-split (c ∷ s) t h = let (k, l) = All-split s t h.1 in ((h.0, k), l)

render_parts : (i : List Bytes) → NoNul (render i) → All NoNul i
unfolding render
render_parts [] h = tt
render_parts (w ∷ i) h =
    let (front, back) = All-split w (render i) h.1 in (front, render_parts i back)

All-pair : (i : List Bytes) → All IsName i → All NoNul i → All IsCName i
All-pair [] h k = tt
All-pair (w ∷ i) h k = ((h.0, k.0), All-pair i h.1 k.1)

-- The names of a path have no NUL either.
pub path_names :
    (p : Bytes)
    → IsCPath p
    → (i : List Bytes) × All IsCName i × (length i ≤ max_depth) × (p ≡ path_of i)
path_names p h = split h.normal.names h.normal.are_names h.normal.depth h.normal.path
  where
    split :
        (i : List Bytes)
        → All IsName i
        → length i ≤ max_depth
        → p ≡ path_of i
        → (j : List Bytes) × All IsCName j × (length j ≤ max_depth) × (p ≡ path_of j)
    split [] names d e = ([], tt, d, e)
    split (w ∷ i) names d e =
        (w ∷ i, All-pair (w ∷ i) names (render_parts (w ∷ i) (rw e at h.plain)), d, e)
