-- ===== src/Path/Parent.antt =====
-- fsParentPath, fsBaseName and fsJoinPath: a normal path is its parent, a slash and its last name.
use mathlib.Core.List.{append_assoc, append-nil}
use redis_fs.Base.{
  ℕ, zero, suc, ◌+◌, ◌-◌, ◌≤◌, ◌<◌, ◌≡◌, refl, sym, ap, ◌∙◌, ◌≢◌, ◌⊎◌, true, false, some, List, [],
  ◌∷◌, ◌++◌, arith, ltb, leb, ◌==◌, if◌then◌else◌, length, take, drop, All, All-append,
  length-append, length-take, take-append, Bool-cases, inl, inr, byte_at,
}
use redis_fs.Base.ByteStrings.{Bytes}
use redis_fs.Path.{
  slash, root, last_slash, name_start, parent, base_name, join, is_root, render, normalize,
  max_depth,
}
use redis_fs.Path.Components.{components, components-slash, normalize-eq-push_all}
use redis_fs.Path.Normal.{NoSlash, IsName, IsNormal, path_of, normalize-eq-some}

last_slash-le : (p : Bytes) (i : ℕ) → last_slash p i ≤ i
unfolding last_slash
last_slash-le p zero = omega arith
last_slash-le p (suc i) = ground (arith, last_slash-le p i)

pub is_root→eq : (p : Bytes) → is_root p ≡ true → p ≡ root
unfolding is_root
is_root→eq [] h = cc h
is_root→eq (c ∷ []) h = ground (arith, h)
is_root→eq (c ∷ d ∷ p) h = ground (arith, h)

-- A parent other than the root is shorter than its path.
pub length-parent : (p : Bytes) → is_root (parent p) ≡ false → length (parent p) < length p
unfolding parent is_root
length-parent p h =
    let a = length p - 1 in
    let b = length p - 1 - 1 in
    ground (
      arith,
      last_slash-le p a,
      last_slash-le p b,
      length-take (last_slash p a) p,
      length-take (last_slash p b) p,
    )

pub length-parent_pos : (p : Bytes) → 0 < length (parent p)
unfolding parent
length-parent_pos p =
    let a = length p - 1 in
    let b = length p - 1 - 1 in
    ground (
      arith,
      last_slash-le p a,
      last_slash-le p b,
      length-take (last_slash p a) p,
      length-take (last_slash p b) p,
    )

length-is_root : (p : Bytes) → is_root p ≡ true → length p ≡ 1
unfolding is_root
length-is_root p h = ground arith

-- A parent is one byte long, or shorter than its path.
pub length-parent_cases : (p : Bytes) → (length (parent p) ≡ 1) ⊎ (length (parent p) < length p)
length-parent_cases p = elim (Bool-cases (is_root (parent p))) [
  | inl e ↦ inl (length-is_root (parent p) e)
  | inr e ↦ inr (length-parent p e)
]

byte_at-slash : (a w : Bytes) → byte_at (a ++ (slash ∷ w)) (length a) ≡ slash
byte_at-slash [] w = refl
byte_at-slash (c ∷ a) w = byte_at-slash a w

byte_at-append : (a w : Bytes) (j : ℕ) → byte_at (a ++ w) (length a + j) ≡ byte_at w j
byte_at-append [] w j = ap (byte_at w) (omega arith)
byte_at-append (c ∷ a) w j =
    let e : suc (length a) + j ≡ suc (length a + j) = omega arith in rw e (byte_at-append a w j)

pub byte_at-NoSlash :
    (w : Bytes) (j : ℕ) → NoSlash w → j < length w → (byte_at w j == slash) ≡ false
byte_at-NoSlash [] j h l = absurd (omega arith)
byte_at-NoSlash (c ∷ w) zero h l = h.0
byte_at-NoSlash (c ∷ w) (suc j) h l = byte_at-NoSlash w j h.1 (omega arith)

drop-joined : (a w : Bytes) → drop (suc (length a)) (a ++ (slash ∷ w)) ≡ w
drop-joined [] w = refl
drop-joined (c ∷ a) w = drop-joined a w

take_all : (n : ℕ) (w : Bytes) → length w ≤ n → take n w ≡ w
take_all zero [] h = refl
take_all zero (c ∷ w) h = absurd (omega arith)
take_all (suc n) [] h = refl
take_all (suc n) (c ∷ w) h = ap (λ l. c ∷ l) (take_all n w (omega arith))

-- A path whose last piece is `w`.
module _ (a w : Bytes) (h : NoSlash w) where
  abbrev joined : Bytes
  joined = a ++ (slash ∷ w)

  length-joined : length joined ≡ length a + suc (length w)
  length-joined = length-append a (slash ∷ w)

  after_slash :
      (i : ℕ) → length a < i → i ≤ length a + length w → (byte_at joined i == slash) ≡ false
  after_slash i l k =
      let e : i ≡ length a + suc (i - suc (length a)) = omega arith in
      rw (e, byte_at-append a (slash ∷ w)) (byte_at-NoSlash w (i - suc (length a)) h (omega arith))

  last_slash-joined :
      (i : ℕ) → length a ≤ i → i ≤ length a + length w → last_slash joined i ≡ length a
  unfolding last_slash
  last_slash-joined zero l k = omega arith
  last_slash-joined (suc i) l k = elim (Bool-cases (suc i == length a)) [
    | inl e ↦ let q : suc i ≡ length a = ground arith in rw (q, byte_at-slash a w)
    | inr e ↦
        rw (after_slash (suc i) (ground arith) k) (last_slash-joined i (ground arith) (omega arith))
  ]

  name_start-joined :
      (i : ℕ) → length a < i → i ≤ length joined → name_start joined i ≡ suc (length a)
  unfolding name_start
  name_start-joined zero l k = absurd (omega arith)
  name_start-joined (suc i) l k = elim (Bool-cases (i == length a)) [
    | inl e ↦ let q : i ≡ length a = ground arith in rw (q, byte_at-slash a w)
    | inr e ↦
        rw (after_slash i (ground arith) (omega (arith, length-joined)))
          (name_start-joined i (ground arith) (omega arith))
  ]

  not_slash_last : 0 < length w → (byte_at joined (length joined - 1) == slash) ≡ false
  not_slash_last l =
      after_slash (length joined - 1) (omega (arith, length-joined)) (omega (arith, length-joined))

  pub parent-joined : 0 < length w → parent joined ≡ (if length a == 0 then root else a)
  unfolding parent
  parent-joined l =
      let n = length-joined in
      let short : leb (length joined) 1 ≡ false = ground arith in
      let cut = last_slash-joined (length joined - 1) (omega arith) (omega arith) in
      rw (short, not_slash_last l, cut, take-append a (slash ∷ w))

  pub base_name-joined : 0 < length w → base_name joined ≡ w
  unfolding base_name
  base_name-joined l =
      let n = length-joined in
      let short : leb (length joined) 1 ≡ false = ground arith in
      let start = name_start-joined (length joined) (omega arith) (omega arith) in
      rw (short, not_slash_last l, start, drop-joined a w)
        (take_all (length joined - suc (length a)) w (omega arith))

render-append : (cs ds : List Bytes) → render (cs ++ ds) ≡ render cs ++ render ds
unfolding render
render-append [] ds = refl
render-append (c ∷ cs) ds =
    ap (λ l. slash ∷ (c ++ l)) (render-append cs ds)
    ∙ ap (λ l. slash ∷ l) (sym (append_assoc c (render cs) (render ds)))

pub render-snoc : (cs : List Bytes) (w : Bytes) → render (cs ++ (w ∷ [])) ≡ render cs ++ (slash ∷ w)
unfolding render
render-snoc cs w = render-append cs (w ∷ []) ∙ ap (λ l. render cs ++ (slash ∷ l)) (append-nil w)

root_or-render :
    (cs : List Bytes) → (if length (render cs) == 0 then root else render cs) ≡ path_of cs
unfolding render
root_or-render [] = refl
root_or-render (c ∷ cs) = ground arith

-- A list that is not empty ends in an element.
pub snoc_cases :
    (c : Bytes) (cs : List Bytes) → (i : List Bytes) × (w : Bytes) × (c ∷ cs ≡ i ++ (w ∷ []))
snoc_cases c [] = ([], c, refl)
snoc_cases c (d ∷ cs) = let (i, w, e) = snoc_cases d cs in (c ∷ i, w, ap (λ l. c ∷ l) e)

pub All-snoc : (i : List Bytes) (w : Bytes) → All IsName (i ++ (w ∷ [])) → All IsName i × IsName w
All-snoc [] w h = (tt, h.0)
All-snoc (c ∷ i) w h = let (k, n) = All-snoc i w h.1 in ((h.0, k), n)

-- What a path other than "/" is made of.
pub record HasParent (p : Bytes) : Type 0 where
  pub above : Bytes
  pub name : Bytes
  pub above-IsNormal : IsNormal above
  pub is_name : IsName name
  pub parent_is : parent p ≡ above
  pub name_is : base_name p ≡ name
  pub joins : join above name ≡ some p

pub join-relative :
    (a b : Bytes)
    → (byte_at b 0 == slash) ≡ false
    → 0 < length b
    → join a b ≡ normalize (a ++ (slash ∷ b))
unfolding join
join-relative a b h l =
    let some_bytes : ltb 0 (length b) ≡ true = ground arith in rw (h, some_bytes)

pub normalize_of_components :
    (s t : Bytes) → components s ≡ components t → normalize s ≡ normalize t
normalize_of_components s t h = rw (normalize-eq-push_all s, h) (sym (normalize-eq-push_all t))

IsNormal-render :
    (cs : List Bytes) → 0 < length cs → All IsName cs → length cs ≤ max_depth → IsNormal (render cs)
IsNormal-render [] l h k = absurd (omega arith)
IsNormal-render (c ∷ cs) l h k = record { names = c ∷ cs; are_names = h; depth = k; path = refl }

pub components-joined :
    (i : List Bytes) (w : Bytes)
    → components (path_of i ++ (slash ∷ w)) ≡ components (render i ++ (slash ∷ w))
unfolding render
components-joined [] w = components-slash (slash ∷ w)
components-joined (c ∷ i) w = refl

pub join-name :
    (i : List Bytes) (w : Bytes)
    → All IsName i
    → IsName w
    → suc (length i) ≤ max_depth
    → join (path_of i) w ≡ some (render (i ++ (w ∷ [])))
join-name i w h n k =
    let size = length-append i (w ∷ []) in
    let whole =
      IsNormal-render (i ++ (w ∷ [])) (omega arith) (All-append IsName i (w ∷ []) h (n, tt))
        (omega arith) in
    join-relative (path_of i) w (byte_at-NoSlash w 0 n.piece.1 n.piece.0) n.piece.0
    ∙ normalize_of_components (path_of i ++ (slash ∷ w)) (render i ++ (slash ∷ w))
        (components-joined i w)
    ∙ rw (← render-snoc i w) (normalize-eq-some (render (i ++ (w ∷ []))) whole)

pub parent-snoc :
    (i : List Bytes) (w : Bytes) → IsName w → parent (render (i ++ (w ∷ []))) ≡ path_of i
parent-snoc i w n =
    rw render-snoc (parent-joined (render i) w n.piece.1 n.piece.0 ∙ root_or-render i)

pub base_name-snoc :
    (i : List Bytes) (w : Bytes) → IsName w → base_name (render (i ++ (w ∷ []))) ≡ w
base_name-snoc i w n = rw render-snoc (base_name-joined (render i) w n.piece.1 n.piece.0)

HasParent-snoc :
    (i : List Bytes) (w : Bytes)
    → All IsName i
    → IsName w
    → suc (length i) ≤ max_depth
    → HasParent (render (i ++ (w ∷ [])))
HasParent-snoc i w h n k = record {
  above = path_of i;
  name = w;
  above-IsNormal = record { names = i; are_names = h; depth = omega arith; path = refl };
  is_name = n;
  parent_is = parent-snoc i w n;
  name_is = base_name-snoc i w n;
  joins = join-name i w h n k;
}

-- A normal path other than "/" is its normal parent joined with its name.
pub IsNormal-HasParent : (p : Bytes) → IsNormal p → p ≢ root → HasParent p
IsNormal-HasParent p n h = split n.names n.are_names n.depth n.path
  where
    split : (cs : List Bytes) → All IsName cs → length cs ≤ max_depth → p ≡ path_of cs → HasParent p
    split [] k d e = absurd (h e)
    split (c ∷ cs) k d e =
        let (i, w, q) = snoc_cases c cs in
        let (hi, hw) = All-snoc i w (rw (← q) k) in
        rw (e, q) (HasParent-snoc i w hi hw (omega (arith, ap length q, length-append i (w ∷ []))))

-- A normal path other than "/" is its parent joined with its base name; the parent is normal, and
-- the base name is a name.
pub join-parent-base_name :
    (p : Bytes)
    → IsNormal p
    → p ≢ root
    → (join (parent p) (base_name p) ≡ some p) × IsNormal (parent p) × IsName (base_name p)
join-parent-base_name p n h =
    let k = IsNormal-HasParent p n h in
    (rw (k.parent_is, k.name_is) k.joins, rw k.parent_is k.above-IsNormal, rw k.name_is k.is_name)
