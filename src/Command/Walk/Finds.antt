-- ===== src/Command/Walk/Finds.antt =====
-- fsFindWalk on a tree of paths: it lists exactly the paths that match.
use mathlib.Core.Option.{some-injective}
use redis_fs.Base.{
  ℕ, zero, suc, ◌≡◌, refl, sym, ap, ◌∙◌, Bool, true, false, ◌&&◌, ◌||◌, Option, none, some, List,
  [], ◌∷◌, ◌++◌, arith, Bool-cases, Option-cases, inl, inr, bytes_eq, bytes_eq→eq, c_str,
}
use redis_fs.Base.ByteStrings.{Bytes}
use redis_fs.Dict.{DictApi}
use redis_fs.Inode.{Inode, InodeType, Payload, has_name}
use redis_fs.Path.{base_name, join}
use redis_fs.Fs.{Fs, lookup}
use redis_fs.Text.Grep.{is_match}
use redis_fs.Command.Remove.{children}
use redis_fs.Command.Walk.{both, each_child, type_passes, find_here, walk}

pub has_name-both :
    (xs ys : List Bytes) (q : Bytes) → has_name (xs ++ ys) q ≡ (has_name xs q || has_name ys q)
unfolding has_name
has_name-both [] ys q = ground arith
has_name-both (a ∷ xs) ys q = ground (arith, has_name-both xs ys q)

pub both_parts :
    (x y : Option (List Bytes)) (ps : List Bytes)
    → both x y ≡ some ps
    → (xs : List Bytes) × (ys : List Bytes) × (x ≡ some xs) × (y ≡ some ys) × (xs ++ ys ≡ ps)
both_parts none y ps e = cc e
both_parts (some xs) none ps e = cc e
both_parts (some xs) (some ys) ps e = (xs, ys, refl, refl, some-injective (xs ++ ys) ps e)

pub both_true : (a b : Bool) → (a && b) ≡ true → (a ≡ true) × (b ≡ true)
both_true true b h = (refl, h)
both_true false b h = cc h

module _ (D : DictApi Inode) (pattern : Bytes) (filter : Option InodeType) (fs : Fs D) where
  -- An inode at the path matches FIND's pattern and type.
  abbrev pub passes : Option Inode → Bytes → Bool
  passes none q = false
  passes (some i) q = is_match false pattern (base_name q) && type_passes filter i.payload

  pub has_name-find_here :
      (p q : Bytes) (x : Payload)
      → has_name (find_here pattern filter p x) q
        ≡ ((is_match false pattern (base_name p) && type_passes filter x) && bytes_eq p q)
  unfolding has_name find_here
  has_name-find_here p q x = ground arith

  each_child_sound :
      (rec : Bytes → Option (List Bytes)) (q : Bytes)
      → ((p : Bytes) (ps : List Bytes)
          → rec p ≡ some ps
          → has_name ps q ≡ true
          → passes (lookup D fs q) q ≡ true)
      → (p : Bytes) (cs ps : List Bytes) → each_child rec p cs ≡ some ps
      → has_name ps q ≡ true
      → passes (lookup D fs q) q ≡ true
  unfolding each_child has_name
  each_child_sound rec q h p [] ps e k = cc (rw (← some-injective [] ps e) at k)
  each_child_sound rec q h p (c ∷ cs) ps e k = elim (Option-cases (join p (c_str c))) [
    | inl j ↦ each_child_sound rec q h p cs ps (rw (each_child, j) at e) k
    | inr (child, j) ↦
        let (xs, ys, here, rest, is) =
          both_parts (rec (c_str child)) (each_child rec p cs) ps (rw (each_child, j) at e) in
        elim (Bool-cases (has_name xs q)) [
          | inl m ↦ h (c_str child) xs here m
          | inr m ↦
              each_child_sound rec q h p cs ys rest
                (rw (has_name-both xs ys q, m) at (rw (← is) at k))
        ]
  ]

  pub walk_sound :
      (f : ℕ) (p q : Bytes) (ps : List Bytes)
      → walk D (find_here pattern filter) f fs p ≡ some ps
      → has_name ps q ≡ true
      → passes (lookup D fs q) q ≡ true
  unfolding walk has_name
  walk_sound zero p q ps e k = cc e
  walk_sound (suc f) p q ps e k = elim (Option-cases (lookup D fs p)) [
    | inl l ↦ cc (rw (← some-injective [] ps (rw (walk, l) at e)) at k)
    | inr (i, l) ↦
        let (xs, ys, here, rest, is) =
          both_parts (some (find_here pattern filter p i.payload))
            (each_child (walk D (find_here pattern filter) f fs) p (children i.payload)) ps
            (rw (walk, l) at e) in
        let found : (has_name xs q || has_name ys q) ≡ true =
          sym (has_name-both xs ys q) ∙ rw is k in
        elim (Bool-cases (has_name xs q)) [
          | inl m ↦
              let at_p =
                sym (has_name-find_here p q i.payload)
                ∙ ap (λ l. has_name l q)
                    (some-injective (find_here pattern filter p i.payload) xs here)
                ∙ m in
              let (passed, same) = both_true _ (bytes_eq p q) at_p in
              let is_here : p ≡ q = bytes_eq→eq p q same in rw (← is_here, l) passed
          | inr m ↦
              each_child_sound (walk D (find_here pattern filter) f fs) q
                (λ r rs. walk_sound f r q rs) p (children i.payload) ys rest (rw m at found)
        ]
  ]
