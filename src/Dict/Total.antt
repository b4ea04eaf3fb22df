-- ===== src/Dict/Total.antt =====
-- Sums over the entries of a dictionary, and how the operations change them.
use redis_fs.Base.{
  ℕ, ◌+◌, ◌≡◌, refl, sym, ap, ◌∙◌, false, none, some, List, [], ◌∷◌, arith, if◌then◌else◌, bytes_eq,
  bytes_eq_refl, bytes_eq→eq, bytes_eq_iff, Bool-cases, inl, inr,
}
use redis_fs.Base.ByteStrings.{Bytes}
use redis_fs.Dict.{find, Distinct, DictApi}

module _ {V : Type 0} where
  abbrev pub total : (V → ℕ) → List (Bytes × V) → ℕ
  total f [] = 0
  total f ((k, v) ∷ l) = f v + total f l

  unfoldable pub without : Bytes → List (Bytes × V) → List (Bytes × V)
  without k [] = []
  without k ((j, v) ∷ l) = if bytes_eq j k then l else (j, v) ∷ without k l

  total-without :
      (f : V → ℕ) (k : Bytes) (v : V) (l : List (Bytes × V))
      → find k l ≡ some v
      → total f l ≡ f v + total f (without k l)
  unfolding find without
  total-without f k v [] h = cc
  total-without f k v ((j, w) ∷ l) h = ground (arith, total-without f k v l)

  pub find-without_ne :
      (k j : Bytes) (l : List (Bytes × V)) → bytes_eq k j ≡ false → find j (without k l) ≡ find j l
  unfolding find without
  find-without_ne k j [] h = refl
  find-without_ne k j ((i, w) ∷ l) h =
      ground (arith, find-without_ne k j l h, bytes_eq_iff i k, bytes_eq_iff i j, bytes_eq_iff k j)

  pub find-without_self :
      (k : Bytes) (l : List (Bytes × V)) → Distinct l → find k (without k l) ≡ none
  unfolding find without
  find-without_self k [] h = refl
  find-without_self k ((i, w) ∷ l) h = ground (arith, find-without_self k l h.1, bytes_eq_iff i k)

  pub Distinct-without : (k : Bytes) (l : List (Bytes × V)) → Distinct l → Distinct (without k l)
  unfolding find without
  Distinct-without k [] h = tt
  Distinct-without k ((i, w) ∷ l) h = elim (Bool-cases (bytes_eq i k)) [
    | inl e ↦ rw e h.1
    | inr e ↦ rw e (
      ground (arith, find-without_ne k i l, bytes_eq_iff i k, bytes_eq_iff k i, h.0),
      Distinct-without k l h.1,
    )
  ]

  -- Lists with the same keys and values, none twice, have the same sums.
  total_of_find :
      (f : V → ℕ) (l m : List (Bytes × V))
      → Distinct l
      → Distinct m
      → ((k : Bytes) → find k l ≡ find k m)
      → total f l ≡ total f m
  unfolding find
  total_of_find f [] [] h k e = refl
  total_of_find f [] ((j, w) ∷ m) h k e = ground (arith, e j, bytes_eq_refl j)
  total_of_find f ((j, v) ∷ l) m h k e =
      let here : find j m ≡ some v = sym (e j) ∙ rw bytes_eq_refl in
      ap (λ n. f v + n)
        (total_of_find f l (without j m) h.1 (Distinct-without j m k) λ i.
          elim (Bool-cases (bytes_eq j i)) [
            | inl q ↦ rw (← bytes_eq→eq j i q) (h.0 ∙ sym (find-without_self j m k))
            | inr q ↦ rw (find-without_ne j i m q) (rw q at (e i))
          ])
      ∙ sym (total-without f j v m here)

module _ {V : Type 0} (D : DictApi V) (f : V → ℕ) where
  open D use {
    Dict, empty, get, set, replace, del, entries, get-empty, get-set, get-replace, get-del,
    find-entries, entries-Distinct,
  }

  unfoldable pub sum : Dict → ℕ
  sum d = total f (entries d)

  pub sum-empty : sum empty ≡ 0
  unfolding sum find
  sum-empty =
      total_of_find f (entries empty) [] (entries-Distinct empty) tt
        λ k. find-entries empty k ∙ get-empty k

  pub sum-set : (d : Dict) (k : Bytes) (v : V) → get d k ≡ none → sum (set d k v) ≡ f v + sum d
  unfolding sum find
  sum-set d k v h =
      total_of_find f (entries (set d k v)) ((k, v) ∷ entries d) (entries-Distinct (set d k v))
        (find-entries d k ∙ h, entries-Distinct d)
        λ j. find-entries (set d k v) j ∙ get-set d k j v ∙ rw (h, find-entries d j)

  pub sum-del : (d : Dict) (k : Bytes) (v : V) → get d k ≡ some v → sum d ≡ f v + sum (del d k)
  unfolding sum find
  sum-del d k v h =
      total_of_find f (entries d) ((k, v) ∷ entries (del d k)) (entries-Distinct d)
        (find-entries (del d k) k ∙ get-del d k k ∙ rw bytes_eq_refl, entries-Distinct (del d k))
        λ j.
          rw (find-entries d j, find-entries (del d k) j, get-del d k j)
            (ground (arith, bytes_eq_iff k j))

  pub sum-replace :
      (d : Dict) (k : Bytes) (v w : V) → get d k ≡ some w → sum (replace d k v) + f w ≡ f v + sum d
  unfolding sum find
  sum-replace d k v w h =
      let old : find k (entries d) ≡ some w = find-entries d k ∙ h in
      let new =
        total_of_find f (entries (replace d k v)) ((k, v) ∷ without k (entries d))
          (entries-Distinct (replace d k v))
          (
            find-without_self k (entries d) (entries-Distinct d),
            Distinct-without k (entries d) (entries-Distinct d),
          )
          λ j.
            rw (find-entries (replace d k v) j, get-replace d k j v)
              (ground (arith, find-without_ne k j (entries d), find-entries d j)) in
      omega (arith, new, total-without f k w (entries d) old)
