-- ===== src/Dict/Assoc.antt =====
-- An association list without double keys has the behaviour that DictApi asks for.
use redis_fs.Base.{
  ◌≡◌, refl, Option, none, some, List, [], ◌∷◌, arith, Bool-cases, Option-cases, inl, inr,
  if◌then◌else◌, bytes_eq, bytes_eq_iff, bytes_eq→eq,
}
use redis_fs.Base.ByteStrings.{Bytes}
use redis_fs.Dict.{find, Distinct, or_else, DictApi}
use redis_fs.Dict.Total.{without, find-without_ne, find-without_self, Distinct-without}

module _ (V : Type 0) where
  abbrev pub Assoc : Type 0
  Assoc = (l : List (Bytes × V)) × Distinct l

  abbrev pub put : Assoc → Bytes → V → Assoc
  put (l, h) k v = ((k, v) ∷ without k l, (find-without_self k l h, Distinct-without k l h))

  abbrev pub get_assoc : Assoc → Bytes → Option V
  get_assoc a k = find k a.0

  abbrev pub set_assoc : Assoc → Bytes → V → Assoc
  set_assoc a k v = elim (get_assoc a k) [ none ↦ put a k v | some _ ↦ a ]

  pub get-put :
      (a : Assoc) (k j : Bytes) (v : V)
      → get_assoc (put a k v) j ≡ (if bytes_eq k j then some v else get_assoc a j)
  unfolding find
  get-put (l, h) k j v = elim (Bool-cases (bytes_eq k j)) [
    | inl e ↦ rw e
    | inr e ↦ rw e (find-without_ne k j l e)
  ]

  pub get-set_assoc :
      (a : Assoc) (k j : Bytes) (v : V)
      → get_assoc (set_assoc a k v) j
        ≡ (if bytes_eq k j then some (or_else (get_assoc a k) v) else get_assoc a j)
  get-set_assoc a k j v = elim (Option-cases (get_assoc a k)) [
    | inl e ↦ rw (set_assoc, e) (get-put a k j v)
    | inr (w, e) ↦ rw (set_assoc, e) (ground (arith, bytes_eq_iff k j))
  ]

  pub get-del_assoc :
      (a : Assoc) (k j : Bytes)
      → get_assoc (without k a.0, Distinct-without k a.0 a.1) j
        ≡ (if bytes_eq k j then none else get_assoc a j)
  get-del_assoc (l, h) k j = elim (Bool-cases (bytes_eq k j)) [
    | inl e ↦ rw (e, ← bytes_eq→eq k j e) (find-without_self k l h)
    | inr e ↦ rw e (find-without_ne k j l e)
  ]

  pub get-empty_assoc : (k : Bytes) → get_assoc ([], tt) k ≡ none
  unfolding find
  get-empty_assoc k = refl

  abbrev pub assoc : DictApi V
  assoc = record {
    Dict = Assoc;
    empty = ([], tt);
    get = get_assoc;
    set = set_assoc;
    replace = put;
    del = λ a k. (without k a.0, Distinct-without k a.0 a.1);
    entries = λ a. a.0;
    get-empty = get-empty_assoc;
    get-set = get-set_assoc;
    get-replace = get-put;
    get-del = get-del_assoc;
    find-entries = λ a k. refl;
    entries-Distinct = λ a. a.1;
  }
