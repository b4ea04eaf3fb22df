-- ===== src/Command/Tree/Names.antt =====
-- fsDirAddChild and fsDirRemoveChild on a directory that lists each name once.
use redis_fs.Base.{
  ◌≡◌, refl, true, false, List, [], ◌∷◌, ◌++◌, All, All-append, Bool-cases, inl, inr, bytes_eq,
  bytes_eq_refl, bytes_eq→eq, NoNul, c_str_of_NoNul,
}
use redis_fs.Base.ByteStrings.{Bytes}
use redis_fs.Inode.{has_name, add_name, remove_name}
use redis_fs.Inode.Children.{has_name-append}
use redis_fs.Path.Plain.{IsCName}
use redis_fs.Command.Tree.Shapes.{Unique}

pub bytes_eq_comm : (a b : Bytes) → bytes_eq a b ≡ false → bytes_eq b a ≡ false
bytes_eq_comm a b h = elim (Bool-cases (bytes_eq b a)) [
  | inl e ↦ let same : b ≡ a = bytes_eq→eq b a e in cc (bytes_eq_refl a, h, same)
  | inr e ↦ e
]

Unique-snoc :
    (cs : List Bytes) (n : Bytes) → Unique cs → has_name cs n ≡ false → Unique (cs ++ (n ∷ []))
unfolding has_name
Unique-snoc [] n u h = (refl, tt)
Unique-snoc (c ∷ cs) n u h = elim (Bool-cases (bytes_eq c n)) [
  | inl e ↦ cc (rw e at h)
  | inr e ↦
      let other = bytes_eq_comm c n e in
      (rw (has_name-append cs n c, u.0, other) refl, Unique-snoc cs n u.1 (rw e at h))
]

pub Unique-add_name : (cs : List Bytes) (n : Bytes) → NoNul n → Unique cs → Unique (add_name cs n)
unfolding add_name
Unique-add_name cs n k u = elim (Bool-cases (has_name cs n)) [
  | inl e ↦ rw e u
  | inr e ↦ rw (e, c_str_of_NoNul n k) (Unique-snoc cs n u e)
]

pub IsCName-add_name :
    (cs : List Bytes) (n : Bytes) → IsCName n → All IsCName cs → All IsCName (add_name cs n)
unfolding add_name
IsCName-add_name cs n k u = elim (Bool-cases (has_name cs n)) [
  | inl e ↦ rw e u
  | inr e ↦ rw (e, c_str_of_NoNul n k.1) (All-append IsCName cs (n ∷ []) u (k, tt))
]

-- What is listed after a removal was listed before.
pub has_name-remove_name :
    (cs : List Bytes) (n c : Bytes) → has_name (remove_name cs n) c ≡ true → has_name cs c ≡ true
unfolding has_name remove_name
has_name-remove_name [] n c h = h
has_name-remove_name (d ∷ cs) n c h = elim (Bool-cases (bytes_eq d c)) [
  | inl e ↦ rw e refl
  | inr e ↦ elim (Bool-cases (bytes_eq d n)) [
    | inl q ↦ rw e (rw q at h)
    | inr q ↦ rw e (has_name-remove_name cs n c (rw (q, has_name, e) at h))
  ]
]

-- Another name stays.
pub has_name-remove_name_other :
    (cs : List Bytes) (n c : Bytes)
    → bytes_eq n c ≡ false
    → has_name cs c ≡ true
    → has_name (remove_name cs n) c ≡ true
unfolding has_name remove_name
has_name-remove_name_other [] n c k h = h
has_name-remove_name_other (d ∷ cs) n c k h = elim (Bool-cases (bytes_eq d n)) [
  | inl q ↦ let other : bytes_eq d c ≡ false = rw (bytes_eq→eq d n q) k in rw q (rw other at h)
  | inr q ↦ elim (Bool-cases (bytes_eq d c)) [
    | inl e ↦ rw (q, has_name, e) refl
    | inr e ↦ rw (q, has_name, e) (has_name-remove_name_other cs n c k (rw e at h))
  ]
]

absent-remove_name : (cs : List Bytes) (n : Bytes) → has_name cs n ≡ false → remove_name cs n ≡ cs
unfolding has_name remove_name
absent-remove_name [] n h = refl
absent-remove_name (d ∷ cs) n h = elim (Bool-cases (bytes_eq d n)) [
  | inl e ↦ cc (rw e at h)
  | inr e ↦ rw (e, absent-remove_name cs n (rw e at h)) refl
]

remove_name_absent :
    (cs : List Bytes) (n c : Bytes) → has_name cs c ≡ false → has_name (remove_name cs n) c ≡ false
remove_name_absent cs n c h = elim (Bool-cases (has_name (remove_name cs n) c)) [
  | inl e ↦ cc (has_name-remove_name cs n c e, h)
  | inr e ↦ e
]

pub Unique-remove_name : (cs : List Bytes) (n : Bytes) → Unique cs → Unique (remove_name cs n)
unfolding remove_name
Unique-remove_name [] n u = tt
Unique-remove_name (d ∷ cs) n u = elim (Bool-cases (bytes_eq d n)) [
  | inl e ↦ rw e u.1
  | inr e ↦ rw e (remove_name_absent cs n d u.0, Unique-remove_name cs n u.1)
]

-- The name itself is gone.
pub has_name-removed :
    (cs : List Bytes) (n : Bytes) → Unique cs → has_name (remove_name cs n) n ≡ false
unfolding has_name remove_name
has_name-removed [] n u = refl
has_name-removed (d ∷ cs) n u = elim (Bool-cases (bytes_eq d n)) [
  | inl e ↦ rw (e, ← bytes_eq→eq d n e) u.0
  | inr e ↦ rw (e, has_name, e) (has_name-removed cs n u.1)
]

pub IsCName-remove_name :
    (cs : List Bytes) (n : Bytes) → All IsCName cs → All IsCName (remove_name cs n)
unfolding remove_name
IsCName-remove_name [] n u = tt
IsCName-remove_name (d ∷ cs) n u = elim (Bool-cases (bytes_eq d n)) [
  | inl e ↦ rw e u.1
  | inr e ↦ rw e (u.0, IsCName-remove_name cs n u.1)
]
