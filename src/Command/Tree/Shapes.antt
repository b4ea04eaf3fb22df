-- ===== src/Command/Tree/Shapes.antt =====
-- The shape of a filesystem: which paths there are, and which names each directory lists. What a tree
-- is, and what a tree stays under a new path and under a removed one.
use redis_fs.Base.{
  ◌≡◌, ap, true, false, Option, some, List, [], ◌∷◌, All, Bool-cases, inl, inr, bytes_eq,
  bytes_eq→eq,
}
use redis_fs.Base.ByteStrings.{Bytes}
use redis_fs.Inode.{Payload, dir, has_name}
use redis_fs.Path.{root, parent, base_name, join, is_root}
use redis_fs.Path.Parent.{is_root→eq}
use redis_fs.Path.Plain.{IsCPath, IsCName, IsChild, join-IsChild, root-IsCPath}

pub data Shape : Type 0 where
  leaf : Shape
  branch : List Bytes → Shape

abbrev pub shape : Payload → Shape
shape (dir cs) = branch cs
shape _ = leaf

pub branch-injective : {cs ds : List Bytes} → branch cs ≡ branch ds → cs ≡ ds
branch-injective e = ap names_in e
  where
    names_in : Shape → List Bytes
    names_in leaf = []
    names_in (branch cs) = cs

pub nothing_listed : (c : Bytes) → ¬ (has_name [] c ≡ true)
unfolding has_name
nothing_listed c e = cc e

-- The names of a list differ.
abbrev pub Unique : List Bytes → Type 0
Unique [] = Unit
Unique (c ∷ cs) = (has_name cs c ≡ false) × Unique cs

abbrev pub Shapes : Type 0
Shapes = Bytes → Option Shape

-- The parent of `p` is a directory that lists the name of `p`.
abbrev pub IsListed : Shapes → Bytes → Type 0
IsListed S p =
    (cs : List Bytes) × (S (parent p) ≡ some (branch cs)) × (has_name cs (base_name p) ≡ true)

-- There is a directory at "/". Every other path that is there is normal and listed by a directory at
-- its parent. Directories list names, none twice, and what they list is there.
pub record IsTree (S : Shapes) : Type 0 where
  pub top : (cs : List Bytes) × (S root ≡ some (branch cs))
  pub above : (p : Bytes) (s : Shape) → S p ≡ some s → is_root p ≡ false → IsCPath p × IsListed S p
  pub names : (p : Bytes) (cs : List Bytes) → S p ≡ some (branch cs) → All IsCName cs × Unique cs
  pub present :
      (p : Bytes) (cs : List Bytes) (c : Bytes)
      → S p ≡ some (branch cs)
      → has_name cs c ≡ true
      → (q : Bytes) × (s : Shape) × (join p c ≡ some q) × (S q ≡ some s)

pub tree-IsCPath : (S : Shapes) (p : Bytes) (s : Shape) → IsTree S → S p ≡ some s → IsCPath p
tree-IsCPath S p s t e = elim (Bool-cases (is_root p)) [
  | inl r ↦ rw (is_root→eq p r) root-IsCPath
  | inr r ↦ (t.above p s e r).0
]

has_name-IsCName : (cs : List Bytes) (c : Bytes) → All IsCName cs → has_name cs c ≡ true → IsCName c
unfolding has_name
has_name-IsCName [] c h e = cc e
has_name-IsCName (d ∷ cs) c h e = elim (Bool-cases (bytes_eq d c)) [
  | inl q ↦ rw (← bytes_eq→eq d c q) h.0
  | inr q ↦ has_name-IsCName cs c h.1 (rw q at e)
]

-- What is listed in a directory is a child of it.
pub listed-IsChild :
    (S : Shapes) (p : Bytes) (cs : List Bytes) (c q : Bytes)
    → IsTree S
    → S p ≡ some (branch cs)
    → has_name cs c ≡ true
    → join p c ≡ some q
    → IsChild p c q
listed-IsChild S p cs c q t e h j =
    join-IsChild p c q (tree-IsCPath S p (branch cs) t e)
      (has_name-IsCName cs c (t.names p cs e).0 h) j
