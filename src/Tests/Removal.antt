-- ===== src/Tests/Removal.antt =====
-- RM of a directory with a file over an association list.
use redis_fs.Base.{
  ◌≡◌, refl, true, List, [], ◌∷◌, some, All, codes, bytes_eq, Bool-cases, inl, inr, arith, ℤ,
}
use mathlib.Core.Option.{some-injective}
use redis_fs.Base.ByteStrings.{Bytes}
use redis_fs.Base.Int.{pos}
use redis_fs.Dict.{find}
use redis_fs.Dict.Total.{without}
use redis_fs.Inode.{Inode, dir, file_type, dir_type, inode_create}
use redis_fs.Path.{normalize}
use redis_fs.Path.Normal.{IsName, IsNormal, normalize-IsNormal}
use redis_fs.Fs.{Fs, object_create, insert, count_in, lookup}
use redis_fs.Command.{Outcome}
use redis_fs.Command.Remove.{children, rm_at}
use redis_fs.Command.Remove.Ends.{HasNames, rm_at-ends}
use redis_fs.Tests.Stores.{store}

abbrev pub now : ℤ
now = pos 5

abbrev pub tree : Fs store
tree =
    insert store
      (insert store (object_create store) (codes "/d")
        (record (inode_create now dir_type 0) { payload = dir (codes "f" ∷ []) }))
      (codes "/d/f") (inode_create now file_type 0)

pub f-IsName : IsName (codes "f")
f-IsName = record { piece = (omega arith, (refl, tt)); not_dot = refl; not_dot_dot = refl }

pub find-All :
    (P : Inode → Type 0) (l : List (Bytes × Inode)) (k : Bytes) (i : Inode)
    → All (λ e. P e.1) l
    → find k l ≡ some i
    → P i
unfolding find
find-All P [] k i h e = cc e
find-All P ((j, v) ∷ l) k i h e = elim (Bool-cases (bytes_eq j k)) [
  | inl q ↦ let same = some-injective v i (rw q at e) in rw same at h.0
  | inr q ↦ find-All P l k i h.1 (rw q at e)
]

tree-HasNames : HasNames store now tree
unfolding insert count_in object_create inode_create without bytes_eq find lookup
tree-HasNames p i e =
    find-All (λ i. All IsName (children i.payload)) (store.entries tree.inodes) p i
      (tt, ((f-IsName, tt), tt)) e

d-IsNormal : IsNormal (codes "/d")
unfolding normalize
d-IsNormal = normalize-IsNormal (codes "/d") (codes "/d") refl

rm_at-ends_example :
    (o : Outcome (Fs store)) × (rm_at store 257 now true tree (codes "/d") ≡ some o)
rm_at-ends_example = rm_at-ends store now true tree (codes "/d") d-IsNormal tree-HasNames
