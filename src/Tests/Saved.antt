-- ===== src/Tests/Saved.antt =====
-- A filesystem saved and loaded over an association list.
use redis_fs.Base.{
  ◌≡◌, refl, ◌<◌, arith, All, length, some, none, List, [], ◌∷◌, ◌++◌, drop, add64, u64_mod, codes,
  bytes_eq,
}
use redis_fs.Base.Int.{pos}
use redis_fs.Dict.{find}
use redis_fs.Dict.Total.{without}
use redis_fs.Inode.{file_type, dir_type, inode_create}
use redis_fs.Bloom.{bloom_build}
use redis_fs.Fs.{Fs, object_create, insert, count_in, lookup}
use redis_fs.Fs.Counts.{IsCounted, object_create-IsCounted, insert-IsCounted}
use redis_fs.Fs.Parents.{bytes_of_new}
use redis_fs.Rdb.{Item, unsigned, buffer, save_entries, rdb_save, rdb_load}
use redis_fs.Rdb.Cut.{rdb_load-cut}
use redis_fs.Rdb.Round.{IsStorable, Same, rdb_load-rdb_save}
use redis_fs.Tests.Stores.{store}

-- A root directory and an empty file.
abbrev one : Fs store
one = insert store (object_create store) (codes "/") (inode_create (pos 7) dir_type 0)

abbrev two : Fs store
two = insert store one (codes "/f") (inode_create (pos 8) file_type 0)

one-IsCounted : IsCounted store one
unfolding lookup object_create find
one-IsCounted =
    insert-IsCounted store (object_create store) (codes "/") (inode_create (pos 7) dir_type 0)
      (object_create-IsCounted store) refl (bytes_of_new (pos 7) dir_type)

two-IsCounted : IsCounted store two
unfolding lookup object_create find insert count_in inode_create without bytes_eq
two-IsCounted =
    insert-IsCounted store one (codes "/f") (inode_create (pos 8) file_type 0) one-IsCounted refl
      (bytes_of_new (pos 8) file_type)

dir-IsStorable : IsStorable (inode_create (pos 7) dir_type 0)
unfolding inode_create
dir-IsStorable = record { mode = omega arith; uid = omega arith; gid = omega arith; plain = tt }

file-IsStorable : IsStorable (inode_create (pos 8) file_type 0)
unfolding inode_create bloom_build
file-IsStorable = record { mode = omega arith; uid = omega arith; gid = omega arith; plain = refl }

two-IsStorable : All (λ e. IsStorable e.1) (store.entries two.inodes)
unfolding insert count_in object_create inode_create without bytes_eq find
two-IsStorable = (file-IsStorable, (dir-IsStorable, tt))

two-few : length (store.entries two.inodes) < u64_mod
unfolding insert count_in object_create inode_create without bytes_eq find
two-few = omega arith

rdb_load-rdb_save_example :
    (other : Fs store) × (rdb_load store (rdb_save store two) 0 ≡ some other) × Same store two other
rdb_load-rdb_save_example = rdb_load-rdb_save store two two-IsCounted two-IsStorable two-few

-- The number of inodes and the first path.
abbrev beginning : List Item
beginning = unsigned 2 ∷ buffer (codes "/f") ∷ []

two-cut : rdb_save store two ≡ beginning ++ (unsigned 0 ∷ drop 3 (rdb_save store two))
unfolding insert count_in object_create inode_create without bytes_eq find rdb_save save_entries
    add64
two-cut = refl

rdb_load-cut_example : rdb_load store beginning 0 ≡ none
rdb_load-cut_example =
    rdb_load-cut store two two-IsCounted two-IsStorable two-few beginning (unsigned 0)
      (drop 3 (rdb_save store two)) two-cut
