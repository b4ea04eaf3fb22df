-- ===== src/Fs/Counts.antt =====
-- The counters of an fsObject against the inodes of its dictionary, modulo 2^64.
use redis_fs.Base.{
  ℕ, ◌+◌, ◌%◌, ◌<◌, ◌≡◌, refl, true, none, some, arith, add64, sub64, u64_mod, Bool-cases,
  Option-cases, inl, inr,
}
use redis_fs.Base.ByteStrings.{Bytes}
use redis_fs.Dict.{DictApi}
use redis_fs.Dict.Total.{sum, sum-empty, sum-set, sum-del, sum-replace}
use redis_fs.Inode.{Inode, Payload, file, dir, symlink, type_of, is_dir, file_size}
use redis_fs.Path.{parent}
use redis_fs.Fs.{
  Fs, object_create, lookup, insert, count_in, remove, count_out, write_inode, update_parent,
}

dir_types : (a b : Payload) → is_dir a ≡ true → is_dir b ≡ true → type_of a ≡ type_of b
dir_types a b h k = ground arith

dir_sizes : (a b : Payload) → is_dir a ≡ true → is_dir b ≡ true → file_size a ≡ file_size b
dir_sizes a b h k = ground arith

-- What one inode adds to each counter.
abbrev pub one_file : Inode → ℕ
one_file i = elim i.payload [ file _ _ ↦ 1 | _ ↦ 0 ]

abbrev pub one_dir : Inode → ℕ
one_dir i = elim i.payload [ dir _ ↦ 1 | _ ↦ 0 ]

abbrev pub one_symlink : Inode → ℕ
one_symlink i = elim i.payload [ symlink _ ↦ 1 | _ ↦ 0 ]

abbrev pub bytes_of : Inode → ℕ
bytes_of i = file_size i.payload

-- The counters are right, but for `owed` bytes that total_data_size has still to gain and `surplus`
-- bytes that it has still to lose.
pub record IsCountedBut (D : DictApi Inode) (owed surplus : ℕ) (fs : Fs D) : Type 0 where
  pub files : fs.file_count ≡ sum D one_file fs.inodes % u64_mod
  pub dirs : fs.dir_count ≡ sum D one_dir fs.inodes % u64_mod
  pub symlinks : fs.symlink_count ≡ sum D one_symlink fs.inodes % u64_mod
  pub bytes : (fs.total_data_size + owed) % u64_mod ≡ (sum D bytes_of fs.inodes + surplus) % u64_mod
  pub in_range : fs.total_data_size < u64_mod

-- Every counter agrees with the inodes.
abbrev pub IsCounted : (D : DictApi Inode) → Fs D → Type 0
IsCounted D fs = IsCountedBut D 0 0 fs

module _ (D : DictApi Inode) where
  pub object_create-IsCounted : IsCounted D (object_create D)
  unfolding object_create
  object_create-IsCounted = omega (
    arith,
    sum-empty D one_file,
    sum-empty D one_dir,
    sum-empty D one_symlink,
    sum-empty D bytes_of,
  )

  -- A predicate on the sums of all four measures.
  abbrev Sums : ((Inode → ℕ) → Type 0) → Type 0
  Sums P = P one_file × P one_dir × P one_symlink × P bytes_of

  sums-set :
      (d : D.Dict) (p : Bytes) (i : Inode)
      → D.get d p ≡ none
      → Sums (λ f. sum D f (D.set d p i) ≡ f i + sum D f d)
  sums-set d p i h =
      (sum-set D _ d p i h, sum-set D _ d p i h, sum-set D _ d p i h, sum-set D _ d p i h)

  sums-del :
      (d : D.Dict) (p : Bytes) (i : Inode)
      → D.get d p ≡ some i
      → Sums (λ f. sum D f d ≡ f i + sum D f (D.del d p))
  sums-del d p i h =
      (sum-del D _ d p i h, sum-del D _ d p i h, sum-del D _ d p i h, sum-del D _ d p i h)

  sums-replace :
      (d : D.Dict) (p : Bytes) (i j : Inode)
      → D.get d p ≡ some j
      → Sums (λ f. sum D f (D.replace d p i) + f j ≡ f i + sum D f d)
  sums-replace d p i j h = (
    sum-replace D _ d p i j h,
    sum-replace D _ d p i j h,
    sum-replace D _ d p i j h,
    sum-replace D _ d p i j h,
  )

  -- fsInsert leaves the bytes of a file to be counted.
  count_in-counts :
      (fs : Fs D) (p : Bytes) (i : Inode) (q : Payload) {owed surplus : ℕ}
      → IsCountedBut D owed surplus fs
      → lookup D fs p ≡ none
      → i.payload ≡ q
      → IsCountedBut D
          (owed + bytes_of i)
          surplus
          (count_in D (record fs { inodes = D.set fs.inodes p i }) q)
  unfolding count_in lookup add64
  count_in-counts fs p i (file x y) c h e = ground (arith, sums-set fs.inodes p i h)
  count_in-counts fs p i (dir x) c h e = ground (arith, sums-set fs.inodes p i h)
  count_in-counts fs p i (symlink x) c h e = ground (arith, sums-set fs.inodes p i h)

  pub insert-counts :
      (fs : Fs D) (p : Bytes) (i : Inode) {owed surplus : ℕ}
      → IsCountedBut D owed surplus fs
      → lookup D fs p ≡ none
      → IsCountedBut D (owed + bytes_of i) surplus (insert D fs p i)
  unfolding insert
  insert-counts fs p i c h = count_in-counts fs p i i.payload c h refl

  count_out-counts :
      (fs : Fs D) (p : Bytes) (i : Inode) (q : Payload)
      → IsCounted D fs
      → lookup D fs p ≡ some i
      → i.payload ≡ q
      → IsCounted D (count_out D (record fs { inodes = D.del fs.inodes p }) q)
  unfolding count_out lookup sub64
  count_out-counts fs p i (file x y) c h e = ground (arith, sums-del fs.inodes p i h)
  count_out-counts fs p i (dir x) c h e = ground (arith, sums-del fs.inodes p i h)
  count_out-counts fs p i (symlink x) c h e = ground (arith, sums-del fs.inodes p i h)

  pub remove-IsCounted : (fs : Fs D) (p : Bytes) → IsCounted D fs → IsCounted D (remove D fs p)
  unfolding remove lookup
  remove-IsCounted fs p c = elim (Option-cases (D.get fs.inodes p)) [
    | inl e ↦ rw (e, remove) c
    | inr (i, e) ↦ rw (e, remove) (count_out-counts fs p i i.payload c e refl)
  ]

  -- A write through a pointer that keeps the type of the inode.
  write_inode-counts_payload :
      (fs : Fs D) (p : Bytes) (i j : Inode) (a b : Payload) {owed surplus : ℕ}
      → IsCountedBut D owed surplus fs
      → lookup D fs p ≡ some j
      → i.payload ≡ a
      → j.payload ≡ b
      → type_of a ≡ type_of b
      → IsCountedBut D (owed + bytes_of i) (surplus + bytes_of j) (write_inode D fs p i)
  unfolding write_inode lookup
  write_inode-counts_payload fs p i j (file x y) (file z w) c h e e' t =
      ground (arith, sums-replace fs.inodes p i j h)
  write_inode-counts_payload fs p i j (dir x) (dir z) c h e e' t =
      ground (arith, sums-replace fs.inodes p i j h)
  write_inode-counts_payload fs p i j (symlink x) (symlink z) c h e e' t =
      ground (arith, sums-replace fs.inodes p i j h)
  write_inode-counts_payload fs p i j _ _ c h e e' t = cc

  pub write_inode-counts :
      (fs : Fs D) (p : Bytes) (i j : Inode) {owed surplus : ℕ}
      → IsCountedBut D owed surplus fs
      → lookup D fs p ≡ some j
      → type_of i.payload ≡ type_of j.payload
      → IsCountedBut D (owed + bytes_of i) (surplus + bytes_of j) (write_inode D fs p i)
  write_inode-counts fs p i j c h t =
      write_inode-counts_payload fs p i j i.payload j.payload c h refl refl t

  -- A write that keeps the type and the size.
  pub write_inode-IsCounted :
      (fs : Fs D) (p : Bytes) (i j : Inode)
      → IsCounted D fs
      → lookup D fs p ≡ some j
      → type_of i.payload ≡ type_of j.payload
      → bytes_of i ≡ bytes_of j
      → IsCounted D (write_inode D fs p i)
  write_inode-IsCounted fs p i j c h t e =
      let k = write_inode-counts fs p i j c h t in
      record {
        files = k.files;
        dirs = k.dirs;
        symlinks = k.symlinks;
        bytes = omega arith;
        in_range = k.in_range;
      }

  pub add_bytes-counts :
      (fs : Fs D) (n : ℕ) {owed surplus : ℕ}
      → IsCountedBut D (owed + n) surplus fs
      → IsCountedBut D owed surplus (record fs { total_data_size = add64 fs.total_data_size n })
  unfolding add64
  add_bytes-counts fs n c = record {
    files = c.files;
    dirs = c.dirs;
    symlinks = c.symlinks;
    bytes = omega arith;
    in_range = omega arith;
  }

  pub sub_bytes-counts :
      (fs : Fs D) (n : ℕ) {owed surplus : ℕ}
      → IsCountedBut D owed (surplus + n) fs
      → IsCountedBut D owed surplus (record fs { total_data_size = sub64 fs.total_data_size n })
  unfolding sub64
  sub_bytes-counts fs n c = record {
    files = c.files;
    dirs = c.dirs;
    symlinks = c.symlinks;
    bytes = omega arith;
    in_range = omega arith;
  }

  -- The parent is written only where it is a directory.
  pub update_parent-IsCounted :
      (fs : Fs D) (p : Bytes) (f : Inode → Inode)
      → ((d : Inode) → is_dir d.payload ≡ true → is_dir (f d).payload ≡ true)
      → IsCounted D fs
      → IsCounted D (update_parent D fs p f)
  unfolding update_parent
  update_parent-IsCounted fs p f k c = elim (Option-cases (lookup D fs (parent p))) [
    | inl e ↦ rw (e, update_parent) c
    | inr (d, e) ↦ elim (Bool-cases (is_dir d.payload)) [
      | inl q ↦
          rw (e, update_parent, q)
            (write_inode-IsCounted fs (parent p) (f d) d c e
              (dir_types (f d).payload d.payload (k d q) q)
              (dir_sizes (f d).payload d.payload (k d q) q))
      | inr q ↦ rw (e, update_parent, q) c
    ]
  ]

  -- An inode without data is inserted with nothing left to count.
  pub insert-IsCounted :
      (fs : Fs D) (p : Bytes) (i : Inode)
      → IsCounted D fs
      → lookup D fs p ≡ none
      → bytes_of i ≡ 0
      → IsCounted D (insert D fs p i)
  insert-IsCounted fs p i c h e =
      let k = insert-counts fs p i c h in
      record {
        files = k.files;
        dirs = k.dirs;
        symlinks = k.symlinks;
        bytes = omega arith;
        in_range = k.in_range;
      }

  -- What is owed and what is surplus may change together.
  pub rebalance :
      (fs : Fs D) {owed surplus : ℕ} (owed' surplus' : ℕ)
      → IsCountedBut D owed surplus fs
      → owed + surplus' ≡ owed' + surplus
      → IsCountedBut D owed' surplus' fs
  rebalance fs owed' surplus' c e = record {
    files = c.files;
    dirs = c.dirs;
    symlinks = c.symlinks;
    bytes = omega arith;
    in_range = c.in_range;
  }
