-- ===== src/Rdb/Round.antt =====
-- FSRdbSave and FSRdbLoad: a filesystem that is saved is loaded again.
use redis_fs.Base.{
  ℕ, suc, ◌+◌, ◌%◌, ◌^◌, ◌<◌, ◌≡◌, refl, sym, ap, ◌∙◌, true, none, some, List, [], ◌∷◌, arith, ltb,
  if◌then◌else◌, length, All, NoNul, c_str, c_str_of_NoNul, bytes_eq, bytes_eq_iff, add64, u64_mod,
}
use redis_fs.Base.ByteStrings.{Bytes}
use redis_fs.Bloom.{bloom_build}
use redis_fs.Dict.{DictApi, find, or_else}
use redis_fs.Dict.Total.{total, sum}
use redis_fs.Inode.{Inode, Payload, file, dir, symlink}
use redis_fs.Fs.{Fs, object_create, lookup, count_in}
use redis_fs.Fs.Counts.{IsCounted, one_file, one_dir, one_symlink, bytes_of}
use redis_fs.Fs.Lookup.{inodes-count_in}
use redis_fs.Rdb.{
  Item, save_children, save_payload, type_number, save_entries, load_children, load_file, load_dir,
  load_symlink, load_payload, load_entry, rdb_save, load_into, load_loop, rdb_load,
}

-- Names and targets are C strings, and a filter is that of its content.
abbrev pub IsPlain : Payload → Type 0
IsPlain (file content bloom) = bloom ≡ bloom_build content
IsPlain (dir cs) = All NoNul cs
IsPlain (symlink target) = NoNul target

-- An inode as the structure in C can hold it.
pub record IsStorable (i : Inode) : Type 0 where
  pub mode : i.mode < 2 ^ 16
  pub uid : i.uid < 2 ^ 32
  pub gid : i.gid < 2 ^ 32
  pub plain : IsPlain i.payload

load_children-save_children :
    (cs : List Bytes) (io : List Item)
    → All NoNul cs
    → load_children (length cs) (save_children cs io) ≡ some (cs, io)
unfolding load_children save_children
load_children-save_children [] io h = refl
load_children-save_children (c ∷ cs) io h =
    let cut : c_str (c_str c) ≡ c = ap c_str (c_str_of_NoNul c h.0) ∙ c_str_of_NoNul c h.0 in
    rw (load_children-save_children cs io h.1, cut)

ltb-suc : (n : ℕ) → ltb 0 (suc n) ≡ true
ltb-suc n = ground arith

load_payload-save_payload :
    (x : Payload) (io : List Item)
    → IsPlain x
    → load_payload (type_number x % 2 ^ 8) (save_payload x io) ≡ some (x, io)
unfolding load_payload load_file load_dir load_symlink save_payload
load_payload-save_payload (file [] bloom) io h = rw (sym h)
load_payload-save_payload (file (c ∷ s) bloom) io h = rw (ltb-suc (length s), h)
load_payload-save_payload (dir cs) io h = rw (load_children-save_children cs io h)
load_payload-save_payload (symlink target) io h =
    rw (ap c_str (c_str_of_NoNul target h) ∙ c_str_of_NoNul target h)

-- One entry, as the loop of FSRdbLoad reads it back.
pub load_entry-save :
    (path : Bytes) (i : Inode) (l : List (Bytes × Inode))
    → IsStorable i
    → load_entry (save_entries ((path, i) ∷ l)) ≡ some ((path, i), save_entries l)
unfolding load_entry save_entries
load_entry-save path i l h =
    let mode : i.mode % 2 ^ 16 ≡ i.mode = omega (arith, h.mode) in
    let uid : i.uid % 2 ^ 32 ≡ i.uid = omega (arith, h.uid) in
    let gid : i.gid % 2 ^ 32 ≡ i.gid = omega (arith, h.gid) in
    rw (load_payload-save_payload i.payload (save_entries l) h.plain, mode, uid, gid)

module _ (D : DictApi Inode) where
  -- The filesystem after the loop over these entries.
  loaded : List (Bytes × Inode) → Fs D → Fs D
  loaded [] fs = fs
  loaded (entry ∷ l) fs = loaded l (load_into D fs entry)

  load_loop-save_entries :
      (l : List (Bytes × Inode)) (fs : Fs D)
      → All (λ e. IsStorable e.1) l
      → load_loop D (length l) (save_entries l) fs ≡ some (loaded l fs)
  unfolding load_loop loaded
  load_loop-save_entries [] fs h = refl
  load_loop-save_entries ((path, i) ∷ l) fs h =
      rw (load_loop, load_entry-save path i l h.0)
        (load_loop-save_entries l (load_into D fs (path, i)) h.1)

  lookup-load_into :
      (fs : Fs D) (p k : Bytes) (i : Inode)
      → lookup D (load_into D fs (p, i)) k
        ≡ (if bytes_eq p k then some (or_else (lookup D fs p) i) else lookup D fs k)
  unfolding lookup load_into
  lookup-load_into fs p k i = rw (inodes-count_in D fs i.payload) (D.get-set fs.inodes p k i)

  lookup-loaded :
      (l : List (Bytes × Inode)) (fs : Fs D) (k : Bytes)
      → lookup D (loaded l fs) k ≡ elim (lookup D fs k) [ none ↦ find k l | some i ↦ some i ]
  unfolding loaded find
  lookup-loaded [] fs k = ground arith
  lookup-loaded ((p, i) ∷ l) fs k = ground (
    arith,
    lookup-loaded l (load_into D fs (p, i)) k,
    lookup-load_into fs p k i,
    bytes_eq_iff p k,
  )

  -- The four counters, modulo 2^64.
  record Tracks (fs : Fs D) (f d s b : ℕ) : Type 0 where
    files : fs.file_count ≡ f % u64_mod
    dirs : fs.dir_count ≡ d % u64_mod
    symlinks : fs.symlink_count ≡ s % u64_mod
    bytes : fs.total_data_size ≡ b % u64_mod

  Tracks-load_into :
      (fs : Fs D) (f d s b : ℕ) (p : Bytes) (i : Inode)
      → Tracks fs f d s b
      → Tracks
          (load_into D fs (p, i))
          (f + one_file i)
          (d + one_dir i)
          (s + one_symlink i)
          (b + bytes_of i)
  unfolding load_into count_in add64
  Tracks-load_into fs f d s b p i t = record {
    files = ground (arith, t.files);
    dirs = ground (arith, t.dirs);
    symlinks = ground (arith, t.symlinks);
    bytes = ground (arith, t.bytes);
  }

  one_of_three : (i : Inode) → one_file i + one_dir i + one_symlink i ≡ 1
  one_of_three i = ground arith

  length-eq-total :
      (l : List (Bytes × Inode))
      → length l ≡ total one_file l + total one_dir l + total one_symlink l
  length-eq-total [] = omega arith
  length-eq-total ((p, i) ∷ l) = omega (arith, length-eq-total l, one_of_three i)

  Tracks-loaded :
      (l : List (Bytes × Inode)) (fs : Fs D) (f d s b : ℕ)
      → Tracks fs f d s b
      → Tracks
          (loaded l fs)
          (f + total one_file l)
          (d + total one_dir l)
          (s + total one_symlink l)
          (b + total bytes_of l)
  unfolding loaded
  Tracks-loaded [] fs f d s b t = record {
    files = omega (arith, t.files);
    dirs = omega (arith, t.dirs);
    symlinks = omega (arith, t.symlinks);
    bytes = omega (arith, t.bytes);
  }
  Tracks-loaded ((p, i) ∷ l) fs f d s b t =
      let rest =
        Tracks-loaded l (load_into D fs (p, i)) (f + one_file i) (d + one_dir i) (s + one_symlink i)
          (b + bytes_of i) (Tracks-load_into fs f d s b p i t) in
      record {
        files = omega (arith, rest.files);
        dirs = omega (arith, rest.dirs);
        symlinks = omega (arith, rest.symlinks);
        bytes = omega (arith, rest.bytes);
      }

  Tracks-object_create : Tracks (object_create D) 0 0 0 0
  unfolding object_create
  Tracks-object_create = record { files = refl; dirs = refl; symlinks = refl; bytes = refl }

  -- The same inodes at the same paths, and the same counters.
  pub record Same (fs other : Fs D) : Type 0 where
    pub inodes : (k : Bytes) → lookup D other k ≡ lookup D fs k
    pub files : other.file_count ≡ fs.file_count
    pub dirs : other.dir_count ≡ fs.dir_count
    pub symlinks : other.symlink_count ≡ fs.symlink_count
    pub bytes : other.total_data_size ≡ fs.total_data_size

  module _ (fs : Fs D) (counted : IsCounted D fs) where
    Same-loaded : Same fs (loaded (D.entries fs.inodes) (object_create D))
    unfolding sum lookup object_create
    Same-loaded =
        let l = D.entries fs.inodes in
        let t = Tracks-loaded l (object_create D) 0 0 0 0 Tracks-object_create in
        record {
          inodes = λ k.
              lookup-loaded l (object_create D) k ∙ rw (D.get-empty k) (D.find-entries fs.inodes k);
          files = omega (arith, t.files, counted.files);
          dirs = omega (arith, t.dirs, counted.dirs);
          symlinks = omega (arith, t.symlinks, counted.symlinks);
          bytes = omega (arith, t.bytes, counted.bytes, counted.in_range);
        }

    pub count-entries :
        length (D.entries fs.inodes) < u64_mod
        → add64 (add64 fs.file_count fs.dir_count) fs.symlink_count ≡ length (D.entries fs.inodes)
    unfolding add64 sum
    count-entries few = omega (
      arith,
      length-eq-total (D.entries fs.inodes),
      counted.files,
      counted.dirs,
      counted.symlinks,
      few,
    )

    -- A filesystem whose counters are right, with fewer than 2^64 inodes that are each as the
    -- structure in C holds it, is saved and loaded again: the same inodes at the same paths, and
    -- the same counters.
    pub rdb_load-rdb_save :
        All (λ e. IsStorable e.1) (D.entries fs.inodes)
        → length (D.entries fs.inodes) < u64_mod
        → (other : Fs D) × (rdb_load D (rdb_save D fs) 0 ≡ some other) × Same fs other
    unfolding rdb_load rdb_save
    rdb_load-rdb_save storable few =
        let l = D.entries fs.inodes in
        (
          loaded l (object_create D),
          rw (count-entries few) (load_loop-save_entries l (object_create D) storable),
          Same-loaded,
        )
