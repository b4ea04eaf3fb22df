-- ===== src/Rdb.antt =====
-- module/fs.c, RDB persistence: FSRdbSave and FSRdbLoad. A RedisModuleIO is the list of the values
-- saved to it; loading takes them from the front, and a value that is missing or of another kind is
-- an I/O error.
pub mod Round
pub mod Cut
use redis_fs.Base.{
  ℕ, zero, suc, ℤ, ◌%◌, ◌^◌, Option, none, some, List, [], ◌∷◌, ltb, if◌then◌else◌, length, c_str,
  add64,
}
use redis_fs.Base.ByteStrings.{Bytes}
use redis_fs.Dict.{DictApi}
use redis_fs.Bloom.{bloom_build}
use redis_fs.Inode.{Inode, Payload, file, dir, symlink, file_size}
use redis_fs.Fs.{Fs, object_create, count_in}

pub data Item : Type 0 where
  unsigned : ℕ → Item
  signed : ℤ → Item
  buffer : Bytes → Item

infixl 5 ◌>>=◌
abbrev pub ◌>>=◌ : {A B : Type 0} → Option A → (A → Option B) → Option B
none >>= f = none
some a >>= f = f a

-- RedisModule_LoadUnsigned, RedisModule_LoadSigned and RedisModule_LoadStringBuffer
abbrev pub load_unsigned : List Item → Option (ℕ × List Item)
load_unsigned (unsigned n ∷ io) = some (n, io)
load_unsigned _ = none

abbrev pub load_signed : List Item → Option (ℤ × List Item)
load_signed (signed n ∷ io) = some (n, io)
load_signed _ = none

abbrev pub load_buffer : List Item → Option (Bytes × List Item)
load_buffer (buffer b ∷ io) = some (b, io)
load_buffer _ = none

-- The `switch` of FSRdbSave, before the items that follow.
unfoldable pub save_children : List Bytes → List Item → List Item
save_children [] io = io
save_children (c ∷ cs) io = buffer (c_str c) ∷ save_children cs io

unfoldable pub save_payload : Payload → List Item → List Item
unfolding save_children
save_payload (file content _) io =
    unsigned (length content) ∷ (if ltb 0 (length content) then buffer content ∷ io else io)
save_payload (dir cs) io = unsigned (length cs) ∷ save_children cs io
save_payload (symlink target) io = buffer (c_str target) ∷ io

-- FS_INODE_FILE, FS_INODE_DIR and FS_INODE_SYMLINK
abbrev pub type_number : Payload → ℕ
type_number (file _ _) = 0
type_number (dir _) = 1
type_number (symlink _) = 2

unfoldable pub save_entries : List (Bytes × Inode) → List Item
unfolding save_payload
save_entries [] = []
save_entries ((path, inode) ∷ l) =
    buffer path
    ∷ unsigned (type_number inode.payload)
    ∷ unsigned inode.mode
    ∷ unsigned inode.uid
    ∷ unsigned inode.gid
    ∷ signed inode.ctime
    ∷ signed inode.mtime
    ∷ signed inode.atime
    ∷ save_payload inode.payload (save_entries l)

unfoldable pub load_children : ℕ → List Item → Option (List Bytes × List Item)
load_children zero io = some ([], io)
load_children (suc n) io = do
  (c, io') ← load_buffer io
  (cs, io'') ← load_children n io'
  some (c_str c ∷ cs, io'')

unfoldable pub load_file : List Item → Option (Payload × List Item)
unfolding bloom_build
load_file io = do
  (size, io') ← load_unsigned io
  (content, io'') ← (if ltb 0 size then load_buffer io' else some ([], io'))
  some (file content (bloom_build content), io'')

unfoldable pub load_dir : List Item → Option (Payload × List Item)
unfolding load_children
load_dir io = do (n, io') ← load_unsigned io; (cs, io'') ← load_children n io'; some (dir cs, io'')

unfoldable pub load_symlink : List Item → Option (Payload × List Item)
load_symlink io = do (target, io') ← load_buffer io; some (symlink (c_str target), io')

-- The `switch` of FSRdbLoad; another type is an error.
unfoldable pub load_payload : ℕ → List Item → Option (Payload × List Item)
unfolding load_file load_dir load_symlink
load_payload zero io = load_file io
load_payload (suc zero) io = load_dir io
load_payload (suc (suc zero)) io = load_symlink io
load_payload _ io = none

-- One round of the loop: a path and its inode. The fields are cut to the width of their types.
unfoldable pub load_entry : List Item → Option ((Bytes × Inode) × List Item)
unfolding load_payload
load_entry io = do
  (path, io1) ← load_buffer io
  (type, io2) ← load_unsigned io1
  (mode, io3) ← load_unsigned io2
  (uid, io4) ← load_unsigned io3
  (gid, io5) ← load_unsigned io4
  (ctime, io6) ← load_signed io5
  (mtime, io7) ← load_signed io6
  (atime, io8) ← load_signed io7
  (payload, io9) ← load_payload (type % 2 ^ 8) io8
  some (
    (
      path,
      record {
        mode = mode % 2 ^ 16;
        uid = uid % 2 ^ 32;
        gid = gid % 2 ^ 32;
        ctime = ctime;
        mtime = mtime;
        atime = atime;
        payload = payload;
      },
    ),
    io9,
  )

module _ (D : DictApi Inode) where
  -- FSRdbSave
  unfoldable pub rdb_save : Fs D → List Item
  unfolding save_entries add64
  rdb_save fs =
      unsigned (add64 (add64 fs.file_count fs.dir_count) fs.symlink_count)
      ∷ save_entries (D.entries fs.inodes)

  -- The counters and the dictionary after one round.
  unfoldable pub load_into : Fs D → Bytes × Inode → Fs D
  unfolding count_in add64
  load_into fs (path, inode) =
      let fs' = count_in D fs inode.payload in
      record fs' {
        total_data_size = add64 fs'.total_data_size (file_size inode.payload);
        inodes = D.set fs'.inodes path inode;
      }

  unfoldable pub load_loop : ℕ → List Item → Fs D → Option (Fs D)
  unfolding load_entry load_into
  load_loop zero io fs = some fs
  load_loop (suc n) io fs = elim (load_entry io) [
    | none ↦ none
    | some (entry, io') ↦ load_loop n io' (load_into fs entry)
  ]

  -- FSRdbLoad; `none` is NULL.
  unfoldable pub rdb_load : List Item → ℕ → Option (Fs D)
  unfolding load_loop object_create
  rdb_load io zero = do (count, io') ← load_unsigned io; load_loop count io' (object_create D)
  rdb_load io (suc n) = none
