-- ===== src/Inode.antt =====
-- module/fs.h, and module/fs.c: inodes, the helpers on directories and on file data. The union
-- `payload`, with the tag `type`, is a data type; memory management has no counterpart.
pub mod Children
use redis_fs.Base.{
  ℕ, ℤ, Bool, true, false, List, [], ◌∷◌, ◌++◌, ◌==◌, if◌then◌else◌, length, Bytes, c_str, bytes_eq,
}
use redis_fs.Bloom.{bloom_build, empty_bloom}

-- FS_INODE_FILE, FS_INODE_DIR, FS_INODE_SYMLINK
pub data InodeType : Type 0 where
  file_type dir_type symlink_type : InodeType

pub data Payload : Type 0 where
  -- data, of length `size`, and bloom
  file : Bytes → Bytes → Payload
  -- the names in `children`, `count` of them
  dir : List Bytes → Payload
  symlink : Bytes → Payload

pub record Inode : Type 0 where
  pub mode : ℕ
  pub uid : ℕ
  pub gid : ℕ
  pub ctime : ℤ
  pub mtime : ℤ
  pub atime : ℤ
  pub payload : Payload

abbrev pub type_of : Payload → InodeType
type_of (file _ _) = file_type
type_of (dir _) = dir_type
type_of (symlink _) = symlink_type

abbrev pub is_file : Payload → Bool
is_file (file _ _) = true
is_file _ = false

abbrev pub is_dir : Payload → Bool
is_dir (dir _) = true
is_dir _ = false

abbrev pub is_symlink : Payload → Bool
is_symlink (symlink _) = true
is_symlink _ = false

-- payload.file.size of a file, and 0 of anything else
abbrev pub file_size : Payload → ℕ
file_size (file data_bytes _) = length data_bytes
file_size _ = 0

-- FS_DEFAULT_FILE_MODE, FS_DEFAULT_DIR_MODE and FS_DEFAULT_SYMLINK_MODE
unfoldable pub default_mode : InodeType → ℕ
default_mode file_type = 0o644
default_mode dir_type = 0o755
default_mode symlink_type = 0o777

-- The payload after `memset`: no data, no children, no target.
unfoldable pub zero_payload : InodeType → Payload
unfolding empty_bloom
zero_payload file_type = file [] empty_bloom
zero_payload dir_type = dir []
zero_payload symlink_type = symlink []

-- fsInodeCreate, at the time `now`.
unfoldable pub inode_create : ℤ → InodeType → ℕ → Inode
unfolding default_mode zero_payload
inode_create now type mode = record {
  mode = if mode == 0 then default_mode type else mode;
  uid = 0;
  gid = 0;
  ctime = now;
  mtime = now;
  atime = now;
  payload = zero_payload type;
}

-- The search that the three helpers on directories share.
unfoldable pub has_name : List Bytes → Bytes → Bool
has_name [] name = false
has_name (c ∷ cs) name = if bytes_eq c name then true else has_name cs name

unfoldable pub remove_name : List Bytes → Bytes → List Bytes
remove_name [] name = []
remove_name (c ∷ cs) name = if bytes_eq c name then cs else c ∷ remove_name cs name

unfoldable pub add_name : List Bytes → Bytes → List Bytes
unfolding has_name
add_name cs name = if has_name cs name then cs else cs ++ (c_str name ∷ [])

-- fsDirAddChild
unfoldable pub dir_add_child : Inode → Bytes → Inode
unfolding add_name
dir_add_child d name = elim d.payload [
  | dir cs ↦ record d { payload = dir (add_name cs name) }
  | _ ↦ d
]

-- fsDirRemoveChild: the inode, and whether the name was found.
unfoldable pub dir_remove_child : Inode → Bytes → Inode × Bool
unfolding has_name remove_name
dir_remove_child d name = elim d.payload [
  | dir cs ↦ (record d { payload = dir (remove_name cs name) }, has_name cs name)
  | _ ↦ (d, false)
]

-- fsDirHasChild
unfoldable pub dir_has_child : Inode → Bytes → Bool
unfolding has_name
dir_has_child d name = elim d.payload [ dir cs ↦ has_name cs name | _ ↦ false ]

-- fsFileSetData
unfoldable pub file_set_data : Inode → Bytes → Inode
unfolding bloom_build
file_set_data f content = elim f.payload [
  | file old bloom ↦ record f { payload = file content (bloom_build content) }
  | _ ↦ f
]

-- fsFileAppendData
unfoldable pub file_append_data : Inode → Bytes → Inode
unfolding bloom_build
file_append_data f content = elim f.payload [
  | file old bloom ↦
      if length content == 0
      then f
      else record f { payload = file (old ++ content) (bloom_build (old ++ content)) }
  | _ ↦ f
]
