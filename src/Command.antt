-- ===== src/Command.antt =====
-- module/fs.c: what the FS.* command handlers share. A handler takes the value under its key, the
-- time, and the arguments behind the key; it returns the value, the reply, and whether the command
-- is replicated.
pub mod Table
pub mod Tree
pub mod Write
pub mod Remove
pub mod Read
pub mod Edit
pub mod Meta
pub mod Link
pub mod Walk
pub mod Move
pub mod Keeps
pub mod Counts
pub mod Storable
pub mod Contents
pub mod Refine
use redis_fs.Base.{
  ℕ, ℤ, Bool, true, false, Option, none, some, List, if◌then◌else◌, c_str, bytes_eq, map, String,
}
use redis_fs.Base.Int.{pos}
use redis_fs.Base.ByteStrings.{Bytes, codes}
use redis_fs.Dict.{DictApi}
use redis_fs.Glob.{to_lower}
use redis_fs.Inode.{Inode, Payload, file, dir_type, inode_create}
use redis_fs.Path.{root, normalize}
use redis_fs.Fs.{
  Fs, Resolved, resolved, symlink_loop, path_depth, object_create, insert, resolve_path, lookup,
  ensure_parents,
}

-- One call of RedisModule_ReplyWithArray, of ReplyWithCString or ReplyWithStringBuffer, or of
-- ReplyWithLongLong, in a reply of several parts.
pub data Piece : Type 0 where
  array : ℕ → Piece
  text : Bytes → Piece
  number : ℤ → Piece

-- `crash` is `strlen(NULL)`, where a handler does not check the result of fsNormalizePath.
pub data Reply : Type 0 where
  wrong_arity : Reply
  error : String → Reply
  null : Reply
  simple : String → Reply
  integer : ℤ → Reply
  bulk : Bytes → Reply
  pairs : List (String × ℤ) → Reply
  stream : List Piece → Reply
  crash : Reply

-- The value under a key: REDISMODULE_KEYTYPE_EMPTY, a value of another type, or a filesystem.
pub data Slot (F : Type 0) : Type 0 where
  empty_key : Slot F
  other_type : Slot F
  holds : F → Slot F

pub record Outcome (F : Type 0) : Type 0 where
  pub slot : Slot F
  pub reply : Reply
  pub replicated : Bool

-- RedisModule_StringToLongLong, which Redis implements: the number that a text spells, if any.
pub record RedisApi : Type 0 where
  pub string_to_long_long : Bytes → Option ℤ

-- `!strcasecmp(opt, name)`, for a name in lower case
unfoldable pub is_option : Bytes → String → Bool
is_option opt name = bytes_eq (map to_lower (c_str opt)) (codes name)

module _ {F : Type 0} where
  -- A reply that changes nothing.
  abbrev pub answer : F → Reply → Outcome F
  answer fs r = record { slot = holds fs; reply = r; replicated = false }

  -- A reply to a command that has changed the filesystem.
  abbrev pub changed : F → Reply → Outcome F
  changed fs r = record { slot = holds fs; reply = r; replicated = true }

  abbrev pub refuse : Slot F → Reply → Outcome F
  refuse slot r = record { slot = slot; reply = r; replicated = false }

abbrev pub wrong_type : Reply
wrong_type = error "WRONGTYPE Operation against a key holding the wrong kind of value"

abbrev pub too_many_links : Reply
too_many_links = error "ERR too many levels of symbolic links"

module _ (D : DictApi Inode) where
  -- The filesystem that fsGetObject makes for an empty key.
  unfoldable pub fresh : ℤ → Fs D
  fresh now = insert D (object_create D) root (inode_create now dir_type 0)

  -- fsGetObject for reading and writing, and the rest of the handler.
  unfoldable pub open_write : ℤ → Slot (Fs D) → (Fs D → Outcome (Fs D)) → Outcome (Fs D)
  open_write now empty_key k = k (fresh now)
  open_write now other_type k = refuse other_type wrong_type
  open_write now (holds fs) k = k fs

  -- fsGetObject for reading.
  unfoldable pub open_read : Slot (Fs D) → (Fs D → Outcome (Fs D)) → Outcome (Fs D)
  open_read empty_key k = refuse empty_key (error "ERR no such filesystem key")
  open_read other_type k = refuse other_type wrong_type
  open_read (holds fs) k = k fs

  -- fsNormalizeOrReply, cut at the first NUL as `strlen` cuts it, and the rest of the handler.
  unfoldable pub with_path : Fs D → Bytes → (Bytes → Outcome (Fs D)) → Outcome (Fs D)
  with_path fs raw k = elim (normalize raw) [
    | none ↦ answer fs (error "ERR path depth exceeds limit")
    | some path ↦ k (c_str path)
  ]

  -- fsNormalizePath with no check of its result.
  unfoldable pub with_path_unchecked : Fs D → Bytes → (Bytes → Outcome (Fs D)) → Outcome (Fs D)
  with_path_unchecked fs raw k = elim (normalize raw) [
    | none ↦ answer fs crash
    | some path ↦ k (c_str path)
  ]

  -- The inode at a path, an error if there is none.
  unfoldable pub with_node : Fs D → Bytes → String → (Inode → Outcome (Fs D)) → Outcome (Fs D)
  with_node fs path message k = elim (lookup D fs path) [
    | none ↦ answer fs (error message)
    | some inode ↦ k inode
  ]

  -- fsResolvePath with a message for each of its errors.
  unfoldable pub with_target : Fs D → Bytes → (Bytes → Outcome (Fs D)) → Outcome (Fs D)
  with_target fs path k = elim (resolve_path D fs path) [
    | resolved target ↦ k (c_str target)
    | symlink_loop ↦ answer fs too_many_links
    | path_depth ↦ answer fs (error "ERR path depth exceeds limit")
  ]

  -- fsResolvePath where both of its errors have one message.
  unfoldable pub with_resolved : Fs D → Bytes → (Bytes → Outcome (Fs D)) → Outcome (Fs D)
  with_resolved fs path k = elim (resolve_path D fs path) [
    | resolved target ↦ k (c_str target)
    | symlink_loop ↦ answer fs too_many_links
    | path_depth ↦ answer fs too_many_links
  ]

  -- The file at a path: null if there is nothing, an error if it is no file.
  unfoldable pub with_file : Fs D → Bytes → (Inode → Bytes → Outcome (Fs D)) → Outcome (Fs D)
  with_file fs path k = elim (lookup D fs path) [
    | none ↦ answer fs null
    | some inode ↦ elim inode.payload [
      | file content _ ↦ k inode content
      | _ ↦ answer fs (error "ERR not a file")
    ]
  ]

  -- fsEnsureParents, its error, and the rest of the handler.
  unfoldable pub with_parents : ℤ → Fs D → Bytes → String → (Fs D → Outcome (Fs D)) → Outcome (Fs D)
  with_parents now fs path message k =
      let (fs', made) = ensure_parents D now fs path in
      if made then k fs' else answer fs' (error message)

  -- What is at the path: nothing, a file, or something that is refused.
  unfoldable pub new_or_file :
      Fs D → Bytes → String → Outcome (Fs D) → (Inode → Bytes → Outcome (Fs D)) → Outcome (Fs D)
  new_or_file fs path message new k = elim (lookup D fs path) [
    | none ↦ new
    | some existing ↦ elim existing.payload [
      | file content _ ↦ k existing content
      | _ ↦ answer fs (error message)
    ]
  ]
