-- ===== src/Command/Meta.antt =====
-- module/fs.c: the commands on one inode's metadata: LS, STAT, TEST, CHMOD, CHOWN, READLINK and UTIMENS.
pub mod Reads
use redis_fs.Base.{
  ℕ, zero, suc, ◌^◌, ℤ, Bool, true, false, Option, none, some, List, [], ◌∷◌, ◌++◌, if◌then◌else◌,
  ltb, length, c_str, String,
}
use redis_fs.Base.Int.{pos, negsuc}
use redis_fs.Base.ByteStrings.{Bytes, codes}
use redis_fs.Dict.{DictApi}
use redis_fs.Inode.{Inode, Payload, file, dir, symlink, file_size}
use redis_fs.Path.{root, join}
use redis_fs.Mode.{parse_mode, print_mode}
use redis_fs.Fs.{Fs, lookup, write_inode}
use redis_fs.Command.{
  Reply, Piece, array, text, number, stream, wrong_arity, error, null, simple, integer, bulk, Slot,
  Outcome, answer, changed, refuse, RedisApi, is_option, open_read, open_write, with_path,
  with_node, with_target,
}

-- `typestr`
abbrev pub type_name : Payload → String
type_name (file _ _) = "file"
type_name (dir _) = "dir"
type_name (symlink _) = "symlink"

-- `size` in the reply of STAT: the bytes of a file, or the number of a directory's children.
abbrev pub stat_size : Payload → ℕ
stat_size (file content _) = length content
stat_size (dir cs) = length cs
stat_size (symlink _) = 0

-- An entry of LS LONG after its name.
unfoldable pub long_entry : Option Inode → List Piece
long_entry none =
    text (codes "unknown") ∷ text (codes "0000") ∷ number (pos 0) ∷ number (pos 0) ∷ []
long_entry (some child) =
    text (codes (type_name child.payload))
    ∷ text (print_mode child.mode)
    ∷ number (pos (file_size child.payload))
    ∷ number child.mtime
    ∷ []

-- The names of LS.
unfoldable pub short_list : List Bytes → List Piece
short_list [] = []
short_list (c ∷ cs) = text (c_str c) ∷ short_list cs

-- The fields of STAT.
unfoldable pub stat_fields : Inode → List Piece
stat_fields inode =
    array 16
    ∷ text (codes "type")
    ∷ text (codes (type_name inode.payload))
    ∷ text (codes "mode")
    ∷ text (print_mode inode.mode)
    ∷ text (codes "uid")
    ∷ number (pos inode.uid)
    ∷ text (codes "gid")
    ∷ number (pos inode.gid)
    ∷ text (codes "size")
    ∷ number (pos (stat_size inode.payload))
    ∷ text (codes "ctime")
    ∷ number inode.ctime
    ∷ text (codes "mtime")
    ∷ number inode.mtime
    ∷ text (codes "atime")
    ∷ number inode.atime
    ∷ []

-- `if (atime_ms != -1) inode->atime = atime_ms`
abbrev pub unless_omitted : ℤ → ℤ → ℤ
unless_omitted (negsuc zero) old = old
unless_omitted new old = new

module _ (D : DictApi Inode) where
  -- The inode of a child, if its path is not too deep and it is there.
  unfoldable pub child_inode : Fs D → Bytes → Bytes → Option Inode
  child_inode fs path name = elim (join path (c_str name)) [
    | none ↦ none
    | some child ↦ lookup D fs (c_str child)
  ]

  -- The entries of LS LONG.
  unfoldable pub long_list : Fs D → Bytes → List Bytes → List Piece
  long_list fs path [] = []
  long_list fs path (c ∷ cs) =
      (array 5 ∷ text (c_str c) ∷ long_entry (child_inode fs path c)) ++ long_list fs path cs

  -- LS on what the path resolves to. The atime is set before the entries are read.
  unfoldable pub ls_children : Bool → Fs D → Bytes → List Bytes → Reply
  ls_children long fs path cs =
      stream (array (length cs) ∷ (if long then long_list fs path cs else short_list cs))

  unfoldable pub ls_node : ℤ → Bool → Fs D → Bytes → Inode → Outcome (Fs D)
  ls_node now long fs path inode = elim inode.payload [
    | dir cs ↦
        let fs' = write_inode D fs path (record inode { atime = now }) in
        answer fs' (ls_children long fs' path cs)
    | _ ↦ answer fs (error "ERR not a directory")
  ]

  unfoldable pub ls_at : ℤ → Bool → Fs D → Bytes → Outcome (Fs D)
  ls_at now long fs path =
      with_target D fs path
        (λ target. with_node D fs target "ERR no such directory" (ls_node now long fs target))

  unfoldable pub ls_opened : ℤ → Bool → Slot (Fs D) → Bytes → Outcome (Fs D)
  ls_opened now long slot raw = open_read D slot (λ fs. with_path D fs raw (ls_at now long fs))

  -- LS_RedisCommand
  unfoldable pub ls : ℤ → Slot (Fs D) → List Bytes → Outcome (Fs D)
  ls now slot [] = ls_opened now false slot root
  ls now slot (raw ∷ []) =
      if is_option raw "long" then ls_opened now true slot root else ls_opened now false slot raw
  ls now slot (raw ∷ opt ∷ []) =
      if is_option opt "long"
      then ls_opened now true slot raw
      else refuse slot (error "ERR syntax error — expected LONG")
  ls now slot _ = refuse slot wrong_arity

  -- STAT, TEST and READLINK look the path up as it is.
  unfoldable pub stat_at : Fs D → Bytes → Outcome (Fs D)
  stat_at fs path = elim (lookup D fs path) [
    | none ↦ answer fs null
    | some inode ↦ answer fs (stream (stat_fields inode))
  ]

  -- STAT_RedisCommand
  unfoldable pub stat : Slot (Fs D) → List Bytes → Outcome (Fs D)
  stat slot (raw ∷ []) = open_read D slot (λ fs. with_path D fs raw (stat_at fs))
  stat slot _ = refuse slot wrong_arity

  unfoldable pub test_at : Fs D → Bytes → Outcome (Fs D)
  test_at fs path = elim (lookup D fs path) [
    | none ↦ answer fs (integer (pos 0))
    | some _ ↦ answer fs (integer (pos 1))
  ]

  -- TEST_RedisCommand
  unfoldable pub test : Slot (Fs D) → List Bytes → Outcome (Fs D)
  test slot (raw ∷ []) = open_read D slot (λ fs. with_path D fs raw (test_at fs))
  test slot _ = refuse slot wrong_arity

  unfoldable pub readlink_at : Fs D → Bytes → Outcome (Fs D)
  readlink_at fs path = elim (lookup D fs path) [
    | none ↦ answer fs null
    | some inode ↦ elim inode.payload [
      | symlink target ↦ answer fs (bulk (c_str target))
      | _ ↦ answer fs (error "ERR not a symbolic link")
    ]
  ]

  -- READLINK_RedisCommand
  unfoldable pub readlink : Slot (Fs D) → List Bytes → Outcome (Fs D)
  readlink slot (raw ∷ []) = open_read D slot (λ fs. with_path D fs raw (readlink_at fs))
  readlink slot _ = refuse slot wrong_arity

  -- CHMOD on the inode at its path.
  unfoldable pub chmod_node : Bytes → Fs D → Bytes → Inode → Outcome (Fs D)
  chmod_node modestr fs path inode = elim (parse_mode modestr) [
    | none ↦ answer fs (error "ERR mode must be an octal value between 0000 and 07777")
    | some mode ↦ changed (write_inode D fs path (record inode { mode = mode })) (simple "OK")
  ]

  unfoldable pub chmod_at : Bytes → Fs D → Bytes → Outcome (Fs D)
  chmod_at modestr fs path =
      with_node D fs path "ERR no such file or directory" (chmod_node modestr fs path)

  -- CHMOD_RedisCommand
  unfoldable pub chmod : ℤ → Slot (Fs D) → List Bytes → Outcome (Fs D)
  chmod now slot (raw ∷ modestr ∷ []) =
      open_write D now slot (λ fs. with_path D fs raw (chmod_at modestr fs))
  chmod now slot _ = refuse slot wrong_arity

  module _ (api : RedisApi) where
    open api use {string_to_long_long}

    -- The owner is written before the group is parsed; `none` is a group that was not given.
    unfoldable pub chown_group : Option Bytes → Fs D → Bytes → Inode → Outcome (Fs D)
    chown_group none fs path inode = changed fs (simple "OK")
    chown_group (some gid) fs path inode = elim (string_to_long_long gid) [
      | none ↦ answer fs (error "ERR gid must be an integer")
      | some (negsuc _) ↦ answer fs (error "ERR gid out of range")
      | some (pos g) ↦
          if ltb g (2 ^ 32)
          then changed (write_inode D fs path (record inode { gid = g })) (simple "OK")
          else answer fs (error "ERR gid out of range")
    ]

    unfoldable pub chown_node : Bytes → Option Bytes → Fs D → Bytes → Inode → Outcome (Fs D)
    chown_node uid gid fs path inode = elim (string_to_long_long uid) [
      | none ↦ answer fs (error "ERR uid must be an integer")
      | some (negsuc _) ↦ answer fs (error "ERR uid out of range")
      | some (pos u) ↦
          if ltb u (2 ^ 32)
          then (let owned = record inode { uid = u } in
              chown_group gid (write_inode D fs path owned) path owned)
          else answer fs (error "ERR uid out of range")
    ]

    unfoldable pub chown_at : Bytes → Option Bytes → Fs D → Bytes → Outcome (Fs D)
    chown_at uid gid fs path =
        with_node D fs path "ERR no such file or directory" (chown_node uid gid fs path)

    -- CHOWN_RedisCommand
    unfoldable pub chown : ℤ → Slot (Fs D) → List Bytes → Outcome (Fs D)
    chown now slot (raw ∷ uid ∷ []) =
        open_write D now slot (λ fs. with_path D fs raw (chown_at uid none fs))
    chown now slot (raw ∷ uid ∷ gid ∷ []) =
        open_write D now slot (λ fs. with_path D fs raw (chown_at uid (some gid) fs))
    chown now slot _ = refuse slot wrong_arity

    unfoldable pub utimens_node : Bytes → Bytes → Fs D → Bytes → Inode → Outcome (Fs D)
    utimens_node atime_ms mtime_ms fs path inode = elim (string_to_long_long atime_ms) [
      | none ↦ answer fs (error "ERR atime_ms must be an integer")
      | some a ↦ elim (string_to_long_long mtime_ms) [
        | none ↦ answer fs (error "ERR mtime_ms must be an integer")
        | some m ↦
            changed
              (write_inode D fs path (record inode {
                atime = unless_omitted a inode.atime;
                mtime = unless_omitted m inode.mtime;
              }))
              (simple "OK")
      ]
    ]

    unfoldable pub utimens_at : Bytes → Bytes → Fs D → Bytes → Outcome (Fs D)
    utimens_at atime_ms mtime_ms fs path =
        with_node D fs path "ERR no such file or directory" (utimens_node atime_ms mtime_ms fs path)

    -- UTIMENS_RedisCommand
    unfoldable pub utimens : ℤ → Slot (Fs D) → List Bytes → Outcome (Fs D)
    utimens now slot (raw ∷ atime_ms ∷ mtime_ms ∷ []) =
        open_write D now slot (λ fs. with_path D fs raw (utimens_at atime_ms mtime_ms fs))
    utimens now slot _ = refuse slot wrong_arity
