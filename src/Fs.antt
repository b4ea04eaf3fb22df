-- ===== src/Fs.antt =====
-- module/fs.h and module/fs.c: the object `fsObject`, its lookup helpers, symbolic links, and the
-- parents of a path. An inode in the dictionary is read as a value; a write through its pointer is
-- `write_inode`. Paths are C strings: callers cut them at the first NUL.
pub mod Counts
pub mod Lookup
pub mod Ensure
pub mod Parents
pub mod Resolve
pub mod Leaves
use redis_fs.Base.{
  ℕ, zero, suc, ℤ, Bool, true, false, ◌&&◌, Option, none, some, ◌==◌, ltb, if◌then◌else◌, length,
  byte_at, c_str, add64, sub64,
}
use redis_fs.Base.ByteStrings.{Bytes}
use redis_fs.Dict.{DictApi}
use redis_fs.Path.{slash, root, normalize, parent, base_name, join, is_root}
use redis_fs.Inode.{
  Inode, Payload, file, dir, symlink, dir_type, inode_create, dir_add_child, dir_remove_child,
  is_dir,
}

pub record FsObject (Dict : Type 0) : Type 0 where
  pub inodes : Dict
  pub file_count : ℕ
  pub dir_count : ℕ
  pub symlink_count : ℕ
  pub total_data_size : ℕ

-- FS_MAX_SYMLINK_DEPTH
abbrev pub max_symlink_depth : ℕ
max_symlink_depth = 40

-- FS_RESOLVE_OK with the path, FS_RESOLVE_ERR_SYMLINK_LOOP and FS_RESOLVE_ERR_PATH_DEPTH
pub data Resolved : Type 0 where
  resolved : Bytes → Resolved
  symlink_loop : Resolved
  path_depth : Resolved

module _ (D : DictApi Inode) where
  abbrev pub Fs : Type 0
  Fs = FsObject D.Dict

  -- fsObjectCreate
  unfoldable pub object_create : Fs
  object_create = record {
    inodes = D.empty;
    file_count = 0;
    dir_count = 0;
    symlink_count = 0;
    total_data_size = 0;
  }

  -- fsLookup
  unfoldable pub lookup : Fs → Bytes → Option Inode
  lookup fs path = D.get fs.inodes path

  -- A write through the pointer that the dictionary holds at `path`.
  unfoldable pub write_inode : Fs → Bytes → Inode → Fs
  write_inode fs path inode = record fs { inodes = D.replace fs.inodes path inode }

  -- The `switch` of fsInsert
  unfoldable pub count_in : Fs → Payload → Fs
  count_in fs (file _ _) = record fs { file_count = add64 fs.file_count 1 }
  count_in fs (dir _) = record fs { dir_count = add64 fs.dir_count 1 }
  count_in fs (symlink _) = record fs { symlink_count = add64 fs.symlink_count 1 }

  -- fsInsert
  unfoldable pub insert : Fs → Bytes → Inode → Fs
  insert fs path inode = count_in (record fs { inodes = D.set fs.inodes path inode }) inode.payload

  -- The `switch` of fsRemove
  unfoldable pub count_out : Fs → Payload → Fs
  count_out fs (file content _) = record fs {
    file_count = sub64 fs.file_count 1;
    total_data_size = sub64 fs.total_data_size (length content);
  }
  count_out fs (dir _) = record fs { dir_count = sub64 fs.dir_count 1 }
  count_out fs (symlink _) = record fs { symlink_count = sub64 fs.symlink_count 1 }

  -- fsRemove; the inode that it returns is only freed by its callers.
  unfoldable pub remove : Fs → Bytes → Fs
  remove fs path = elim (D.get fs.inodes path) [
    | none ↦ fs
    | some inode ↦ count_out (record fs { inodes = D.del fs.inodes path }) inode.payload
  ]

  -- The target of a link, seen from the link's path.
  unfoldable pub follow : Bytes → Bytes → Option Bytes
  follow current target =
      let t = c_str target in
      if ltb 0 (length t) && byte_at t 0 == slash then normalize t else join (parent current) t

  -- The loop of fsResolvePath; its fuel is the bound of the code's own loop.
  unfoldable pub resolve_loop : ℕ → Fs → Bytes → Resolved
  resolve_loop zero fs current = symlink_loop
  resolve_loop (suc f) fs current = elim (lookup fs current) [
    | none ↦ resolved current
    | some inode ↦ elim inode.payload [
      | symlink target ↦ elim (follow current target) [
        | none ↦ path_depth
        | some next ↦ resolve_loop f fs (c_str next)
      ]
      | _ ↦ resolved current
    ]
  ]

  -- fsResolvePath
  unfoldable pub resolve_path : Fs → Bytes → Resolved
  resolve_path fs path = resolve_loop max_symlink_depth fs (c_str path)

  -- `pnode = fsLookup(fs, fsParentPath(path)); if (pnode && it is a directory) f(pnode)`, where `f`
  -- writes to the parent's inode.
  unfoldable pub update_parent : Fs → Bytes → (Inode → Inode) → Fs
  update_parent fs path f = elim (lookup fs (parent path)) [
    | none ↦ fs
    | some pnode ↦ if is_dir pnode.payload then write_inode fs (parent path) (f pnode) else fs
  ]

  -- The basename of `path` is added to the children of its parent.
  unfoldable pub link_to_parent : Fs → Bytes → Fs
  link_to_parent fs path = update_parent fs path (λ d. dir_add_child d (base_name path))

  -- The same, and the parent's mtime is set.
  unfoldable pub link_to_parent_at : ℤ → Fs → Bytes → Fs
  link_to_parent_at now fs path =
      update_parent fs path (λ d. record (dir_add_child d (base_name path)) { mtime = now })

  -- The basename of `path` is removed from the children of its parent, whose mtime is set.
  unfoldable pub unlink_from_parent : ℤ → Fs → Bytes → Fs
  unlink_from_parent now fs path =
      update_parent fs path (λ d. record ((dir_remove_child d (base_name path)).0) { mtime = now })

  -- The end of fsEnsureParents: `par`, whose own parents exist, is a directory or is made one.
  unfoldable pub make_parent : ℤ → Fs → Bytes → Fs × Bool
  make_parent now fs par = elim (lookup fs par) [
    | some existing ↦ (fs, is_dir existing.payload)
    | none ↦ (link_to_parent (insert fs par (inode_create now dir_type 0)) par, true)
  ]

  abbrev pub is_some : Option Inode → Bool
  is_some none = false
  is_some (some _) = true

  -- fsEnsureParents, on fuel for the depth of its calls; true is the result 0, and `none` means that
  -- the fuel ran out.
  unfoldable pub ensure_loop : ℕ → ℤ → Fs → Bytes → Option (Fs × Bool)
  ensure_loop zero now fs path = none
  ensure_loop (suc f) now fs path =
      let par = parent path in
      let above = ensure_loop f now fs par in
      if is_root par then some (fs, is_some (lookup fs root)) else elim above [
        | none ↦ none
        | some (fs', made) ↦ some (if made then make_parent now fs' par else (fs', false))
      ]

  -- What the loop returns; there is fuel enough, so `none` does not come up.
  abbrev pub ended : Fs → Option (Fs × Bool) → Fs × Bool
  ended fs none = (fs, false)
  ended fs (some r) = r

  -- A parent is shorter than its path, so one round more than its length is enough fuel: the loop
  -- always ends.
  unfoldable pub ensure_parents : ℤ → Fs → Bytes → Fs × Bool
  ensure_parents now fs path = ended fs (ensure_loop (suc (length path)) now fs path)
