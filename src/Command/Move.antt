-- ===== src/Command/Move.antt =====
-- module/fs.c: CP_RedisCommand with fsCopyRecursive, and MV_RedisCommand with fsPathHasPrefix.
pub mod Renames
pub mod Storable
use redis_fs.Base.{
  ℕ, zero, suc, ◌+◌, ℤ, Bool, true, false, not, ◌&&◌, ◌||◌, Option, none, some, List, [], ◌∷◌, ◌++◌,
  if◌then◌else◌, ltb, ◌==◌, length, drop, byte_at, c_str, add64, String,
}
use redis_fs.Base.ByteStrings.{Bytes}
use redis_fs.Dict.{DictApi, or_else}
use redis_fs.Inode.{
  Inode, Payload, file, dir, symlink, file_type, dir_type, symlink_type, type_of, inode_create,
  file_set_data, dir_add_child, is_dir, file_size,
}
use redis_fs.Path.{slash, normalize, join, is_root}
use redis_fs.Fs.{
  Fs, lookup, insert, write_inode, ensure_parents, link_to_parent_at, unlink_from_parent,
}
use redis_fs.Text.Replace.{starts_with}
use redis_fs.Command.{
  wrong_arity, error, simple, Slot, Outcome, answer, changed, refuse, is_option, open_write,
  with_path, with_node, with_parents, fresh, wrong_type, empty_key, other_type, holds,
}

-- fsPathHasPrefix
unfoldable pub has_prefix : Bytes → Bytes → Bool
unfolding starts_with
has_prefix path prefix =
    starts_with prefix path
    && (length path == length prefix || byte_at path (length prefix) == slash)

-- The new inode of fsCopyRecursive: the attributes of the source, and no data yet. A mode of 0 is
-- replaced by the default.
unfoldable pub copy_attributes : ℤ → Inode → Inode
copy_attributes now s = record (inode_create now (type_of s.payload) s.mode) {
  uid = s.uid;
  gid = s.gid;
  ctime = s.ctime;
  mtime = s.mtime;
  atime = s.atime;
}

-- The whole new inode of a file or a link.
unfoldable pub copied : ℤ → Inode → Inode
unfolding copy_attributes
copied now s = elim s.payload [
  | file content _ ↦
      if ltb 0 (length content)
      then file_set_data (copy_attributes now s) content
      else copy_attributes now s
  | dir _ ↦ copy_attributes now s
  | symlink target ↦ record (copy_attributes now s) { payload = symlink (c_str target) }
]

-- The result 0 is true.
abbrev pub Copy : Type 0 → Type 0
Copy F = Option (F × Bool)

module _ (D : DictApi Inode) where
  -- The new inode at its path, with the bytes of a file counted.
  unfoldable pub put_copy : ℤ → Fs D → Bytes → Inode → Fs D
  unfolding copied
  put_copy now fs dst s =
      let fs' = insert D fs dst (copied now s) in
      elim s.payload [
        | file _ _ ↦ record fs' {
          total_data_size = add64 fs'.total_data_size (file_size (copied now s).payload);
        }
        | _ ↦ fs'
      ]

  -- fsDirAddChild on the new directory, which is in the dictionary if nothing was at its path.
  unfoldable pub list_copy : Bool → Fs D → Bytes → Bytes → Fs D
  list_copy in_dict fs dst name = elim (lookup D fs dst) [
    | none ↦ fs
    | some d ↦ if in_dict then write_inode D fs dst (dir_add_child d name) else fs
  ]

  -- The loop over the children, with `rec` for the recursive call. They are the children before the
  -- copy: no directory gains one while its own children are copied, unless a path that is listed
  -- there is missing.
  unfoldable pub copy_children :
      (Fs D → Bytes → Bytes → Copy (Fs D)) → Bool → Fs D → Bytes → Bytes → List Bytes → Copy (Fs D)
  copy_children rec in_dict fs src dst [] = some (fs, true)
  copy_children rec in_dict fs src dst (c ∷ cs) = elim (join src (c_str c)) [
    | none ↦ some (fs, false)
    | some srcc ↦ elim (join dst (c_str c)) [
      | none ↦ some (fs, false)
      | some dstc ↦ elim (rec (list_copy in_dict fs dst (c_str c)) (c_str srcc) (c_str dstc)) [
        | none ↦ none
        | some (fs', false) ↦ some (fs', false)
        | some (fs', true) ↦ copy_children rec in_dict fs' src dst cs
      ]
    ]
  ]

  abbrev pub is_missing : Option Inode → Bool
  is_missing none = true
  is_missing (some _) = false

  -- fsCopyRecursive, on fuel for the depth of its calls; `none` means that the fuel ran out.
  unfoldable pub copy_recursive : ℕ → ℤ → Fs D → Bytes → Bytes → Copy (Fs D)
  copy_recursive zero now fs src dst = none
  copy_recursive (suc f) now fs src dst = elim (lookup D fs src) [
    | none ↦ some (fs, false)
    | some s ↦ elim s.payload [
      | dir cs ↦
          copy_children (copy_recursive f now) (is_missing (lookup D fs dst))
            (put_copy now fs dst s) src dst cs
      | _ ↦ some (put_copy now fs dst s, true)
    ]
  ]

  -- CP behind its checks, once the parents of the destination are made.
  unfoldable pub cp_made : ℕ → ℤ → Bytes → Bytes → Fs D → Option (Outcome (Fs D))
  cp_made fuel now src dst fs = elim (copy_recursive fuel now fs src dst) [
    | none ↦ none
    | some (fs', false) ↦ some (answer fs' (error "ERR copy failed"))
    | some (fs', true) ↦ some (changed (link_to_parent_at D now fs' dst) (simple "OK"))
  ]

  unfoldable pub cp_parents : ℕ → ℤ → Bytes → Bytes → Fs D → Option (Outcome (Fs D))
  cp_parents fuel now src dst fs =
      let (fs', made) = ensure_parents D now fs dst in
      if made
      then cp_made fuel now src dst fs'
      else some (answer fs' (error "ERR destination parent path conflict"))

  -- CP on two normalized paths.
  unfoldable pub cp_at : ℕ → ℤ → Bool → Fs D → Bytes → Bytes → Option (Outcome (Fs D))
  cp_at fuel now recursive fs src dst = elim (lookup D fs src) [
    | none ↦ some (answer fs (error "ERR source not found"))
    | some s ↦
        if is_dir s.payload && not recursive
        then some (answer fs (error "ERR source is a directory — use RECURSIVE"))
        else elim (lookup D fs dst) [
          | some _ ↦ some (answer fs (error "ERR destination already exists"))
          | none ↦ cp_parents fuel now src dst fs
        ]
  ]

  unfoldable pub cp_raw : ℕ → ℤ → Bool → Bytes → Bytes → Fs D → Option (Outcome (Fs D))
  cp_raw fuel now recursive rawsrc rawdst fs = elim (normalize rawsrc) [
    | none ↦ some (answer fs (error "ERR path depth exceeds limit"))
    | some src ↦ elim (normalize rawdst) [
      | none ↦ some (answer fs (error "ERR path depth exceeds limit"))
      | some dst ↦ cp_at fuel now recursive fs (c_str src) (c_str dst)
    ]
  ]

  unfoldable pub cp_slot : ℕ → ℤ → Bool → Slot (Fs D) → Bytes → Bytes → Option (Outcome (Fs D))
  cp_slot fuel now recursive empty_key rawsrc rawdst =
      cp_raw fuel now recursive rawsrc rawdst (fresh D now)
  cp_slot fuel now recursive other_type rawsrc rawdst = some (refuse other_type wrong_type)
  cp_slot fuel now recursive (holds fs) rawsrc rawdst = cp_raw fuel now recursive rawsrc rawdst fs

  -- CP_RedisCommand
  unfoldable pub cp : ℕ → ℤ → Slot (Fs D) → List Bytes → Option (Outcome (Fs D))
  cp fuel now slot (rawsrc ∷ rawdst ∷ []) = cp_slot fuel now false slot rawsrc rawdst
  cp fuel now slot (rawsrc ∷ rawdst ∷ opt ∷ []) =
      if is_option opt "recursive"
      then cp_slot fuel now true slot rawsrc rawdst
      else some (refuse slot (error "ERR syntax error — expected RECURSIVE"))
  cp fuel now slot _ = some (refuse slot wrong_arity)

  -- The keys that MV collects: those under `src` and '/'. The iterator starts at that prefix and the
  -- dictionary is in the order of its keys, so the loop ends behind the last of them.
  unfoldable pub keys_under : Bytes → List (Bytes × Inode) → List Bytes
  keys_under prefix [] = []
  keys_under prefix ((k, _) ∷ l) =
      let rest = keys_under prefix l in if starts_with prefix k then k ∷ rest else rest

  -- `DictDelC(old); DictSetC(new, inode)`: the inode under `old`, if there is one, is put under `new`.
  unfoldable pub rekey : Fs D → Bytes → Bytes → Fs D
  rekey fs old new = elim (lookup D fs old) [
    | none ↦ fs
    | some inode ↦ record fs { inodes = D.set (D.del fs.inodes old) new inode }
  ]

  -- The loop over what was collected: `dst`, and the old path behind `src`.
  unfoldable pub move_keys : Bytes → Bytes → List Bytes → Fs D → Fs D
  unfolding rekey
  move_keys src dst [] fs = fs
  move_keys src dst (k ∷ ks) fs = move_keys src dst ks (rekey fs k (dst ++ drop (length src) k))

  unfoldable pub move_descendants : Bytes → Bytes → Fs D → Fs D
  unfolding move_keys keys_under
  move_descendants src dst fs =
      move_keys src dst (keys_under (src ++ (slash ∷ [])) (D.entries fs.inodes)) fs

  -- MV behind its checks, once the parents of the destination are made.
  unfoldable pub mv_made : ℤ → Bytes → Bytes → Inode → Fs D → Outcome (Fs D)
  mv_made now src dst s fs =
      let below = if is_dir s.payload then move_descendants src dst fs else fs in
      let moved = rekey below src dst in
      changed (link_to_parent_at D now (unlink_from_parent D now moved src) dst) (simple "OK")

  unfoldable pub mv_free : ℤ → Bytes → Bytes → Inode → Fs D → Outcome (Fs D)
  mv_free now src dst s fs =
      if is_dir s.payload && has_prefix dst src
      then answer fs (error "ERR cannot move a directory into its own subtree")
      else with_parents D now fs dst "ERR destination parent path conflict" (mv_made now src dst s)

  -- MV on two normalized paths.
  unfoldable pub mv_at : ℤ → Fs D → Bytes → Bytes → Outcome (Fs D)
  mv_at now fs src dst =
      if is_root src
      then answer fs (error "ERR cannot move root")
      else with_node D fs src "ERR source not found" (λ s. elim (lookup D fs dst) [
        | some _ ↦ answer fs (error "ERR destination already exists")
        | none ↦ mv_free now src dst s fs
      ])

  -- MV_RedisCommand
  unfoldable pub mv : ℤ → Slot (Fs D) → List Bytes → Outcome (Fs D)
  mv now slot (rawsrc ∷ rawdst ∷ []) =
      open_write D now slot
        (λ fs. with_path D fs rawsrc (λ src. with_path D fs rawdst (mv_at now fs src)))
  mv now slot _ = refuse slot wrong_arity
