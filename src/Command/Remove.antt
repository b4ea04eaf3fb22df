-- ===== src/Command/Remove.antt =====
-- module/fs.c: fsDeleteRecursive, fsMaybeDeleteKey and RM_RedisCommand.
pub mod Keeps
pub mod Gone
pub mod Ends
pub mod Returns
use redis_fs.Base.{
  ℕ, zero, suc, ◌+◌, ◌%◌, ℤ, Bool, true, false, not, ◌&&◌, Option, none, some, List, [], ◌∷◌, leb,
  ltb, if◌then◌else◌, length, u64_mod, c_str,
}
use redis_fs.Base.Int.{pos}
use redis_fs.Base.ByteStrings.{Bytes}
use redis_fs.Dict.{DictApi}
use redis_fs.Inode.{Inode, Payload, dir}
use redis_fs.Path.{is_root, join, normalize}
use redis_fs.Fs.{Fs, lookup, remove, unlink_from_parent}
use redis_fs.Command.{
  wrong_arity, error, integer, Slot, empty_key, other_type, holds, Outcome, answer, refuse,
  is_option, wrong_type,
}

-- The children of a directory, and nothing of another inode.
abbrev pub children : Payload → List Bytes
children (dir cs) = cs
children _ = []

module _ (D : DictApi Inode) where
  -- The part of fsDeleteRecursive behind its loop: the inode leaves its parent and the dictionary.
  unfoldable pub detach : ℤ → Fs D → Bytes → Fs D
  detach now fs path = remove D (if is_root path then fs else unlink_from_parent D now fs path) path

  -- The loop over the snapshot of the children, with `rec` for the recursive call.
  unfoldable pub delete_children :
      (Fs D → Bytes → Option (Fs D)) → Fs D → Bytes → List Bytes → Option (Fs D)
  delete_children rec fs path [] = some fs
  delete_children rec fs path (c ∷ cs) = elim (join path c) [
    | none ↦ delete_children rec fs path cs
    | some child ↦ elim (rec fs child) [ none ↦ none | some fs' ↦ delete_children rec fs' path cs ]
  ]

  -- fsDeleteRecursive, on fuel for the depth of its calls; `none` means that the fuel ran out.
  unfoldable pub delete_recursive : ℕ → ℤ → Fs D → Bytes → Option (Fs D)
  delete_recursive zero now fs path = none
  delete_recursive (suc f) now fs path = elim (lookup D fs path) [
    | none ↦ some fs
    | some inode ↦
        elim (delete_children (delete_recursive f now) fs path (children inode.payload)) [
          | none ↦ none
          | some fs' ↦ some (detach now fs' path)
        ]
  ]

  -- fsMaybeDeleteKey
  unfoldable pub maybe_delete_key : Fs D → Slot (Fs D)
  maybe_delete_key fs =
      if leb ((fs.file_count + fs.dir_count + fs.symlink_count) % u64_mod) 1
      then empty_key
      else holds fs

  -- The reply 1 of a command that has deleted something.
  abbrev pub deleted : Fs D → Outcome (Fs D)
  deleted fs = record { slot = maybe_delete_key fs; reply = integer (pos 1); replicated = true }

  -- RM behind its parse of the options. `fuel` bounds the depth of fsDeleteRecursive; `none` means
  -- that it ran out.
  unfoldable pub rm_at : ℕ → ℤ → Bool → Fs D → Bytes → Option (Outcome (Fs D))
  rm_at fuel now recursive fs path =
      if is_root path
      then some (answer fs (error "ERR cannot delete root directory"))
      else elim (lookup D fs path) [
        | none ↦ some (answer fs (integer (pos 0)))
        | some inode ↦
            if ltb 0 (length (children inode.payload)) && not recursive
            then some (answer fs (error "ERR directory not empty — use RECURSIVE"))
            else if recursive
            then elim (delete_recursive fuel now fs path) [
              | none ↦ none
              | some fs' ↦ some (deleted fs')
            ]
            else some (deleted (remove D (unlink_from_parent D now fs path) path))
      ]

  -- RM on a filesystem, at the path as it was given.
  unfoldable pub rm_raw : ℕ → ℤ → Bool → Fs D → Bytes → Option (Outcome (Fs D))
  rm_raw fuel now recursive fs raw = elim (normalize raw) [
    | none ↦ some (answer fs (error "ERR path depth exceeds limit"))
    | some path ↦ rm_at fuel now recursive fs (c_str path)
  ]

  -- RM opens its key without making a filesystem.
  unfoldable pub rm_slot : ℕ → ℤ → Bool → Slot (Fs D) → Bytes → Option (Outcome (Fs D))
  rm_slot fuel now recursive empty_key raw = some (refuse empty_key (integer (pos 0)))
  rm_slot fuel now recursive other_type raw = some (refuse other_type wrong_type)
  rm_slot fuel now recursive (holds fs) raw = rm_raw fuel now recursive fs raw

  -- RM_RedisCommand
  unfoldable pub rm : ℕ → ℤ → Slot (Fs D) → List Bytes → Option (Outcome (Fs D))
  rm fuel now slot (raw ∷ []) = rm_slot fuel now false slot raw
  rm fuel now slot (raw ∷ opt ∷ []) =
      if is_option opt "recursive"
      then rm_slot fuel now true slot raw
      else some (refuse slot (error "ERR syntax error — expected RECURSIVE"))
  rm fuel now slot _ = some (refuse slot wrong_arity)
