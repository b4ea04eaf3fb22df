-- ===== src/Command/Keeps.antt =====
-- An invariant of what a key holds through the handlers: the changes that have to keep it.
pub mod Rules
pub mod Writes
pub mod Edits
pub mod Reads
pub mod Listing
pub mod Removal
pub mod Meta
pub mod Link
pub mod Walks
use redis_fs.Base.{
  ℤ, ◌≡◌, refl, Bool, true, false, Option, none, some, arith, Bool-cases, String, Option-cases, inl,
  inr, c_str, ℕ, ◌⊎◌, ◌<◌, ◌^◌, length, ltb,
}
use redis_fs.Base.ByteStrings.{Bytes}
use redis_fs.Dict.{DictApi}
use redis_fs.Inode.{Inode, Payload, file, dir, symlink, InodeType, inode_create, file_type}
use redis_fs.Path.{root, normalize, is_root}
use redis_fs.Fs.{
  Fs, Resolved, resolved, symlink_loop, path_depth, lookup, object_create, resolve_path,
  ensure_parents, insert, remove, write_inode, link_to_parent, link_to_parent_at,
  unlink_from_parent,
}
use redis_fs.Command.{
  Slot, empty_key, other_type, holds, Outcome, fresh, open_write, open_read, with_path,
  with_path_unchecked, with_resolved, with_target, with_node, with_file, with_parents, new_or_file,
}
use redis_fs.Fs.Parents.{lookup-ensure_parents}
use redis_fs.Command.Remove.{children, delete_recursive}
use redis_fs.Command.Write.{parent_is_dir, create, new_file, append_to, overwrite}
use redis_fs.Command.Link.{new_link, resize}

-- The attributes of `j` are those of `i`, or fit the structure in C.
abbrev pub FitsAs : Inode → Inode → Type 0
FitsAs j i =
    ((j.mode ≡ i.mode) ⊎ (j.mode < 2 ^ 16))
    × ((j.uid ≡ i.uid) ⊎ (j.uid < 2 ^ 32))
    × ((j.gid ≡ i.gid) ⊎ (j.gid < 2 ^ 32))

-- What the key holds, if it is a filesystem, has a property.
abbrev pub SlotHolds : (D : DictApi Inode) → (Fs D → Type 0) → Slot (Fs D) → Type 0
SlotHolds D H (holds fs) = H fs
SlotHolds D H _ = Unit

-- What each of the changes that the commands make keeps. `Clean` is what is asked of the arguments,
-- `IsPath` what this gives for the paths, and `Ready` that an inode may be made at a path.
pub record Invariant (D : DictApi Inode) : Type 1 where
  pub Held : Slot (Fs D) → Type 0
  pub Clean : Bytes → Type 0
  pub IsPath : Bytes → Type 0
  pub Ready : Fs D → Bytes → Type 0
  pub named : (raw p : Bytes) → Clean raw → normalize raw ≡ some p → IsPath (c_str p)
  pub target :
      (fs : Fs D) (p q : Bytes) → IsPath p → resolve_path D fs p ≡ resolved q → IsPath (c_str q)
  pub begun : (now : ℤ) → Held empty_key → Held (holds (fresh D now))
  pub emptied : (fs : Fs D) → Held (holds fs) → Held empty_key
  pub parents :
      (now : ℤ) (fs : Fs D) (p : Bytes)
      → Held (holds fs)
      → IsPath p
      → Held (holds ((ensure_parents D now fs p).0))
  pub parents_ready :
      (now : ℤ) (fs : Fs D) (p : Bytes)
      → Held (holds fs)
      → IsPath p
      → (ensure_parents D now fs p).1 ≡ true
      → Ready (ensure_parents D now fs p).0 p
  pub dir_ready :
      (fs : Fs D) (p : Bytes) → Held (holds fs) → parent_is_dir D fs p ≡ true → Ready fs p
  pub deleted :
      (fuel : ℕ) (now : ℤ) (fs fs' : Fs D) (p : Bytes)
      → Held (holds fs)
      → IsPath p
      → is_root p ≡ false
      → delete_recursive D fuel now fs p ≡ some fs'
      → Held (holds fs')
  pub removed :
      (now : ℤ) (fs : Fs D) (p : Bytes) (i : Inode)
      → Held (holds fs)
      → IsPath p
      → is_root p ≡ false
      → lookup D fs p ≡ some i
      → ltb 0 (length (children i.payload)) ≡ false
      → Held (holds (remove D (unlink_from_parent D now fs p) p))
  pub made :
      (now : ℤ) (t : InodeType) (fs : Fs D) (p : Bytes)
      → Held (holds fs)
      → IsPath p
      → Ready fs p
      → lookup D fs p ≡ none
      → Held (holds (link_to_parent_at D now (insert D fs p (inode_create now t 0)) p))
  pub file_made :
      (now : ℤ) (fs : Fs D) (p : Bytes)
      → Held (holds fs)
      → IsPath p
      → Ready fs p
      → lookup D fs p ≡ none
      → Held (holds (link_to_parent D (insert D fs p (inode_create now file_type 0)) p))
  pub link_made :
      (now : ℤ) (target : Bytes) (fs : Fs D) (p : Bytes)
      → Held (holds fs)
      → IsPath p
      → Ready fs p
      → lookup D fs p ≡ none
      → Held (holds (link_to_parent_at D now (insert D fs p (new_link D now target)) p))
  pub created :
      (now : ℤ) (fs : Fs D) (p content : Bytes)
      → Held (holds fs)
      → IsPath p
      → Ready fs p
      → lookup D fs p ≡ none
      → Held (holds (create D now fs p (new_file D now content) content))
  pub appended :
      (now : ℤ) (fs : Fs D) (p : Bytes) (i : Inode) (old bloom content : Bytes)
      → Held (holds fs)
      → lookup D fs p ≡ some i
      → i.payload ≡ file old bloom
      → Held (holds (append_to D now fs p i content))
  pub overwritten :
      (now : ℤ) (fs : Fs D) (p : Bytes) (i : Inode) (old bloom content : Bytes)
      → Held (holds fs)
      → lookup D fs p ≡ some i
      → i.payload ≡ file old bloom
      → Held (holds (overwrite D now fs p i old content))
  pub resized :
      (now : ℤ) (n : ℕ) (fs : Fs D) (p : Bytes) (i : Inode) (old bloom : Bytes)
      → Held (holds fs)
      → lookup D fs p ≡ some i
      → i.payload ≡ file old bloom
      → Held (holds (resize D now n fs p i old bloom))
  pub written :
      (fs : Fs D) (p : Bytes) (j i : Inode)
      → Held (holds fs)
      → lookup D fs p ≡ some i
      → j.payload ≡ i.payload
      → FitsAs j i
      → Held (holds (write_inode D fs p j))

-- What the commands that read do to an inode: they set its access time.
abbrev pub Accesses : (D : DictApi Inode) → (Slot (Fs D) → Type 0) → Type 0
Accesses D H =
    (now : ℤ) (fs : Fs D) (p : Bytes) (i : Inode)
    → H (holds fs)
    → lookup D fs p ≡ some i
    → H (holds (write_inode D fs p (record i { atime = now })))

-- A change of the times only.
abbrev pub same_owner : (i : Inode) → FitsAs i i
same_owner i = (inl refl, inl refl, inl refl)

module _ (D : DictApi Inode) (V : Invariant D) where
  pub accessed : Accesses D V.Held
  accessed now fs p i c e = V.written fs p (record i { atime = now }) i c e refl (same_owner i)
