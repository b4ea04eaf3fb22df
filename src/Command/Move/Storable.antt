-- ===== src/Command/Move/Storable.antt =====
-- The inodes through fsCopyRecursive: a copy has the attributes of its source, so every inode stays as
-- the structure in C holds it.
pub mod Handlers
use mathlib.Core.Path.{subst}
use redis_fs.Base.{
  ℕ, zero, suc, ℤ, ◌≡◌, ◌<◌, ◌^◌, refl, sym, ap, ◌∙◌, Bool, true, false, Option, none, some, List,
  [], ◌∷◌, ◌++◌, arith, Bool-cases, Option-cases, inl, inr, ◌==◌, ◌&&◌, not, if◌then◌else◌, ltb,
  length, drop, c_str, bytes_eq,
}
use redis_fs.Base.ByteStrings.{Bytes, c_str-NoNul}
use redis_fs.Bloom.{empty_bloom}
use redis_fs.Dict.{DictApi, or_else}
use redis_fs.Inode.{
  Inode, Payload, file, dir, symlink, file_type, dir_type, symlink_type, type_of, inode_create,
  dir_add_child, is_dir,
}
use redis_fs.Path.{normalize, join, is_root, slash}
use redis_fs.Fs.{Fs, lookup, insert, ensure_parents, link_to_parent_at, unlink_from_parent}
use redis_fs.Rdb.Round.{IsStorable}
use redis_fs.Command.{Slot, empty_key, other_type, holds, is_option, fresh}
use redis_fs.Command.Keeps.Rules.{
  Keeps, Result, open_write-Keeps, with_path-Keeps, with_node-Keeps, with_parents-Keeps,
}
use redis_fs.Command.Keeps.{SlotHolds}
use redis_fs.Command.Storable.{storable}
use redis_fs.Command.Storable.Store.{
  AllStorable, write_inode-AllStorable, insert-AllStorable, found, fresh-AllStorable,
  parents-AllStorable, linked_at-AllStorable, unlinked-AllStorable,
}
use redis_fs.Command.Storable.Inodes.{
  with_payload, inode_create-IsStorable, file_set_data-IsStorable, dir_add_child-IsStorable,
}
use redis_fs.Command.Move.{
  copy_attributes, copied, put_copy, list_copy, copy_children, is_missing, copy_recursive, cp_made,
  cp_parents, cp_at, cp_raw, cp_slot, cp, rekey, move_keys, keys_under, move_descendants, mv_made,
  mv_free, mv_at, mv, Copy,
}

copy_attributes-IsStorable :
    (now : ℤ) (s : Inode) → IsStorable s → IsStorable (copy_attributes now s)
unfolding copy_attributes inode_create
copy_attributes-IsStorable now s h =
    let new = inode_create-IsStorable now (type_of s.payload) in
    elim (Bool-cases (s.mode == 0)) [
      | inl e ↦
          with_payload (copy_attributes now s) (inode_create now (type_of s.payload) 0)
            (inl (rw e), inr h.uid, inr h.gid) new new.plain
      | inr e ↦
          with_payload (copy_attributes now s) (inode_create now (type_of s.payload) 0)
            (inr (rw e h.mode), inr h.uid, inr h.gid) new new.plain
    ]

copied-IsStorable : (now : ℤ) (s : Inode) → IsStorable s → IsStorable (copied now s)
unfolding copied copy_attributes inode_create
copied-IsStorable now s h = split s.payload refl
  where
    split : (x : Payload) → s.payload ≡ x → IsStorable (copied now s)
    split (file content bloom) e = elim (Bool-cases (ltb 0 (length content))) [
      | inl q ↦
          rw (copied, e, q)
            (file_set_data-IsStorable (copy_attributes now s) [] empty_bloom content
              (rw (copy_attributes, e) refl) (copy_attributes-IsStorable now s h))
      | inr q ↦ rw (copied, e, q) (copy_attributes-IsStorable now s h)
    ]
    split (dir cs) e = rw (copied, e) (copy_attributes-IsStorable now s h)
    split (symlink t) e =
        rw (copied, e)
          (with_payload (record (copy_attributes now s) { payload = symlink (c_str t) })
            (copy_attributes now s) (inl refl, inl refl, inl refl)
            (copy_attributes-IsStorable now s h) (c_str-NoNul t))

module _ (D : DictApi Inode) where
  -- What a copy has left, if it has not run out of fuel.
  abbrev pub CopyStorable : Copy (Fs D) → Type 0
  CopyStorable none = Unit
  CopyStorable (some r) = AllStorable D r.0

  put_copy-AllStorable :
      (now : ℤ) (fs : Fs D) (dst : Bytes) (s : Inode)
      → AllStorable D fs
      → IsStorable s
      → AllStorable D (put_copy D now fs dst s)
  unfolding put_copy lookup
  put_copy-AllStorable now fs dst s h k = split s.payload refl
    where
      put : AllStorable D (insert D fs dst (copied now s))
      put = insert-AllStorable D fs dst (copied now s) h (copied-IsStorable now s k)

      split : (x : Payload) → s.payload ≡ x → AllStorable D (put_copy D now fs dst s)
      split (file content bloom) e = rw (put_copy, e) put
      split (dir cs) e = rw (put_copy, e) put
      split (symlink t) e = rw (put_copy, e) put

  list_copy-AllStorable :
      (b : Bool) (fs : Fs D) (dst name : Bytes)
      → AllStorable D fs
      → AllStorable D (list_copy D b fs dst name)
  unfolding list_copy
  list_copy-AllStorable b fs dst name h = elim (Option-cases (lookup D fs dst)) [
    | inl e ↦ rw (list_copy, e) h
    | inr (d, e) ↦ split b d e
  ]
    where
      split :
          (b : Bool) (d : Inode)
          → lookup D fs dst ≡ some d
          → AllStorable D (list_copy D b fs dst name)
      split true d e =
          rw (list_copy, e)
            (write_inode-AllStorable D fs dst (dir_add_child d name) h
              (dir_add_child-IsStorable d name (h dst d e)))
      split false d e = rw (list_copy, e) h

  -- The loop over the children, if the call for each child keeps the inodes storable.
  copy_children-AllStorable :
      (rec : Fs D → Bytes → Bytes → Copy (Fs D))
      → ((fs : Fs D) (a b : Bytes) → AllStorable D fs → CopyStorable (rec fs a b))
      → (b : Bool) (fs : Fs D) (src dst : Bytes) (cs : List Bytes) → AllStorable D fs
      → CopyStorable (copy_children D rec b fs src dst cs)
  unfolding copy_children
  copy_children-AllStorable rec k b fs src dst [] h = h
  copy_children-AllStorable rec k b fs src dst (c ∷ cs) h =
      let kept = λ (srcc dstc : Bytes).
        k (list_copy D b fs dst (c_str c)) (c_str srcc) (c_str dstc)
          (list_copy-AllStorable b fs dst (c_str c) h) in
      let rest = λ (fs' : Fs D) (h' : AllStorable D fs').
        copy_children-AllStorable rec k b fs' src dst cs h' in
      elim (Option-cases (join src (c_str c))) [
        | inl e ↦ rw (copy_children, e) h
        | inr (srcc, e) ↦ elim (Option-cases (join dst (c_str c))) [
          | inl q ↦ rw (copy_children, e, q) h
          | inr (dstc, q) ↦
              split srcc dstc e q rest
                (rec (list_copy D b fs dst (c_str c)) (c_str srcc) (c_str dstc)) refl
                (kept srcc dstc)
        ]
      ]
    where
      split :
          (srcc dstc : Bytes)
          → join src (c_str c) ≡ some srcc
          → join dst (c_str c) ≡ some dstc
          → ((fs' : Fs D) → AllStorable D fs' → CopyStorable (copy_children D rec b fs' src dst cs))
          → (r : Copy (Fs D)) → rec (list_copy D b fs dst (c_str c)) (c_str srcc) (c_str dstc) ≡ r
          → CopyStorable (rec (list_copy D b fs dst (c_str c)) (c_str srcc) (c_str dstc))
          → CopyStorable (copy_children D rec b fs src dst (c ∷ cs))
      split srcc dstc e q rest none x kept = rw (copy_children, e, q, x) tt
      split srcc dstc e q rest (some (fs', false)) x kept =
          rw (copy_children, e, q, x) (subst CopyStorable x kept)
      split srcc dstc e q rest (some (fs', true)) x kept =
          rw (copy_children, e, q, x) (rest fs' (subst CopyStorable x kept))

  pub copy_recursive-AllStorable :
      (f : ℕ) (now : ℤ) (fs : Fs D) (src dst : Bytes)
      → AllStorable D fs
      → CopyStorable (copy_recursive D f now fs src dst)
  unfolding copy_recursive
  copy_recursive-AllStorable zero now fs src dst h = tt
  copy_recursive-AllStorable (suc f) now fs src dst h = elim (Option-cases (lookup D fs src)) [
    | inl e ↦ rw (copy_recursive, e) h
    | inr (s, e) ↦ split (λ g a b k. copy_recursive-AllStorable f now g a b k) s e s.payload refl
  ]
    where
      split :
          ((g : Fs D) (a b : Bytes) → AllStorable D g → CopyStorable (copy_recursive D f now g a b))
          → (s : Inode) → lookup D fs src ≡ some s
          → (x : Payload) → s.payload ≡ x
          → CopyStorable (copy_recursive D (suc f) now fs src dst)
      split rec s e (file content bloom) q =
          rw (copy_recursive, e, q) (put_copy-AllStorable now fs dst s h (h src s e))
      split rec s e (dir cs) q =
          rw (copy_recursive, e, q)
            (copy_children-AllStorable (copy_recursive D f now) rec (is_missing D (lookup D fs dst))
              (put_copy D now fs dst s) src dst cs
              (put_copy-AllStorable now fs dst s h (h src s e)))
      split rec s e (symlink t) q =
          rw (copy_recursive, e, q) (put_copy-AllStorable now fs dst s h (h src s e))
