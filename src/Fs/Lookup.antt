-- ===== src/Fs/Lookup.antt =====
-- fsLookup after each of the operations that write the dictionary.
use redis_fs.Base.{
  ◌≡◌, refl, true, false, none, some, arith, Bool-cases, Option-cases, inl, inr, if◌then◌else◌,
  bytes_eq, bytes_eq_iff, ◌⊎◌,
}
use redis_fs.Base.ByteStrings.{Bytes}
use redis_fs.Dict.{DictApi, or_else}
use redis_fs.Inode.{Inode, Payload, file, dir, symlink, is_dir}
use redis_fs.Path.{parent}
use redis_fs.Fs.{Fs, lookup, insert, count_in, remove, count_out, write_inode, update_parent}

module _ (D : DictApi Inode) where
  pub inodes-count_in : (fs : Fs D) (q : Payload) → (count_in D fs q).inodes ≡ fs.inodes
  unfolding count_in
  inodes-count_in fs (file x y) = refl
  inodes-count_in fs (dir x) = refl
  inodes-count_in fs (symlink x) = refl

  inodes-count_out : (fs : Fs D) (q : Payload) → (count_out D fs q).inodes ≡ fs.inodes
  unfolding count_out
  inodes-count_out fs (file x y) = refl
  inodes-count_out fs (dir x) = refl
  inodes-count_out fs (symlink x) = refl

  module _ (fs : Fs D) (p j : Bytes) where
    -- DictSetC leaves an inode that is there alone.
    pub lookup-insert :
        (i : Inode)
        → lookup D (insert D fs p i) j
          ≡ (if bytes_eq p j then some (or_else (lookup D fs p) i) else lookup D fs j)
    unfolding lookup insert
    lookup-insert i = rw inodes-count_in (D.get-set fs.inodes p j i)

    pub lookup-write_inode :
        (i : Inode)
        → lookup D (write_inode D fs p i) j ≡ (if bytes_eq p j then some i else lookup D fs j)
    unfolding lookup write_inode
    lookup-write_inode i = D.get-replace fs.inodes p j i

    pub lookup-remove : lookup D (remove D fs p) j ≡ (if bytes_eq p j then none else lookup D fs j)
    unfolding lookup remove
    lookup-remove = elim (Option-cases (D.get fs.inodes p)) [
      | inl e ↦ rw (e, remove) (ground (arith, bytes_eq_iff p j))
      | inr (i, e) ↦ rw (e, remove, inodes-count_out) (D.get-del fs.inodes p j)
    ]

  -- The parent is written, or there is no directory there and nothing changes.
  pub update_parent_cases :
      (fs : Fs D) (p : Bytes) (f : Inode → Inode)
      → (update_parent D fs p f ≡ fs)
        ⊎ ((d : Inode) × (lookup D fs (parent p) ≡ some d)
            × (is_dir d.payload ≡ true)
            × (update_parent D fs p f ≡ write_inode D fs (parent p) (f d)))
  unfolding update_parent
  update_parent_cases fs p f = elim (Option-cases (lookup D fs (parent p))) [
    | inl e ↦ inl (rw (e, update_parent))
    | inr (d, e) ↦ elim (Bool-cases (is_dir d.payload)) [
      | inl q ↦ inr (d, e, q, rw (e, update_parent, q))
      | inr q ↦ inl (rw (e, update_parent, q))
    ]
  ]

  -- Only the parent of `p` is written.
  pub lookup-update_parent_ne :
      (fs : Fs D) (p j : Bytes) (f : Inode → Inode)
      → bytes_eq (parent p) j ≡ false
      → lookup D (update_parent D fs p f) j ≡ lookup D fs j
  lookup-update_parent_ne fs p j f h = elim (update_parent_cases fs p f) [
    | inl e ↦ rw e
    | inr (d, l, q, e) ↦ rw (e, lookup-write_inode fs (parent p) j (f d), h)
  ]
