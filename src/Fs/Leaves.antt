-- ===== src/Fs/Leaves.antt =====
-- The files and links of a filesystem: directories come and go around them.
use mathlib.Core.Option.{some-injective}
use redis_fs.Base.{
  ℤ, ◌≡◌, refl, sym, ap, ◌∙◌, true, false, Option, none, some, Bool-cases, Option-cases, inl, inr,
  if◌then◌else◌, bytes_eq, bytes_eq_iff,
}
use redis_fs.Base.ByteStrings.{Bytes}
use redis_fs.Dict.{DictApi}
use redis_fs.Inode.{
  Inode, Payload, file, dir, symlink, dir_type, inode_create, is_dir, dir_add_child,
  dir_remove_child,
}
use redis_fs.Path.{parent, base_name}
use redis_fs.Fs.{
  Fs, lookup, insert, write_inode, update_parent, link_to_parent, link_to_parent_at,
  unlink_from_parent, make_parent, ensure_parents,
}
use redis_fs.Fs.Ensure.{ensure_parents_induction}
use redis_fs.Fs.Lookup.{lookup-insert, lookup-write_inode, update_parent_cases}
use redis_fs.Fs.Parents.{is_dir-dir_add_child}

-- An inode that is no directory.
unfoldable pub not_dir : Option Inode → Option Inode
not_dir none = none
not_dir (some i) = if is_dir i.payload then none else some i

pub is_dir-dir_remove_child :
    (d : Inode) (name : Bytes)
    → is_dir d.payload ≡ true
    → is_dir (dir_remove_child d name).0.payload ≡ true
unfolding dir_remove_child
is_dir-dir_remove_child d name h = split d.payload refl
  where
    split : (q : Payload) → d.payload ≡ q → is_dir (dir_remove_child d name).0.payload ≡ true
    split (file x y) e = cc (ap is_dir e, h)
    split (dir x) e = rw (e, dir_remove_child)
    split (symlink x) e = cc (ap is_dir e, h)

pub not_dir-dir : (i : Inode) → is_dir i.payload ≡ true → not_dir (some i) ≡ none
unfolding not_dir
not_dir-dir i h = rw h

pub not_dir-leaf : (i : Inode) → is_dir i.payload ≡ false → not_dir (some i) ≡ some i
unfolding not_dir
not_dir-leaf i h = rw h

module _ (D : DictApi Inode) where
  -- The file or link at a path.
  unfoldable pub leaf : Fs D → Bytes → Option Inode
  unfolding not_dir
  leaf fs path = not_dir (lookup D fs path)

  leaf-write_dir :
      (fs : Fs D) (p j : Bytes) (d e : Inode)
      → lookup D fs p ≡ some d
      → is_dir d.payload ≡ true
      → is_dir e.payload ≡ true
      → leaf (write_inode D fs p e) j ≡ leaf fs j
  unfolding leaf
  leaf-write_dir fs p j d e there was is = elim (Bool-cases (bytes_eq p j)) [
    | inl q ↦
        let same = (bytes_eq_iff p j).0 q in
        rw (lookup-write_inode D fs p j e, q)
          (not_dir-dir e is
            ∙ sym (not_dir-dir d was)
            ∙ ap not_dir (sym there ∙ ap (lookup D fs) same))
    | inr q ↦ rw (lookup-write_inode D fs p j e, q)
  ]

  -- A directory at a path where nothing was is no file or link.
  leaf-insert_dir :
      (fs : Fs D) (p j : Bytes) (d : Inode)
      → lookup D fs p ≡ none
      → is_dir d.payload ≡ true
      → leaf (insert D fs p d) j ≡ leaf fs j
  unfolding leaf
  leaf-insert_dir fs p j d gone is = elim (Bool-cases (bytes_eq p j)) [
    | inl q ↦
        let same = (bytes_eq_iff p j).0 q in
        rw (lookup-insert D fs p j d, q, gone)
          (not_dir-dir d is ∙ ap not_dir (sym gone ∙ ap (lookup D fs) same))
    | inr q ↦ rw (lookup-insert D fs p j d, q)
  ]

  leaf-update_parent :
      (fs : Fs D) (p j : Bytes) (f : Inode → Inode)
      → ((d : Inode) → is_dir d.payload ≡ true → is_dir (f d).payload ≡ true)
      → leaf (update_parent D fs p f) j ≡ leaf fs j
  leaf-update_parent fs p j f k = elim (update_parent_cases D fs p f) [
    | inl e ↦ rw e
    | inr (d, there, is, e) ↦ rw e (leaf-write_dir fs (parent p) j d (f d) there is (k d is))
  ]

  pub leaf-link_to_parent_at :
      (now : ℤ) (fs : Fs D) (p j : Bytes) → leaf (link_to_parent_at D now fs p) j ≡ leaf fs j
  unfolding link_to_parent_at
  leaf-link_to_parent_at now fs p j =
      leaf-update_parent fs p j (λ d. record (dir_add_child d (base_name p)) { mtime = now })
        (λ d. is_dir-dir_add_child d (base_name p))

  pub leaf-unlink_from_parent :
      (now : ℤ) (fs : Fs D) (p j : Bytes) → leaf (unlink_from_parent D now fs p) j ≡ leaf fs j
  unfolding unlink_from_parent
  leaf-unlink_from_parent now fs p j =
      leaf-update_parent fs p j (λ d. record ((dir_remove_child d (base_name p)).0) { mtime = now })
        (λ d. is_dir-dir_remove_child d (base_name p))

  leaf-make_parent :
      (now : ℤ) (fs : Fs D) (p j : Bytes) → leaf (make_parent D now fs p).0 j ≡ leaf fs j
  unfolding make_parent link_to_parent inode_create
  leaf-make_parent now fs p j = elim (Option-cases (lookup D fs p)) [
    | inl e ↦
        rw (e, make_parent)
          (leaf-update_parent (insert D fs p (inode_create now dir_type 0)) p j
              (λ d. dir_add_child d (base_name p)) (λ d. is_dir-dir_add_child d (base_name p))
            ∙ leaf-insert_dir fs p j (inode_create now dir_type 0) e refl)
    | inr (d, e) ↦ rw (e, make_parent)
  ]

  -- fsEnsureParents leaves the files and links alone.
  pub leaf-ensure_parents :
      (now : ℤ) (fs : Fs D) (p j : Bytes) → leaf (ensure_parents D now fs p).0 j ≡ leaf fs j
  leaf-ensure_parents now fs p j =
      ensure_parents_induction D now fs (λ q r. leaf r.0 j ≡ leaf fs j) (λ q e. refl)
        (λ q r e k above. above) (λ q r e k above. leaf-make_parent now r.0 (parent q) j ∙ above) p

  -- A file or link that is put where nothing was, or written over one.
  pub leaf-insert :
      (fs : Fs D) (p j : Bytes) (i : Inode)
      → lookup D fs p ≡ none
      → is_dir i.payload ≡ false
      → leaf (insert D fs p i) j ≡ (if bytes_eq p j then some i else leaf fs j)
  unfolding leaf
  leaf-insert fs p j i gone is = elim (Bool-cases (bytes_eq p j)) [
    | inl q ↦ rw (lookup-insert D fs p j i, q, gone) (not_dir-leaf i is)
    | inr q ↦ rw (lookup-insert D fs p j i, q)
  ]

  pub leaf-write_inode :
      (fs : Fs D) (p j : Bytes) (i : Inode)
      → is_dir i.payload ≡ false
      → leaf (write_inode D fs p i) j ≡ (if bytes_eq p j then some i else leaf fs j)
  unfolding leaf
  leaf-write_inode fs p j i is = elim (Bool-cases (bytes_eq p j)) [
    | inl q ↦ rw (lookup-write_inode D fs p j i, q) (not_dir-leaf i is)
    | inr q ↦ rw (lookup-write_inode D fs p j i, q)
  ]

pub not_dir-some :
    (o : Option Inode) (i : Inode) → not_dir o ≡ some i → (o ≡ some i) × (is_dir i.payload ≡ false)
unfolding not_dir
not_dir-some none i h = cc h
not_dir-some (some k) i h = elim (Bool-cases (is_dir k.payload)) [
  | inl e ↦ cc (rw e at h)
  | inr e ↦ let same = rw e at h in (same, rw (some-injective k i same) at e)
]
