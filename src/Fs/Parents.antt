-- ===== src/Fs/Parents.antt =====
-- fsEnsureParents: what it makes, and what it leaves alone.
use redis_fs.Base.{
  ℤ, ◌≤◌, ◌<◌, ◌≡◌, refl, ap, ◌∙◌, true, false, arith, Option-cases, inl, inr, length, bytes_eq,
  bytes_eq_of_length,
}
use redis_fs.Base.ByteStrings.{Bytes}
use redis_fs.Dict.{DictApi}
use redis_fs.Inode.{
  Inode, InodeType, Payload, file, dir, symlink, file_type, dir_type, symlink_type, inode_create,
  is_dir, dir_add_child,
}
use redis_fs.Path.{parent, base_name}
use redis_fs.Path.Parent.{length-parent, length-parent_pos, length-parent_cases}
use redis_fs.Fs.{Fs, lookup, insert, link_to_parent, make_parent, ensure_parents}
use redis_fs.Fs.Ensure.{ensure_parents_induction}
use redis_fs.Fs.Lookup.{lookup-insert, lookup-update_parent_ne}
use redis_fs.Fs.Counts.{IsCounted, insert-IsCounted, update_parent-IsCounted, bytes_of}

pub is_dir-dir_add_child :
    (d : Inode) (name : Bytes)
    → is_dir d.payload ≡ true
    → is_dir (dir_add_child d name).payload ≡ true
unfolding dir_add_child
is_dir-dir_add_child d name h = split d.payload refl
  where
    split : (q : Payload) → d.payload ≡ q → is_dir (dir_add_child d name).payload ≡ true
    split (file x y) e = cc (ap is_dir e ∙ refl, h)
    split (dir x) e = rw (e, dir_add_child)
    split (symlink x) e = cc (ap is_dir e ∙ refl, h)

pub bytes_of_new : (now : ℤ) (t : InodeType) → bytes_of (inode_create now t 0) ≡ 0
unfolding inode_create
bytes_of_new now file_type = refl
bytes_of_new now dir_type = refl
bytes_of_new now symlink_type = refl

pub link_to_parent-IsCounted :
    (D : DictApi Inode) (fs : Fs D) (p : Bytes)
    → IsCounted D fs
    → IsCounted D (link_to_parent D fs p)
unfolding link_to_parent
link_to_parent-IsCounted D fs p c =
    update_parent-IsCounted D fs p (λ d. dir_add_child d (base_name p))
      (λ d. is_dir-dir_add_child d (base_name p)) c

module _ (D : DictApi Inode) (now : ℤ) where
  make_parent-IsCounted :
      (fs : Fs D) (p : Bytes) → IsCounted D fs → IsCounted D (make_parent D now fs p).0
  unfolding make_parent
  make_parent-IsCounted fs p c = elim (Option-cases (lookup D fs p)) [
    | inl e ↦
        rw (e, make_parent)
          (link_to_parent-IsCounted D (insert D fs p (inode_create now dir_type 0)) p
            (insert-IsCounted D fs p (inode_create now dir_type 0) c e (bytes_of_new now dir_type)))
    | inr (d, e) ↦ rw (e, make_parent) c
  ]

  pub ensure_parents-IsCounted :
      (fs : Fs D) (p : Bytes) → IsCounted D fs → IsCounted D (ensure_parents D now fs p).0
  ensure_parents-IsCounted fs p c =
      ensure_parents_induction D now fs (λ q r. IsCounted D r.0) (λ q e. c) (λ q r e k above. above)
        (λ q r e k above. make_parent-IsCounted r.0 (parent q) above) p

  -- Making `par` leaves the paths alone that are longer.
  lookup-make_parent :
      (fs : Fs D) (par j : Bytes)
      → 0 < length par
      → length par < length j
      → lookup D (make_parent D now fs par).0 j ≡ lookup D fs j
  unfolding make_parent link_to_parent
  lookup-make_parent fs par j pos lt = elim (Option-cases (lookup D fs par)) [
    | inl e ↦
        let above : bytes_eq (parent par) j ≡ false =
          bytes_eq_of_length (parent par) j
            (λ q. absurd (omega (arith, length-parent_cases par))) in
        let self : bytes_eq par j ≡ false = bytes_eq_of_length par j (λ q. absurd (omega arith)) in
        rw (e, make_parent)
          (lookup-update_parent_ne D (insert D fs par (inode_create now dir_type 0)) par j
              (λ d. dir_add_child d (base_name par)) above
            ∙ lookup-insert D fs par j (inode_create now dir_type 0)
            ∙ rw self)
    | inr (d, e) ↦ rw (e, make_parent)
  ]

  -- fsEnsureParents changes nothing at the path itself.
  pub lookup-ensure_parents :
      (fs : Fs D) (p : Bytes) → lookup D (ensure_parents D now fs p).0 p ≡ lookup D fs p
  lookup-ensure_parents fs p =
      ensure_parents_induction D now fs
        (λ q r. (j : Bytes) → length q ≤ length j → lookup D r.0 j ≡ lookup D fs j)
        (λ q e j h. refl)
        (λ q r e k above j h. let shorter = length-parent q e in above j (omega arith))
        (λ q r e k above j h.
          let shorter = length-parent q e in
          lookup-make_parent r.0 (parent q) j (length-parent_pos q) (omega arith)
          ∙ above j (omega arith))
        p p (omega arith)
