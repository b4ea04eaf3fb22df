-- ===== src/Command/Move/Renames.antt =====
-- MV of a file or a link, as a renaming.
use redis_fs.Base.{
  ℤ, ◌≡◌, refl, ap, ◌∙◌, Bool, true, false, Option, none, some, arith, Bool-cases, Option-cases,
  inl, inr, if◌then◌else◌, bytes_eq, bytes_eq_iff, bytes_eq_refl, String,
}
use redis_fs.Base.ByteStrings.{Bytes}
use redis_fs.Dict.{DictApi}
use redis_fs.Inode.{Inode, is_dir}
use redis_fs.Path.{is_root, parent}
use redis_fs.Fs.{Fs, lookup, ensure_parents, link_to_parent_at, unlink_from_parent, update_parent}
use redis_fs.Fs.Lookup.{update_parent_cases, lookup-write_inode}
use redis_fs.Fs.Parents.{lookup-ensure_parents}
use redis_fs.Fs.Leaves.{
  leaf, not_dir, not_dir-some, leaf-ensure_parents, leaf-link_to_parent_at, leaf-unlink_from_parent,
}
use redis_fs.Command.{simple, holds, with_node}
use redis_fs.Command.Contents.{with_parents-ok}
use redis_fs.Command.Move.{rekey, mv_made, mv_free, mv_at}

not_dir-moved :
    (s : Inode)
    → is_dir s.payload ≡ false
    → (b c : Bool) (o : Option Inode)
    → not_dir (if b then some s else if c then none else o)
      ≡ (if b then some s else if c then none else not_dir o)
unfolding not_dir
not_dir-moved s is true c o = rw is
not_dir-moved s is false true o = refl
not_dir-moved s is false false o = refl

module _ (D : DictApi Inode) where
  -- A move to a path where nothing is.
  lookup-rekey :
      (fs : Fs D) (src dst j : Bytes) (s : Inode)
      → lookup D fs src ≡ some s
      → lookup D fs dst ≡ none
      → lookup D (rekey D fs src dst) j
        ≡ (if bytes_eq dst j then some s else if bytes_eq src j then none else lookup D fs j)
  unfolding rekey lookup
  lookup-rekey fs src dst j s there free =
      let gone : D.get (D.del fs.inodes src) dst ≡ none =
        D.get-del fs.inodes src dst ∙ ground (arith, free) in
      rw (there, rekey)
        (D.get-set (D.del fs.inodes src) dst j s ∙ rw (gone, D.get-del fs.inodes src j))

  -- What a file or link that is moved leaves: nothing at the source, and the files and links.
  abbrev pub Moved : Fs D → Fs D → Bytes → Bytes → Inode → Type 0
  Moved before after src dst s =
      (lookup D after src ≡ none)
      × ((j : Bytes)
          → leaf D after j
            ≡ (if bytes_eq dst j then some s else if bytes_eq src j then none else leaf D before j))

  -- A write to the inode of a parent makes no path.
  update_parent-none :
      (fs : Fs D) (p j : Bytes) (f : Inode → Inode)
      → lookup D fs j ≡ none
      → lookup D (update_parent D fs p f) j ≡ none
  update_parent-none fs p j f h = elim (update_parent_cases D fs p f) [
    | inl e ↦ rw e h
    | inr (d, there, is, e) ↦ elim (Bool-cases (bytes_eq (parent p) j)) [
      | inl q ↦ cc ((bytes_eq_iff (parent p) j).0 q, there, h)
      | inr q ↦ rw (e, lookup-write_inode D fs (parent p) j (f d), q) h
    ]
  ]

  -- The source of a move is another path than its free destination.
  vacated :
      (fs : Fs D) (src dst : Bytes) (s : Inode)
      → lookup D fs src ≡ some s
      → lookup D fs dst ≡ none
      → lookup D (rekey D fs src dst) src ≡ none
  vacated fs src dst s there free = elim (Bool-cases (bytes_eq dst src)) [
    | inl q ↦ cc ((bytes_eq_iff dst src).0 q, there, free)
    | inr q ↦ lookup-rekey fs src dst src s there free ∙ rw (q, bytes_eq_refl src) refl
  ]

  mv_made-Moved :
      (now : ℤ) (fs : Fs D) (src dst : Bytes) (s : Inode)
      → lookup D fs src ≡ some s
      → is_dir s.payload ≡ false
      → lookup D fs dst ≡ none
      → (after : Fs D) × ((mv_made D now src dst s fs).slot ≡ holds after)
        × Moved fs after src dst s
  unfolding mv_made leaf not_dir link_to_parent_at unlink_from_parent
  mv_made-Moved now fs src dst s there is free =
      let moved = rekey D fs src dst in
      let mid = unlink_from_parent D now moved src in
      (
        link_to_parent_at D now mid dst,
        rw is,
        (
          update_parent-none mid dst src _
              (update_parent-none moved src src _ (vacated fs src dst s there free)),
          λ j.
              leaf-link_to_parent_at D now mid dst j
              ∙ leaf-unlink_from_parent D now moved src j
              ∙ ap not_dir (lookup-rekey fs src dst j s there free)
              ∙ not_dir-moved s is (bytes_eq dst j) (bytes_eq src j) (lookup D fs j),
        ),
      )

  -- MV once its checks have found the source and a free destination.
  mv_free-Moved :
      (now : ℤ) (fs : Fs D) (src dst : Bytes) (s : Inode)
      → leaf D fs src ≡ some s
      → lookup D fs dst ≡ none
      → (mv_free D now src dst s fs).reply ≡ simple "OK"
      → (after : Fs D) × ((mv_free D now src dst s fs).slot ≡ holds after)
        × Moved fs after src dst s
  unfolding mv_free leaf
  mv_free-Moved now fs src dst s there free h =
      let (found, is) = not_dir-some (lookup D fs src) s there in
      let mid = (ensure_parents D now fs dst).0 in
      let (still, _) =
        not_dir-some (lookup D mid src) s (leaf-ensure_parents D now fs dst src ∙ there) in
      let message : String = "ERR destination parent path conflict" in
      let past = with_parents-ok D now fs dst message (mv_made D now src dst s) (rw is at h) in
      let (after, held, moved) =
        mv_made-Moved now mid src dst s still is (lookup-ensure_parents D now fs dst ∙ free) in
      (
        after,
        rw is (ap (λ o. o.slot) past ∙ held),
        (
          moved.0,
          λ j.
              moved.1 j
              ∙ ap (λ o. if bytes_eq dst j then some s else if bytes_eq src j then none else o)
                  (leaf-ensure_parents D now fs dst j),
        ),
      )

  -- If MV replies OK for a source that is a file or a link, the destination has the same inode
  -- afterwards, at the source there is no inode of any type, and the other files and links are as they
  -- were.
  pub mv_at-Moved :
      (now : ℤ) (fs : Fs D) (src dst : Bytes) (s : Inode)
      → leaf D fs src ≡ some s
      → (mv_at D now fs src dst).reply ≡ simple "OK"
      → (after : Fs D) × ((mv_at D now fs src dst).slot ≡ holds after)
        × ((lookup D after src ≡ none)
            × ((j : Bytes)
                → leaf D after j ≡ (
                    if bytes_eq dst j
                    then some s
                    else if bytes_eq src j
                    then none
                    else leaf D fs j)))
  unfolding mv_at with_node leaf
  mv_at-Moved now fs src dst s there h =
      let (found, is) = not_dir-some (lookup D fs src) s there in
      elim (Bool-cases (is_root src)) [
        | inl e ↦ cc (rw (mv_at, e) at h)
        | inr e ↦ elim (Option-cases (lookup D fs dst)) [
          | inl free ↦
              rw (mv_at, with_node, e, found, free)
                (mv_free-Moved now fs src dst s there free
                  (rw (mv_at, with_node, e, found, free) at h))
          | inr (i, taken) ↦ cc (rw (mv_at, with_node, e, found, taken) at h)
        ]
      ]
