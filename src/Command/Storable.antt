-- ===== src/Command/Storable.antt =====
-- The inodes through the handlers: each change that the commands make leaves every inode as the
-- structure in C holds it, with the filter of its content.
pub mod Inodes
pub mod Store
use mathlib.Core.List.{append-nil}
use mathlib.Core.Path.{subst}
use mathlib.Core.Option.{some-injective}
use redis_fs.Base.{
  ℕ, zero, suc, ℤ, ◌≡◌, ◌<◌, ◌^◌, ◌-◌, refl, sym, ap, ◌∙◌, Bool, true, false, Option, none, some,
  List, [], ◌∷◌, ◌++◌, arith, Bool-cases, Option-cases, inl, inr, ◌⊎◌, if◌then◌else◌, length,
  bytes_eq, ltb, ◌==◌, All, All-append, c_str,
}
use redis_fs.Base.ByteStrings.{Bytes, NoNul, c_str-NoNul}
use redis_fs.Bloom.{bloom_build, empty_bloom}
use redis_fs.Dict.{DictApi, or_else}
use redis_fs.Inode.{
  Inode, InodeType, Payload, file, dir, symlink, file_type, dir_type, symlink_type, inode_create,
  file_set_data, file_append_data, dir_add_child, dir_remove_child, add_name, has_name, remove_name,
}
use redis_fs.Path.{base_name, parent, root, is_root}
use redis_fs.Fs.{
  Fs, lookup, insert, remove, write_inode, update_parent, link_to_parent, link_to_parent_at,
  unlink_from_parent, object_create, make_parent, ensure_loop, ensure_parents,
}
use redis_fs.Fs.Lookup.{lookup-insert, lookup-remove, lookup-write_inode, update_parent_cases}
use redis_fs.Rdb.Round.{IsPlain, IsStorable}
use redis_fs.Text.Resize.{resized, resized_bloom}
use redis_fs.Command.{fresh}
use redis_fs.Command.Remove.{detach}
use redis_fs.Command.Remove.Keeps.{delete_recursive-keeps}
use redis_fs.Command.Write.{create, new_file, append_to, overwrite}
use redis_fs.Command.Link.{new_link, resize}
use redis_fs.Command.Keeps.{SlotHolds, Invariant, FitsAs}
use redis_fs.Command.Storable.Inodes.{
  with_payload, same, dir_add_child-IsStorable, dir_remove_child-IsStorable, at_time-IsStorable,
  inode_create-IsStorable, file_set_data-IsStorable, file_append_data-IsStorable, resized_bloom_lem,
}
use redis_fs.Command.Storable.Store.{
  AllStorable, found, write_inode-AllStorable, insert-AllStorable, remove-AllStorable,
  linked-AllStorable, linked_at-AllStorable, unlinked-AllStorable, parents-AllStorable,
  fresh-AllStorable,
}

module _ (D : DictApi Inode) where
  pub made-AllStorable :
      (now : ℤ) (t : InodeType) (fs : Fs D) (p : Bytes)
      → AllStorable D fs
      → lookup D fs p ≡ none
      → AllStorable D (insert D fs p (inode_create now t 0))
  made-AllStorable now t fs p h e =
      insert-AllStorable D fs p (inode_create now t 0) h (inode_create-IsStorable now t)

  pub link_made-AllStorable :
      (now : ℤ) (target : Bytes) (fs : Fs D) (p : Bytes)
      → AllStorable D fs
      → lookup D fs p ≡ none
      → AllStorable D (insert D fs p (new_link D now target))
  unfolding new_link
  link_made-AllStorable now target fs p h e =
      let plain = inode_create now symlink_type 0 in
      insert-AllStorable D fs p (new_link D now target) h (
        with_payload (new_link D now target) plain (same plain)
          (inode_create-IsStorable now symlink_type) (c_str-NoNul target))

  pub created-AllStorable :
      (now : ℤ) (fs : Fs D) (p content : Bytes)
      → AllStorable D fs
      → lookup D fs p ≡ none
      → AllStorable D (create D now fs p (new_file D now content) content)
  unfolding create new_file lookup inode_create
  created-AllStorable now fs p content h e = linked_at-AllStorable D now _ p (
      insert-AllStorable D fs p (new_file D now content) h (
        file_set_data-IsStorable (inode_create now file_type 0) [] empty_bloom content refl
          (inode_create-IsStorable now file_type)))

  -- A file with other bytes, under any count of bytes.
  pub appended-AllStorable :
      (now : ℤ) (fs : Fs D) (p : Bytes) (i : Inode) (old bloom content : Bytes)
      → AllStorable D fs
      → lookup D fs p ≡ some i
      → i.payload ≡ file old bloom
      → AllStorable D (append_to D now fs p i content)
  unfolding append_to lookup
  appended-AllStorable now fs p i old bloom content h e k =
      write_inode-AllStorable D fs p (record (file_append_data i content) { mtime = now }) h
        (at_time-IsStorable now (file_append_data i content)
          (file_append_data-IsStorable i old bloom content k (h p i e)))

  pub overwritten-AllStorable :
      (now : ℤ) (fs : Fs D) (p : Bytes) (i : Inode) (old bloom content : Bytes)
      → AllStorable D fs
      → lookup D fs p ≡ some i
      → i.payload ≡ file old bloom
      → AllStorable D (overwrite D now fs p i old content)
  unfolding overwrite lookup
  overwritten-AllStorable now fs p i old bloom content h e k =
      write_inode-AllStorable D fs p (record (file_set_data i content) { mtime = now }) h
        (at_time-IsStorable now (file_set_data i content)
          (file_set_data-IsStorable i old bloom content k (h p i e)))

  pub resized-AllStorable :
      (now : ℤ) (n : ℕ) (fs : Fs D) (p : Bytes) (i : Inode) (old bloom : Bytes)
      → AllStorable D fs
      → lookup D fs p ≡ some i
      → i.payload ≡ file old bloom
      → AllStorable D (resize D now n fs p i old bloom)
  unfolding resize lookup
  resized-AllStorable now n fs p i old bloom h e k =
      let j : Inode = record i {
        payload = file (resized n old) (resized_bloom n old bloom);
        mtime = now;
      } in
      let stored : bloom ≡ bloom_build old = rw k at (h p i e).plain in
      write_inode-AllStorable D fs p j h
        (with_payload j i (same i) (h p i e) (resized_bloom_lem n old bloom stored))

  pub written-AllStorable :
      (fs : Fs D) (p : Bytes) (j i : Inode)
      → AllStorable D fs
      → lookup D fs p ≡ some i
      → j.payload ≡ i.payload
      → FitsAs j i
      → AllStorable D (write_inode D fs p j)
  written-AllStorable fs p j i h e k f =
      write_inode-AllStorable D fs p j h (with_payload j i f (h p i e) (rw k (h p i e).plain))

  pub detach-AllStorable :
      (now : ℤ) (fs : Fs D) (p : Bytes) → AllStorable D fs → AllStorable D (detach D now fs p)
  unfolding detach
  detach-AllStorable now fs p h = elim (Bool-cases (is_root p)) [
    | inl e ↦ rw e (remove-AllStorable D fs p h)
    | inr e ↦
        rw e (
          remove-AllStorable D (unlink_from_parent D now fs p) p
            (unlinked-AllStorable D now fs p h))
  ]

  -- That every inode is storable, as an invariant of the commands.
  abbrev pub storable : Invariant D
  storable = record {
    Held = SlotHolds D (AllStorable D);
    Clean = λ b. Unit;
    IsPath = λ b. Unit;
    Ready = λ fs b. Unit;
    named = λ raw p c e. tt;
    target = λ fs p q c e. tt;
    begun = λ now e. fresh-AllStorable D now;
    emptied = λ fs c. tt;
    parents = λ now fs p c is. parents-AllStorable D now fs p c;
    parents_ready = λ now fs p c is e. tt;
    dir_ready = λ fs p c e. tt;
    deleted = λ fuel now fs fs' p c is nr e.
        delete_recursive-keeps D now (AllStorable D) (detach-AllStorable now) fuel fs fs' p e c;
    removed = λ now fs p i c is nr e l.
        remove-AllStorable D (unlink_from_parent D now fs p) p (unlinked-AllStorable D now fs p c);
    made = λ now t fs p c is r h.
        linked_at-AllStorable D now (insert D fs p (inode_create now t 0)) p
          (made-AllStorable now t fs p c h);
    file_made = λ now fs p c is r h.
        linked-AllStorable D (insert D fs p (inode_create now file_type 0)) p
          (made-AllStorable now file_type fs p c h);
    link_made = λ now target fs p c is r h.
        linked_at-AllStorable D now (insert D fs p (new_link D now target)) p
          (link_made-AllStorable now target fs p c h);
    created = λ now fs p content c is r h. created-AllStorable now fs p content c h;
    appended = appended-AllStorable;
    overwritten = overwritten-AllStorable;
    resized = resized-AllStorable;
    written = written-AllStorable;
  }
