-- ===== src/Command/Counts.antt =====
-- The counters through the handlers: each change that the commands make keeps them right.
use redis_fs.Base.{
  ℕ, ℤ, ◌+◌, ◌-◌, ◌≡◌, refl, sym, ap, ◌∙◌, none, some, arith, Bool-cases, inl, inr, length,
  length-append, add64, sub64, ◌==◌, ltb,
}
use redis_fs.Base.ByteStrings.{Bytes}
use redis_fs.Dict.{DictApi}
use redis_fs.Inode.{
  Inode, file, file_type, dir_type, inode_create, file_set_data, type_of, file_append_data,
  file_size, dir_add_child, dir_remove_child,
}
use redis_fs.Path.{base_name, root, is_root}
use redis_fs.Fs.{
  Fs, lookup, insert, write_inode, link_to_parent_at, unlink_from_parent, object_create,
}
use redis_fs.Fs.Counts.{
  IsCounted, bytes_of, insert-counts, insert-IsCounted, write_inode-counts, write_inode-IsCounted,
  add_bytes-counts, sub_bytes-counts, rebalance, update_parent-IsCounted, remove-IsCounted,
  object_create-IsCounted,
}
use redis_fs.Fs.Parents.{
  is_dir-dir_add_child, bytes_of_new, link_to_parent-IsCounted, ensure_parents-IsCounted,
}
use redis_fs.Fs.Leaves.{is_dir-dir_remove_child}
use redis_fs.Text.Resize.{resized, resized_bloom, resized_total}
use redis_fs.Text.ResizeBytes.{length-resized}
use redis_fs.Command.{fresh}
use redis_fs.Command.Remove.{detach}
use redis_fs.Command.Remove.Keeps.{delete_recursive-keeps}
use redis_fs.Command.Write.{create, new_file, append_to, overwrite}
use redis_fs.Command.Link.{new_link, resize}
use redis_fs.Command.Keeps.{SlotHolds, Invariant}

pub bytes_of-new_file :
    (D : DictApi Inode) (now : ℤ) (content : Bytes)
    → bytes_of (new_file D now content) ≡ length content
unfolding new_file file_set_data inode_create
bytes_of-new_file D now content = refl

bytes_of-file_set_data :
    (i : Inode) (old bloom content : Bytes)
    → i.payload ≡ file old bloom
    → (bytes_of (file_set_data i content) ≡ length content)
      × (type_of (file_set_data i content).payload ≡ file_type)
unfolding file_set_data
bytes_of-file_set_data i old bloom content e = (rw (e, file_set_data), rw (e, file_set_data))

bytes_of-file_append_data :
    (i : Inode) (old bloom content : Bytes)
    → i.payload ≡ file old bloom
    → (bytes_of (file_append_data i content) ≡ length old + length content)
      × (type_of (file_append_data i content).payload ≡ file_type)
unfolding file_append_data
bytes_of-file_append_data i old bloom content e = elim (Bool-cases (length content == 0)) [
  | inl q ↦ (rw (e, file_append_data, q, e) (ground arith), rw (e, file_append_data, q, e))
  | inr q ↦ (rw (e, file_append_data, q) (length-append old content), rw (e, file_append_data, q))
]

module _ (D : DictApi Inode) where
  pub fresh-IsCounted : (now : ℤ) → IsCounted D (fresh D now)
  unfolding fresh lookup object_create
  fresh-IsCounted now =
      insert-IsCounted D (object_create D) root (inode_create now dir_type 0)
        (object_create-IsCounted D) (D.get-empty root) (bytes_of_new now dir_type)

  pub link_to_parent_at-IsCounted :
      (now : ℤ) (fs : Fs D) (p : Bytes)
      → IsCounted D fs
      → IsCounted D (link_to_parent_at D now fs p)
  unfolding link_to_parent_at
  link_to_parent_at-IsCounted now fs p c =
      update_parent-IsCounted D fs p (λ d. record (dir_add_child d (base_name p)) { mtime = now })
        (λ d. is_dir-dir_add_child d (base_name p)) c

  pub create-IsCounted :
      (now : ℤ) (fs : Fs D) (p : Bytes) (i : Inode) (content : Bytes)
      → IsCounted D fs
      → lookup D fs p ≡ none
      → bytes_of i ≡ length content
      → IsCounted D (create D now fs p i content)
  unfolding create
  create-IsCounted now fs p i content c h e =
      let k = insert-counts D fs p i c h in
      let fs' = insert D fs p i in
      link_to_parent_at-IsCounted now
        (record fs' { total_data_size = add64 fs'.total_data_size (length content) }) p
        (add_bytes-counts D fs' (length content) (rw e at k))

  pub append_to-IsCounted :
      (now : ℤ) (fs : Fs D) (p : Bytes) (i : Inode) (old bloom content : Bytes)
      → IsCounted D fs
      → lookup D fs p ≡ some i
      → i.payload ≡ file old bloom
      → IsCounted D (append_to D now fs p i content)
  unfolding append_to
  append_to-IsCounted now fs p i old bloom content c h e =
      let j : Inode = record (file_append_data i content) { mtime = now } in
      let (size, type) = bytes_of-file_append_data i old bloom content e in
      let k = write_inode-counts D fs p j i c h (type ∙ sym (ap type_of e)) in
      add_bytes-counts D (write_inode D fs p j) (length content) (
        rebalance D (write_inode D fs p j) (0 + length content) 0 k
          (omega (arith, size, ap file_size e)))

  pub overwrite-IsCounted :
      (now : ℤ) (fs : Fs D) (p : Bytes) (i : Inode) (old bloom content : Bytes)
      → IsCounted D fs
      → lookup D fs p ≡ some i
      → i.payload ≡ file old bloom
      → IsCounted D (overwrite D now fs p i old content)
  unfolding overwrite
  overwrite-IsCounted now fs p i old bloom content c h e =
      let j : Inode = record (file_set_data i content) { mtime = now } in
      let (size, type) = bytes_of-file_set_data i old bloom content e in
      let k = write_inode-counts D fs p j i c h (type ∙ sym (ap type_of e)) in
      let fs' = write_inode D fs p j in
      add_bytes-counts D (record fs' { total_data_size = sub64 fs'.total_data_size (length old) })
        (length content)
        (sub_bytes-counts D fs' (length old) (
          rebalance D fs' (0 + length content) (0 + length old) k
            (omega (arith, size, ap file_size e))))

  pub unlink-IsCounted :
      (now : ℤ) (fs : Fs D) (p : Bytes)
      → IsCounted D fs
      → IsCounted D (unlink_from_parent D now fs p)
  unfolding unlink_from_parent
  unlink-IsCounted now fs p c =
      update_parent-IsCounted D fs p
        (λ d. record ((dir_remove_child d (base_name p)).0) { mtime = now })
        (λ d. is_dir-dir_remove_child d (base_name p)) c

  pub resize-IsCounted :
      (now : ℤ) (n : ℕ) (fs : Fs D) (p : Bytes) (i : Inode) (old bloom : Bytes)
      → IsCounted D fs
      → lookup D fs p ≡ some i
      → i.payload ≡ file old bloom
      → IsCounted D (resize D now n fs p i old bloom)
  unfolding resize resized_total
  resize-IsCounted now n fs p i old bloom c e q =
      let j : Inode = record i {
        payload = file (resized n old) (resized_bloom n old bloom);
        mtime = now;
      } in
      let fs' = write_inode D fs p j in
      let was : bytes_of i ≡ length old = ap file_size q in
      let is : bytes_of j ≡ n = length-resized n old in
      let k = write_inode-counts D fs p j i c e (sym (ap type_of q)) in
      elim (Bool-cases (n == 0)) [
        | inl z ↦ rw z (
            sub_bytes-counts D fs' (length old)
              (rebalance D fs' 0 (0 + length old) k (ground arith)))
        | inr z ↦ elim (Bool-cases (ltb n (length old))) [
          | inl lt ↦
              rw (z, lt)
                (sub_bytes-counts D fs' (length old - n)
                  (rebalance D fs' 0 (0 + (length old - n)) k (ground arith)))
          | inr ge ↦ elim (Bool-cases (n == length old)) [
            | inl same ↦ rw (z, ge, same) (rebalance D fs' 0 0 k (ground arith))
            | inr more ↦
                rw (z, ge, more)
                  (add_bytes-counts D fs' (n - length old)
                    (rebalance D fs' (0 + (n - length old)) 0 k (ground arith)))
          ]
        ]
      ]

  pub made-IsCounted :
      (now : ℤ) (target : Bytes) (fs : Fs D) (p : Bytes)
      → IsCounted D fs
      → lookup D fs p ≡ none
      → IsCounted D (insert D fs p (new_link D now target))
  unfolding new_link
  made-IsCounted now target fs p c h = insert-IsCounted D fs p (new_link D now target) c h refl

  pub detach-IsCounted :
      (now : ℤ) (fs : Fs D) (p : Bytes) → IsCounted D fs → IsCounted D (detach D now fs p)
  unfolding detach
  detach-IsCounted now fs p c = elim (Bool-cases (is_root p)) [
    | inl e ↦ rw e (remove-IsCounted D fs p c)
    | inr e ↦
        rw e (remove-IsCounted D (unlink_from_parent D now fs p) p (unlink-IsCounted now fs p c))
  ]

  -- The counters as an invariant of the commands.
  abbrev pub counts : Invariant D
  counts = record {
    Held = SlotHolds D (IsCounted D);
    Clean = λ b. Unit;
    IsPath = λ b. Unit;
    Ready = λ fs b. Unit;
    named = λ raw p c e. tt;
    target = λ fs p q c e. tt;
    begun = λ now e. fresh-IsCounted now;
    emptied = λ fs c. tt;
    parents = λ now fs p c is. ensure_parents-IsCounted D now fs p c;
    parents_ready = λ now fs p c is e. tt;
    dir_ready = λ fs p c e. tt;
    deleted = λ fuel now fs fs' p c is nr e.
        delete_recursive-keeps D now (IsCounted D) (detach-IsCounted now) fuel fs fs' p e c;
    removed = λ now fs p i c is nr e l.
        remove-IsCounted D (unlink_from_parent D now fs p) p (unlink-IsCounted now fs p c);
    made = λ now t fs p c is r h.
        link_to_parent_at-IsCounted now (insert D fs p (inode_create now t 0)) p
          (insert-IsCounted D fs p (inode_create now t 0) c h (bytes_of_new now t));
    file_made = λ now fs p c is r h.
        link_to_parent-IsCounted D (insert D fs p (inode_create now file_type 0)) p
          (insert-IsCounted D fs p (inode_create now file_type 0) c h (bytes_of_new now file_type));
    link_made = λ now target fs p c is r h.
        link_to_parent_at-IsCounted now (insert D fs p (new_link D now target)) p
          (made-IsCounted now target fs p c h);
    created = λ now fs p content c is r h.
        create-IsCounted now fs p (new_file D now content) content c h
          (bytes_of-new_file D now content);
    appended = append_to-IsCounted;
    overwritten = overwrite-IsCounted;
    resized = resize-IsCounted;
    written =
        λ fs p j i c h e f. write_inode-IsCounted D fs p j i c h (ap type_of e) (ap file_size e);
  }
