-- ===== src/Command/Storable/Store.antt =====
-- What each change of the dictionary leaves of the inodes: each is as the structure in C holds it.
use mathlib.Core.Path.{subst}
use mathlib.Core.Option.{some-injective}
use redis_fs.Base.{
  ℤ, ◌≡◌, refl, sym, ◌∙◌, Bool, true, false, Option, none, some, Bool-cases, Option-cases, inl, inr,
  if◌then◌else◌, bytes_eq,
}
use redis_fs.Base.ByteStrings.{Bytes}
use redis_fs.Dict.{DictApi, or_else}
use redis_fs.Inode.{Inode, dir_type, inode_create, dir_add_child, dir_remove_child}
use redis_fs.Path.{base_name, parent, root}
use redis_fs.Fs.{
  Fs, lookup, insert, remove, write_inode, update_parent, link_to_parent, link_to_parent_at,
  unlink_from_parent, object_create, make_parent, ensure_parents,
}
use redis_fs.Fs.Ensure.{ensure_parents_induction}
use redis_fs.Fs.Lookup.{lookup-insert, lookup-remove, lookup-write_inode, update_parent_cases}
use redis_fs.Rdb.Round.{IsStorable}
use redis_fs.Command.{fresh}
use redis_fs.Command.Storable.Inodes.{
  dir_add_child-IsStorable, dir_remove_child-IsStorable, at_time-IsStorable,
  inode_create-IsStorable,
}

module _ (D : DictApi Inode) where
  -- Every inode is as the structure in C holds it.
  abbrev pub AllStorable : Fs D → Type 0
  AllStorable fs = (p : Bytes) (i : Inode) → lookup D fs p ≡ some i → IsStorable i

  pub found :
      (P : Inode → Type 0) (b : Bool) (i : Inode) (o : Option Inode)
      → P i
      → ((j : Inode) → o ≡ some j → P j)
      → (j : Inode) → (if b then some i else o) ≡ some j
      → P j
  found P true i o h k j e = subst P (some-injective i j e) h
  found P false i o h k j e = k j e

  pub write_inode-AllStorable :
      (fs : Fs D) (p : Bytes) (i : Inode)
      → AllStorable fs
      → IsStorable i
      → AllStorable (write_inode D fs p i)
  write_inode-AllStorable fs p i h k q j e =
      found IsStorable (bytes_eq p q) i (lookup D fs q) k (h q) j
        (sym (lookup-write_inode D fs p q i) ∙ e)

  pub insert-AllStorable :
      (fs : Fs D) (p : Bytes) (i : Inode)
      → AllStorable fs
      → IsStorable i
      → AllStorable (insert D fs p i)
  insert-AllStorable fs p i h k q j e =
      found IsStorable (bytes_eq p q) (or_else (lookup D fs p) i) (lookup D fs q)
        (kept (lookup D fs p) refl) (h q) j (sym (lookup-insert D fs p q i) ∙ e)
    where
      kept : (o : Option Inode) → lookup D fs p ≡ o → IsStorable (or_else o i)
      kept none x = k
      kept (some d) x = h p d x

  pub remove-AllStorable : (fs : Fs D) (p : Bytes) → AllStorable fs → AllStorable (remove D fs p)
  remove-AllStorable fs p h q j e = elim (Bool-cases (bytes_eq p q)) [
    | inl x ↦ cc (rw x at (lookup-remove D fs p q), e)
    | inr x ↦ h q j (sym (rw x at (lookup-remove D fs p q)) ∙ e)
  ]

  update_parent-AllStorable :
      (fs : Fs D) (p : Bytes) (f : Inode → Inode)
      → ((d : Inode) → IsStorable d → IsStorable (f d))
      → AllStorable fs
      → AllStorable (update_parent D fs p f)
  update_parent-AllStorable fs p f k h = elim (update_parent_cases D fs p f) [
    | inl e ↦ rw e h
    | inr (d, there, is, e) ↦
        rw e (write_inode-AllStorable fs (parent p) (f d) h (k d (h (parent p) d there)))
  ]

  pub linked-AllStorable :
      (fs : Fs D) (p : Bytes) → AllStorable fs → AllStorable (link_to_parent D fs p)
  unfolding link_to_parent
  linked-AllStorable fs p h =
      update_parent-AllStorable fs p (λ d. dir_add_child d (base_name p))
        (λ d. dir_add_child-IsStorable d (base_name p)) h

  pub linked_at-AllStorable :
      (now : ℤ) (fs : Fs D) (p : Bytes)
      → AllStorable fs
      → AllStorable (link_to_parent_at D now fs p)
  unfolding link_to_parent_at
  linked_at-AllStorable now fs p h =
      update_parent-AllStorable fs p (λ d. record (dir_add_child d (base_name p)) { mtime = now })
        (λ d k.
          at_time-IsStorable now (dir_add_child d (base_name p))
            (dir_add_child-IsStorable d (base_name p) k))
        h

  pub unlinked-AllStorable :
      (now : ℤ) (fs : Fs D) (p : Bytes)
      → AllStorable fs
      → AllStorable (unlink_from_parent D now fs p)
  unfolding unlink_from_parent
  unlinked-AllStorable now fs p h =
      update_parent-AllStorable fs p
        (λ d. record ((dir_remove_child d (base_name p)).0) { mtime = now })
        (λ d k.
          at_time-IsStorable now (dir_remove_child d (base_name p)).0
            (dir_remove_child-IsStorable d (base_name p) k))
        h

  make_parent-AllStorable :
      (now : ℤ) (fs : Fs D) (p : Bytes) → AllStorable fs → AllStorable (make_parent D now fs p).0
  unfolding make_parent
  make_parent-AllStorable now fs p h = elim (Option-cases (lookup D fs p)) [
    | inl e ↦
        rw (make_parent, e)
          (linked-AllStorable (insert D fs p (inode_create now dir_type 0)) p (
            insert-AllStorable fs p (inode_create now dir_type 0) h
              (inode_create-IsStorable now dir_type)))
    | inr (d, e) ↦ rw (make_parent, e) h
  ]

  pub parents-AllStorable :
      (now : ℤ) (fs : Fs D) (p : Bytes) → AllStorable fs → AllStorable (ensure_parents D now fs p).0
  parents-AllStorable now fs p h =
      ensure_parents_induction D now fs (λ q r. AllStorable r.0) (λ q e. h) (λ q r e k above. above)
        (λ q r e k above. make_parent-AllStorable now r.0 (parent q) above) p

  pub fresh-AllStorable : (now : ℤ) → AllStorable (fresh D now)
  unfolding fresh lookup object_create
  fresh-AllStorable now =
      insert-AllStorable (object_create D) root (inode_create now dir_type 0) none_there
        (inode_create-IsStorable now dir_type)
    where
      none_there : AllStorable (object_create D)
      none_there p i e = cc (D.get-empty p, e)
