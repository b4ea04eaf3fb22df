-- ===== src/Command/Tree.antt =====
-- The tree of paths as an invariant of the handlers, for arguments with no NUL.
pub mod Shapes
pub mod Names
pub mod Added
pub mod Removed
pub mod Changes
pub mod Deleted
pub mod Paths
use mathlib.Core.Option.{some-injective}
use redis_fs.Base.{
  arith, ℕ, ℤ, ◌≡◌, refl, sym, ap, ◌∙◌, Bool, true, false, Option, none, some, List, [], ◌∷◌,
  Bool-cases, inl, inr, NoNul, c_str, c_str_of_NoNul, if◌then◌else◌, bytes_eq, bytes_eq_refl,
  bytes_eq→eq, ltb, length, ◌==◌,
}
use redis_fs.Base.ByteStrings.{Bytes}
use redis_fs.Dict.{DictApi, or_else}
use redis_fs.Inode.{
  Inode, InodeType, Payload, file, dir, symlink, file_type, dir_type, symlink_type, inode_create,
  file_set_data, file_append_data, dir_add_child, has_name,
}
use redis_fs.Path.{root, normalize, is_root, base_name}
use redis_fs.Path.Plain.{IsCPath, normalize-IsCPath, not_root}
use redis_fs.Path.Parent.{is_root→eq}
use redis_fs.Fs.{Fs, lookup, insert, write_inode, object_create, link_to_parent, link_to_parent_at}
use redis_fs.Fs.Lookup.{lookup-insert}
use redis_fs.Text.Resize.{resized, resized_bloom}
use redis_fs.Command.{fresh}
use redis_fs.Command.Write.{parent_is_dir, create, new_file, append_to, overwrite}
use redis_fs.Command.Link.{new_link, resize}
use redis_fs.Command.Keeps.{SlotHolds, Invariant, FitsAs}
use redis_fs.Command.Tree.Shapes.{
  Shape, leaf, branch, shape, IsTree, branch-injective, nothing_listed,
}
use redis_fs.Command.Tree.Added.{IsBare}
use redis_fs.Command.Tree.Changes.{shapes, shape_at, shape_at-if, written-IsTree, new-IsTree}
use redis_fs.Command.Tree.Deleted.{delete_recursive-IsTree, removed_empty-IsTree}
use redis_fs.Command.Tree.Paths.{resolve_path-IsCPath, ensure_parents-Prepared}

pub named-IsCPath : (raw p : Bytes) → NoNul raw → normalize raw ≡ some p → IsCPath (c_str p)
named-IsCPath raw p h e = let is = normalize-IsCPath raw p h e in rw (c_str_of_NoNul p is.plain) is

pub IsBare-inode_create : (now : ℤ) (t : InodeType) → IsBare (shape (inode_create now t 0).payload)
unfolding inode_create
IsBare-inode_create now file_type cs e = cc e
IsBare-inode_create now dir_type cs e = sym (branch-injective e)
IsBare-inode_create now symlink_type cs e = cc e

shape-file_set_data :
    (i : Inode) (old bloom content : Bytes)
    → i.payload ≡ file old bloom
    → shape (file_set_data i content).payload ≡ leaf
unfolding file_set_data
shape-file_set_data i old bloom content e = rw (file_set_data, e) refl

shape-file_append_data :
    (i : Inode) (old bloom content : Bytes)
    → i.payload ≡ file old bloom
    → shape (file_append_data i content).payload ≡ leaf
unfolding file_append_data
shape-file_append_data i old bloom content e = elim (Bool-cases (length content == 0)) [
  | inl q ↦ rw (file_append_data, e, q) (ap shape e)
  | inr q ↦ rw (file_append_data, e, q) refl
]

module _ (D : DictApi Inode) where
  -- The paths of a filesystem are a tree.
  abbrev pub Holds : Fs D → Type 0
  Holds fs = IsTree (shapes D fs)

  shapes-fresh :
      (now : ℤ) (q : Bytes)
      → shapes D (fresh D now) q ≡ (if bytes_eq root q then some (branch []) else none)
  unfolding fresh object_create lookup inode_create
  shapes-fresh now q =
      let new = inode_create now dir_type 0 in
      let there : lookup D (fresh D now) q ≡ (if bytes_eq root q then some new else none) =
        lookup-insert D (object_create D) root q new ∙ rw (D.get-empty root, D.get-empty q) refl in
      ap shape_at there ∙ shape_at-if (bytes_eq root q) (some new) none

  -- An empty directory at "/".
  pub begun-IsTree : (now : ℤ) → Holds (fresh D now)
  unfolding has_name
  begun-IsTree now = record {
    top = ([], shapes-fresh now root ∙ rw (bytes_eq_refl root) refl);
    above = λ p s e nr. absurd (only_root p s e nr tt);
    names = λ p cs e. rw (empty p cs e) (tt, tt);
    present = λ p cs c e h. absurd (nothing_listed c (rw (empty p cs e) at h));
  }
    where
      only_root :
          (p : Bytes) (s : Shape)
          → shapes D (fresh D now) p ≡ some s
          → is_root p ≡ false
          → ¬ (Unit {0})
      only_root p s e nr u = elim (Bool-cases (bytes_eq root p)) [
        | inl k ↦ not_root p nr (sym (bytes_eq→eq root p k))
        | inr k ↦
            let nothing : shapes D (fresh D now) p ≡ none = shapes-fresh now p ∙ rw k refl in
            cc (e, nothing)
      ]

      empty : (p : Bytes) (cs : List Bytes) → shapes D (fresh D now) p ≡ some (branch cs) → cs ≡ []
      empty p cs e = elim (Bool-cases (bytes_eq root p)) [
        | inl k ↦
            let here : shapes D (fresh D now) p ≡ some (branch []) =
              shapes-fresh now p ∙ rw k refl in
            branch-injective (some-injective (branch cs) (branch []) (sym e ∙ here))
        | inr k ↦
            let nothing : shapes D (fresh D now) p ≡ none = shapes-fresh now p ∙ rw k refl in
            cc (e, nothing)
      ]

  not_top : (fs : Fs D) (p : Bytes) → Holds fs → lookup D fs p ≡ none → is_root p ≡ false
  not_top fs p t e = elim (Bool-cases (is_root p)) [
    | inl k ↦ let (cs, top) = t.top in cc (ap (shapes D fs) (is_root→eq p k), ap shape_at e, top)
    | inr k ↦ k
  ]

  -- The inode that a command makes, before its parent lists it.
  inserted :
      (fs : Fs D) (p q : Bytes) (i : Inode)
      → lookup D fs p ≡ none
      → lookup D (insert D fs p i) q ≡ (if bytes_eq p q then some i else lookup D fs q)
  inserted fs p q i e = lookup-insert D fs p q i ∙ rw e refl

  pub linked-IsTree :
      (fs : Fs D) (p : Bytes) (i : Inode)
      → Holds fs
      → IsCPath p
      → parent_is_dir D fs p ≡ true
      → lookup D fs p ≡ none
      → IsBare (shape i.payload)
      → Holds (link_to_parent D (insert D fs p i) p)
  unfolding link_to_parent
  linked-IsTree fs p i t path ready e bare =
      new-IsTree D fs (insert D fs p i) p i (λ d. dir_add_child d (base_name p)) t path
        (not_top fs p t e) ready e bare (λ q. inserted fs p q i e) (λ d. refl)

  -- The same where the parent gets a time, and the count of bytes may be another.
  pub linked_at-IsTree :
      (now : ℤ) (bytes : ℕ) (fs : Fs D) (p : Bytes) (i : Inode)
      → Holds fs
      → IsCPath p
      → parent_is_dir D fs p ≡ true
      → lookup D fs p ≡ none
      → IsBare (shape i.payload)
      → Holds (link_to_parent_at D now (record (insert D fs p i) { total_data_size = bytes }) p)
  unfolding link_to_parent_at lookup
  linked_at-IsTree now bytes fs p i t path ready e bare =
      new-IsTree D fs (record (insert D fs p i) { total_data_size = bytes }) p i
        (λ d. record (dir_add_child d (base_name p)) { mtime = now }) t path (not_top fs p t e)
        ready e bare (λ q. inserted fs p q i e) (λ d. refl)

  IsBare-new_file : (now : ℤ) (content : Bytes) → IsBare (shape (new_file D now content).payload)
  unfolding new_file inode_create
  IsBare-new_file now content cs e =
      cc (shape-file_set_data (inode_create now file_type 0) [] _ content refl, e)

  pub IsBare-new_link : (now : ℤ) (target : Bytes) → IsBare (shape (new_link D now target).payload)
  unfolding new_link
  IsBare-new_link now target cs e = cc e

  -- A file whose bytes are written.
  file_written :
      (fs : Fs D) (p : Bytes) (j i : Inode) (old bloom : Bytes)
      → Holds fs
      → lookup D fs p ≡ some i
      → i.payload ≡ file old bloom
      → shape j.payload ≡ leaf
      → Holds (write_inode D fs p j)
  file_written fs p j i old bloom t e k l = written-IsTree D fs p j i t e (l ∙ sym (ap shape k))

  pub created-IsTree :
      (now : ℤ) (fs : Fs D) (p content : Bytes)
      → Holds fs
      → IsCPath p
      → parent_is_dir D fs p ≡ true
      → lookup D fs p ≡ none
      → Holds (create D now fs p (new_file D now content) content)
  unfolding create
  created-IsTree now fs p content t path ready e =
      linked_at-IsTree now _ fs p (new_file D now content) t path ready e
        (IsBare-new_file now content)

  pub appended-IsTree :
      (now : ℤ) (fs : Fs D) (p : Bytes) (i : Inode) (old bloom content : Bytes)
      → Holds fs
      → lookup D fs p ≡ some i
      → i.payload ≡ file old bloom
      → Holds (append_to D now fs p i content)
  unfolding append_to lookup
  appended-IsTree now fs p i old bloom content t e k =
      file_written fs p (record (file_append_data i content) { mtime = now }) i old bloom t e k
        (shape-file_append_data i old bloom content k)

  pub overwritten-IsTree :
      (now : ℤ) (fs : Fs D) (p : Bytes) (i : Inode) (old bloom content : Bytes)
      → Holds fs
      → lookup D fs p ≡ some i
      → i.payload ≡ file old bloom
      → Holds (overwrite D now fs p i old content)
  unfolding overwrite lookup
  overwritten-IsTree now fs p i old bloom content t e k =
      file_written fs p (record (file_set_data i content) { mtime = now }) i old bloom t e k
        (shape-file_set_data i old bloom content k)

  pub resized-IsTree :
      (now : ℤ) (n : ℕ) (fs : Fs D) (p : Bytes) (i : Inode) (old bloom : Bytes)
      → Holds fs
      → lookup D fs p ≡ some i
      → i.payload ≡ file old bloom
      → Holds (resize D now n fs p i old bloom)
  unfolding resize lookup
  resized-IsTree now n fs p i old bloom t e k =
      file_written fs p
        (record i { payload = file (resized n old) (resized_bloom n old bloom); mtime = now }) i old
        bloom t e k refl

  -- That the paths are a tree, as an invariant of the commands.
  abbrev pub tree : Invariant D
  tree = record {
    Held = SlotHolds D (Holds);
    Clean = NoNul;
    IsPath = IsCPath;
    Ready = λ fs p. parent_is_dir D fs p ≡ true;
    named = named-IsCPath;
    target = resolve_path-IsCPath D;
    begun = λ now e. begun-IsTree now;
    emptied = λ fs c. tt;
    parents = λ now fs p t path. (ensure_parents-Prepared D now fs p t path).0;
    parents_ready = λ now fs p t path. (ensure_parents-Prepared D now fs p t path).1;
    dir_ready = λ fs p t e. e;
    deleted = λ fuel now fs fs' p t path nr e.
        (delete_recursive-IsTree D fuel now fs fs' p e t path nr).0;
    removed = removed_empty-IsTree D;
    made = λ now t fs p h path ready e.
        linked_at-IsTree now (insert D fs p (inode_create now t 0)).total_data_size fs p
          (inode_create now t 0) h path ready e (IsBare-inode_create now t);
    file_made = λ now fs p h path ready e.
        linked-IsTree fs p (inode_create now file_type 0) h path ready e
          (IsBare-inode_create now file_type);
    link_made = λ now target fs p h path ready e.
        linked_at-IsTree now (insert D fs p (new_link D now target)).total_data_size fs p
          (new_link D now target) h path ready e (IsBare-new_link now target);
    created = created-IsTree;
    appended = appended-IsTree;
    overwritten = overwritten-IsTree;
    resized = resized-IsTree;
    written = λ fs p j i t e k f. written-IsTree D fs p j i t e (ap shape k);
  }
