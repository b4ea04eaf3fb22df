-- ===== src/Command/Tree/Changes.antt =====
-- The changes of a filesystem as changes of its shape.
use mathlib.Core.Path.{fun_ext}
use redis_fs.Base.{
  ℤ, ◌≡◌, refl, sym, ap, ◌∙◌, Bool, true, false, Option, none, some, List, Bool-cases, Option-cases,
  inl, inr, if◌then◌else◌, bytes_eq, bytes_eq→eq,
}
use redis_fs.Base.ByteStrings.{Bytes}
use redis_fs.Dict.{DictApi}
use redis_fs.Inode.{
  Inode, Payload, file, dir, symlink, is_dir, dir_add_child, dir_remove_child, add_name,
}
use redis_fs.Path.{parent, base_name, is_root}
use redis_fs.Path.Plain.{IsCPath}
use redis_fs.Fs.{Fs, lookup, remove, write_inode, update_parent, unlink_from_parent}
use redis_fs.Fs.Lookup.{lookup-write_inode, lookup-remove}
use redis_fs.Command.Write.{parent_is_dir}
use redis_fs.Command.Tree.Shapes.{Shape, branch, shape, Shapes, IsTree}
use redis_fs.Command.Tree.Added.{IsBare, added-IsTree}
use redis_fs.Command.Tree.Removed.{trim, removed-IsTree, was, gone, parent_ne}

abbrev pub shape_at : Option Inode → Option Shape
shape_at none = none
shape_at (some i) = some (shape i.payload)

IsTree-eq : (S S' : Shapes) → ((q : Bytes) → S' q ≡ S q) → IsTree S → IsTree S'
IsTree-eq S S' e t = rw (fun_ext e) t

pub shape_at-if :
    (b : Bool) (x y : Option Inode)
    → shape_at (if b then x else y) ≡ (if b then shape_at x else shape_at y)
shape_at-if true x y = refl
shape_at-if false x y = refl

shape-dir_add_child :
    (d : Inode) (n : Bytes) (cs : List Bytes)
    → d.payload ≡ dir cs
    → shape (dir_add_child d n).payload ≡ branch (add_name cs n)
unfolding dir_add_child
shape-dir_add_child d n cs e = rw (dir_add_child, e) refl

dir_payload : (x : Payload) → is_dir x ≡ true → (cs : List Bytes) × (x ≡ dir cs)
dir_payload (file a b) h = cc h
dir_payload (dir cs) h = (cs, refl)
dir_payload (symlink t) h = cc h

trim-dir_remove_child :
    (d : Inode) (n : Bytes)
    → some (shape (dir_remove_child d n).0.payload) ≡ trim n (some (shape d.payload))
unfolding dir_remove_child
trim-dir_remove_child d n = split d.payload refl
  where
    split :
        (x : Payload)
        → d.payload ≡ x
        → some (shape (dir_remove_child d n).0.payload) ≡ trim n (some (shape d.payload))
    split (file a b) e = rw (dir_remove_child, e) (ap (λ x. some (shape x)) e)
    split (dir cs) e = rw (dir_remove_child, e) refl
    split (symlink t) e = rw (dir_remove_child, e) (ap (λ x. some (shape x)) e)

trim-no_dir :
    (n : Bytes) (x : Payload) → is_dir x ≡ false → trim n (some (shape x)) ≡ some (shape x)
trim-no_dir n (file a b) e = refl
trim-no_dir n (dir cs) e = cc e
trim-no_dir n (symlink t) e = refl

module _ (D : DictApi Inode) where
  abbrev pub shapes : Fs D → Shapes
  shapes fs = λ q. shape_at (lookup D fs q)

  -- A write that changes no directory.
  pub written-IsTree :
      (fs : Fs D) (p : Bytes) (j i : Inode)
      → IsTree (shapes fs)
      → lookup D fs p ≡ some i
      → shape j.payload ≡ shape i.payload
      → IsTree (shapes (write_inode D fs p j))
  written-IsTree fs p j i t e k = IsTree-eq (shapes fs) (shapes (write_inode D fs p j)) same t
    where
      same : (q : Bytes) → shape_at (lookup D (write_inode D fs p j) q) ≡ shape_at (lookup D fs q)
      same q = elim (Bool-cases (bytes_eq p q)) [
        | inl m ↦
            rw (lookup-write_inode D fs p q j, m)
              (ap some k ∙ sym (ap shape_at (sym (ap (lookup D fs) (bytes_eq→eq p q m)) ∙ e)))
        | inr m ↦ rw (lookup-write_inode D fs p q j, m) refl
      ]

  parent_found :
      (fs : Fs D) (p : Bytes)
      → parent_is_dir D fs p ≡ true
      → (d : Inode) × (lookup D fs (parent p) ≡ some d) × (is_dir d.payload ≡ true)
  unfolding parent_is_dir
  parent_found fs p h = elim (Option-cases (lookup D fs (parent p))) [
    | inl e ↦ cc (rw (parent_is_dir, e) at h)
    | inr (d, e) ↦ (d, e, rw (parent_is_dir, e) at h)
  ]

  -- A new inode, which its parent is made to list.
  pub new-IsTree :
      (fs with_new : Fs D) (p : Bytes) (i : Inode) (f : Inode → Inode)
      → IsTree (shapes fs)
      → IsCPath p
      → is_root p ≡ false
      → parent_is_dir D fs p ≡ true
      → lookup D fs p ≡ none
      → IsBare (shape i.payload)
      → ((q : Bytes) → lookup D with_new q ≡ (if bytes_eq p q then some i else lookup D fs q))
      → ((d : Inode) → (f d).payload ≡ (dir_add_child d (base_name p)).payload)
      → IsTree (shapes (update_parent D with_new p f))
  unfolding update_parent
  new-IsTree fs with_new p i f t path nr ready free bare new adds =
      let (d, there, is) = parent_found fs p ready in
      let (cs, e) = dir_payload d.payload is in
      let dir_there : lookup D with_new (parent p) ≡ some d =
        new (parent p) ∙ rw (parent_ne p nr) there in
      let wrote : update_parent D with_new p f ≡ write_inode D with_new (parent p) (f d) =
        rw (update_parent, dir_there, is) refl in
      rw wrote (
        added-IsTree (shapes fs) (shapes (write_inode D with_new (parent p) (f d))) p
          (shape i.payload) cs t (ap shape_at free) path (ap shape_at there ∙ rw e refl) bare
          (λ q.
            ap shape_at (lookup-write_inode D with_new (parent p) q (f d) ∙ rw (new q) refl)
            ∙ shape_at-if (bytes_eq (parent p) q) (some (f d))
                (if bytes_eq p q then some i else lookup D fs q)
            ∙ rw
                (
                  adds d,
                  shape-dir_add_child d (base_name p) cs e,
                  shape_at-if (bytes_eq p q) (some i) (lookup D fs q),
                )
                refl))

  shapes-unlink :
      (now : ℤ) (fs : Fs D) (p q : Bytes)
      → shape_at (lookup D (unlink_from_parent D now fs p) q)
        ≡ (if bytes_eq (parent p) q then trim (base_name p) (shapes fs (parent p)) else shapes fs q)
  unfolding unlink_from_parent update_parent
  shapes-unlink now fs p q = elim (Option-cases (lookup D fs (parent p))) [
    | inl e ↦
        let left : unlink_from_parent D now fs p ≡ fs =
          rw (unlink_from_parent, update_parent, e) refl in
        rw left (same (rw e refl))
    | inr (d, e) ↦
        let less : Inode = record ((dir_remove_child d (base_name p)).0) { mtime = now } in
        elim (Bool-cases (is_dir d.payload)) [
          | inl k ↦
              let wrote : unlink_from_parent D now fs p ≡ write_inode D fs (parent p) less =
                rw (unlink_from_parent, update_parent, e, k) refl in
              rw wrote (
                ap shape_at (lookup-write_inode D fs (parent p) q less)
                ∙ shape_at-if (bytes_eq (parent p) q) (some less) (lookup D fs q)
                ∙ rw (e, trim-dir_remove_child d (base_name p)) refl)
          | inr k ↦
              let left : unlink_from_parent D now fs p ≡ fs =
                rw (unlink_from_parent, update_parent, e, k) refl in
              rw left (same (rw e (trim-no_dir (base_name p) d.payload k)))
        ]
  ]
    where
      same :
          trim (base_name p) (shapes fs (parent p)) ≡ shapes fs (parent p)
          → shapes fs q ≡ (
              if bytes_eq (parent p) q
              then trim (base_name p) (shapes fs (parent p))
              else shapes fs q)
      same h = elim (Bool-cases (bytes_eq (parent p) q)) [
        | inl m ↦ rw (m, h) (ap (shapes fs) (sym (bytes_eq→eq (parent p) q m)))
        | inr m ↦ rw m refl
      ]

  shapes-removed :
      (now : ℤ) (fs : Fs D) (p q : Bytes)
      → shapes (remove D (unlink_from_parent D now fs p) p) q ≡ (
          if bytes_eq p q
          then none
          else if bytes_eq (parent p) q
          then trim (base_name p) (shapes fs (parent p))
          else shapes fs q)
  shapes-removed now fs p q =
      ap shape_at (lookup-remove D (unlink_from_parent D now fs p) p q)
      ∙ shape_at-if (bytes_eq p q) none (lookup D (unlink_from_parent D now fs p) q)
      ∙ rw (shapes-unlink now fs p q) refl

  -- What is in the one filesystem is in the other.
  abbrev pub Shrinks : Fs D → Fs D → Type 0
  Shrinks fs fs' =
      (q : Bytes) (u : Shape) → shapes fs' q ≡ some u → (v : Shape) × (shapes fs q ≡ some v)

  -- An inode with nothing below it, which its parent lists no more.
  pub unlinked-IsTree :
      (now : ℤ) (fs : Fs D) (p : Bytes)
      → IsTree (shapes fs)
      → IsCPath p
      → is_root p ≡ false
      → ((q : Bytes) (u : Shape)
          → shapes fs q ≡ some u
          → is_root q ≡ false
          → bytes_eq p (parent q) ≡ false)
      → let fs' = remove D (unlink_from_parent D now fs p) p in
        IsTree (shapes fs') × Shrinks fs fs' × (shapes fs' p ≡ none)
  unlinked-IsTree now fs p t path nr alone =
      let fs' = remove D (unlink_from_parent D now fs p) p in
      (
        removed-IsTree (shapes fs) (shapes fs') p t path nr alone (shapes-removed now fs p),
        was (shapes fs) (shapes fs') p t path nr alone (shapes-removed now fs p),
        gone (shapes fs) (shapes fs') p t path nr alone (shapes-removed now fs p),
      )
