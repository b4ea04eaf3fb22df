-- ===== src/Command/Tree/Paths.antt =====
-- fsEnsureParents keeps a tree and leaves a directory at the parent; fsResolvePath leads from a normal
-- path to a normal path.
use mathlib.Core.Option.{some-injective}
use redis_fs.Base.{
  ℕ, zero, suc, ℤ, ◌≡◌, refl, sym, ap, ◌∙◌, Bool, true, false, some, List, [], Bool-cases,
  Option-cases, inl, inr, bytes_eq, bytes_eq_refl, if◌then◌else◌, ltb, length, byte_at, ◌==◌, ◌&&◌,
  c_str, c_str_of_NoNul,
}
use redis_fs.Base.ByteStrings.{Bytes, c_str-NoNul}
use redis_fs.Dict.{DictApi}
use redis_fs.Inode.{
  Inode, Payload, file, dir, symlink, dir_type, is_dir, inode_create, dir_add_child,
}
use redis_fs.Path.{root, slash, parent, base_name, is_root}
use redis_fs.Path.Plain.{IsCPath, parent-IsCPath, parent-NoNul, normalize-IsCPath, join-IsCPath}
use redis_fs.Path.Parent.{is_root→eq}
use redis_fs.Fs.{
  Fs, Resolved, resolved, lookup, insert, follow, resolve_loop, resolve_path, link_to_parent,
  make_parent, ensure_parents,
}
use redis_fs.Fs.Ensure.{ensure_parents_induction}
use redis_fs.Fs.Lookup.{lookup-insert, lookup-update_parent_ne}
use redis_fs.Command.Write.{parent_is_dir}
use redis_fs.Command.Tree.Shapes.{branch, shape, IsTree, branch-injective}
use redis_fs.Command.Tree.Names.{bytes_eq_comm}
use redis_fs.Command.Tree.Removed.{parent_ne}
use redis_fs.Command.Tree.Changes.{shapes, shape_at, new-IsTree}

c_str-IsCPath : (p : Bytes) → IsCPath p → IsCPath (c_str p)
c_str-IsCPath p h = rw (c_str_of_NoNul p h.plain) h

parent-root : is_root (parent root) ≡ true
unfolding parent is_root
parent-root = refl

above_path :
    (p : Bytes) → IsCPath p → is_root (parent p) ≡ false → IsCPath (parent p) × (is_root p ≡ false)
above_path p h nr = elim (Bool-cases (is_root p)) [
  | inl e ↦ cc (ap (λ q. is_root (parent q)) (is_root→eq p e), parent-root, nr)
  | inr e ↦ ((parent-IsCPath p h e).0, e)
]

follow-IsCPath :
    (D : DictApi Inode) (current target next : Bytes)
    → IsCPath current
    → follow D current target ≡ some next
    → IsCPath next
unfolding follow
follow-IsCPath D current target next h e =
    let t = c_str target in
    elim (Bool-cases (ltb 0 (length t) && byte_at t 0 == slash)) [
      | inl q ↦ normalize-IsCPath t next (c_str-NoNul target) (rw q at e)
      | inr q ↦
          join-IsCPath (parent current) t next (parent-NoNul current h.plain) (c_str-NoNul target)
            (rw q at e)
    ]

resolved-injective : {p q : Bytes} → resolved p ≡ resolved q → p ≡ q
resolved-injective {p} {q} e = ap path_in e
  where
    path_in : Resolved → Bytes
    path_in (resolved r) = r
    path_in _ = []

new_dir : (now : ℤ) → (inode_create now dir_type 0).payload ≡ dir []
unfolding inode_create
new_dir now = refl

module _ (D : DictApi Inode) where
  resolve_loop-IsCPath :
      (f : ℕ) (fs : Fs D) (current q : Bytes)
      → IsCPath current
      → resolve_loop D f fs current ≡ resolved q
      → IsCPath q
  unfolding resolve_loop
  resolve_loop-IsCPath zero fs current q h e = cc e
  resolve_loop-IsCPath (suc f) fs current q h e = elim (Option-cases (lookup D fs current)) [
    | inl l ↦ rw (← resolved-injective (rw (resolve_loop, l) at e)) h
    | inr (i, l) ↦ split i l (λ c k. resolve_loop-IsCPath f fs c q k) i.payload refl
  ]
    where
      split :
          (i : Inode)
          → lookup D fs current ≡ some i
          → ((c : Bytes) → IsCPath c → resolve_loop D f fs c ≡ resolved q → IsCPath q)
          → (x : Payload) → i.payload ≡ x
          → IsCPath q
      split i l again (file a b) k = rw (← resolved-injective (rw (resolve_loop, l, k) at e)) h
      split i l again (dir cs) k = rw (← resolved-injective (rw (resolve_loop, l, k) at e)) h
      split i l again (symlink target) k = elim (Option-cases (follow D current target)) [
        | inl m ↦ cc (rw (resolve_loop, l, k, m) at e)
        | inr (next, m) ↦
            again (c_str next) (c_str-IsCPath next (follow-IsCPath D current target next h m))
              (rw (resolve_loop, l, k, m) at e)
      ]

  pub resolve_path-IsCPath :
      (fs : Fs D) (p q : Bytes) → IsCPath p → resolve_path D fs p ≡ resolved q → IsCPath (c_str q)
  unfolding resolve_path
  resolve_path-IsCPath fs p q h e =
      c_str-IsCPath q (resolve_loop-IsCPath 40 fs (c_str p) q (c_str-IsCPath p h) e)

  dir_ready :
      (fs : Fs D) (p : Bytes) (d : Inode)
      → lookup D fs (parent p) ≡ some d
      → is_dir d.payload ≡ true
      → parent_is_dir D fs p ≡ true
  unfolding parent_is_dir
  dir_ready fs p d e k = rw (parent_is_dir, e) k

  branch_there :
      (fs : Fs D) (q : Bytes) (cs : List Bytes)
      → shapes D fs q ≡ some (branch cs)
      → (d : Inode) × (lookup D fs q ≡ some d) × (is_dir d.payload ≡ true)
  branch_there fs q cs e = elim (Option-cases (lookup D fs q)) [
    | inl k ↦ cc (ap shape_at k, e)
    | inr (d, k) ↦ (
      d,
      k,
      split d.payload (some-injective (shape d.payload) (branch cs) (sym (ap shape_at k) ∙ e)),
    )
  ]
    where
      split : (x : Payload) → shape x ≡ branch cs → is_dir x ≡ true
      split (file a b) m = cc m
      split (dir ds) m = refl
      split (symlink t) m = cc m

  -- What fsEnsureParents leaves.
  abbrev Prepared : Fs D × Bool → Bytes → Type 0
  Prepared r p = IsTree (shapes D r.0) × (r.1 ≡ true → parent_is_dir D r.0 p ≡ true)

  make_parent-Prepared :
      (now : ℤ) (fs : Fs D) (p : Bytes)
      → IsTree (shapes D fs)
      → IsCPath (parent p)
      → is_root (parent p) ≡ false
      → parent_is_dir D fs (parent p) ≡ true
      → Prepared (make_parent D now fs (parent p)) p
  unfolding make_parent link_to_parent
  make_parent-Prepared now fs p t path nr ready = elim (Option-cases (lookup D fs (parent p))) [
    | inr (d, e) ↦ rw (make_parent, e) (t, (λ k. dir_ready fs p d e k))
    | inl e ↦
        let par = parent p in
        let new = inode_create now dir_type 0 in
        let added = insert D fs par new in
        let at : (q : Bytes)
            → lookup D added q ≡ (if bytes_eq par q then some new else lookup D fs q) =
          λ q. lookup-insert D fs par q new ∙ rw e refl in
        let linked = link_to_parent D added par in
        let there : lookup D linked par ≡ some new =
          lookup-update_parent_ne D added par par (λ d. dir_add_child d (base_name par))
            (bytes_eq_comm par (parent par) (parent_ne par nr))
          ∙ at par
          ∙ rw (bytes_eq_refl par) refl in
        rw (make_parent, e)
          (
            new-IsTree D fs added par new (λ d. dir_add_child d (base_name par)) t path nr ready e
                (λ cs k. sym (branch-injective (ap shape (sym (new_dir now)) ∙ k))) at (λ d. refl),
            λ k. dir_ready linked p new there (ap is_dir (new_dir now)),
          )
  ]

  pub ensure_parents-Prepared :
      (now : ℤ) (fs : Fs D) (p : Bytes)
      → IsTree (shapes D fs)
      → IsCPath p
      → IsTree (shapes D (ensure_parents D now fs p).0)
        × ((ensure_parents D now fs p).1 ≡ true
            → parent_is_dir D (ensure_parents D now fs p).0 p ≡ true)
  ensure_parents-Prepared now fs p t h =
      ensure_parents_induction D now fs (λ q r. IsCPath q → Prepared r q)
        (λ q e is.
          let (cs, top) = t.top in
          let (d, at, k) = branch_there fs root cs top in
          (t, λ m. dir_ready fs q d (ap (lookup D fs) (is_root→eq (parent q) e) ∙ at) k))
        (λ q r e failed above is.
          let (path, nr) = above_path q is e in ((above path).0, λ m. cc (failed, m)))
        (λ q r e k above is.
          let (path, nr) = above_path q is e in
          let (t', ready) = above path in make_parent-Prepared now r.0 q t' path e (ready k))
        p h
