-- ===== src/Command/Tree/Added.antt =====
-- A new path keeps a tree, if its parent is a directory and is made to list it.
use mathlib.Core.Option.{some-injective}
use redis_fs.Base.{
  ◌≡◌, refl, sym, ap, ◌∙◌, true, false, none, some, List, [], All, arith, Bool-cases, inl, inr,
  if◌then◌else◌, bytes_eq, bytes_eq_refl, bytes_eq→eq,
}
use redis_fs.Base.ByteStrings.{Bytes}
use redis_fs.Inode.{has_name, add_name}
use redis_fs.Inode.Children.{has_name-add_name}
use redis_fs.Path.{root, parent, base_name, join, is_root}
use redis_fs.Path.Plain.{IsCPath, IsCName, parent-IsCPath}
use redis_fs.Path.Parent.{is_root→eq}
use redis_fs.Command.Tree.Shapes.{
  Shape, branch, Shapes, Unique, IsListed, IsTree, branch-injective, nothing_listed,
}
use redis_fs.Command.Tree.Names.{Unique-add_name, IsCName-add_name}

-- A shape that lists nothing.
abbrev pub IsBare : Shape → Type 0
IsBare s = (cs : List Bytes) → s ≡ branch cs → cs ≡ []

module _ (S S' : Shapes) (p : Bytes) (s : Shape) (cs : List Bytes) (t : IsTree S)
    (free : S p ≡ none) (path : IsCPath p) (dir : S (parent p) ≡ some (branch cs)) (bare : IsBare s)
    (changed : (q : Bytes)
      → S' q ≡ (
          if bytes_eq (parent p) q
          then some (branch (add_name cs (base_name p)))
          else if bytes_eq p q
          then some s
          else S q)) where
  not_top : is_root p ≡ false
  not_top = elim (Bool-cases (is_root p)) [
    | inl e ↦ let (ds, at) = t.top in cc (is_root→eq p e, at, free)
    | inr e ↦ e
  ]

  at_parent : S' (parent p) ≡ some (branch (add_name cs (base_name p)))
  at_parent = changed (parent p) ∙ rw (bytes_eq_refl (parent p)) refl

  -- What S' has at each path: the parent, the new path, and what was there.
  at_other : (q : Bytes) → bytes_eq (parent p) q ≡ false → bytes_eq p q ≡ false → S' q ≡ S q
  at_other q e k = changed q ∙ rw (e, k) refl

  at_new : S' p ≡ some s
  at_new = elim (Bool-cases (bytes_eq (parent p) p)) [
    | inl e ↦ cc (ap S (bytes_eq→eq (parent p) p e), dir, free)
    | inr e ↦ changed p ∙ rw (e, bytes_eq_refl p) refl
  ]

  there : (q : Bytes) (u : Shape) → S q ≡ some u → bytes_eq p q ≡ false
  there q u e = elim (Bool-cases (bytes_eq p q)) [
    | inl k ↦ cc (ap S (bytes_eq→eq p q k), e, free)
    | inr k ↦ k
  ]

  -- Directories stay, with the names that they list.
  branch_kept :
      (q : Bytes) (ds : List Bytes)
      → S q ≡ some (branch ds)
      → (es : List Bytes) × (S' q ≡ some (branch es))
        × ((c : Bytes) → has_name ds c ≡ true → has_name es c ≡ true)
  branch_kept q ds e = elim (Bool-cases (bytes_eq (parent p) q)) [
    | inl k ↦
        let same : parent p ≡ q = bytes_eq→eq (parent p) q k in
        let eq : cs ≡ ds =
          branch-injective (some-injective (branch cs) (branch ds) (sym dir ∙ ap S same ∙ e)) in
        (
          add_name cs (base_name p),
          sym (ap S' same) ∙ at_parent,
          (λ c h. rw (has_name-add_name cs (base_name p) c name.1, eq, h) refl),
        )
    | inr k ↦ (ds, at_other q k (there q (branch ds) e) ∙ e, λ c h. h)
  ]
    where
      name : IsCName (base_name p)
      name = (parent-IsCPath p path not_top).1

  kept : (q : Bytes) (u : Shape) → S q ≡ some u → (v : Shape) × (S' q ≡ some v)
  kept q u e = elim (Bool-cases (bytes_eq (parent p) q)) [
    | inl k ↦
        (branch (add_name cs (base_name p)), sym (ap S' (bytes_eq→eq (parent p) q k)) ∙ at_parent)
    | inr k ↦ (u, at_other q k (there q u e) ∙ e)
  ]

  IsListed-kept : (q : Bytes) → IsListed S q → IsListed S' q
  IsListed-kept q (ds, e, h) =
      let (es, k, more) = branch_kept (parent q) ds e in (es, k, more (base_name q) h)

  IsListed-new : IsListed S' p
  IsListed-new =
      let name = (parent-IsCPath p path not_top).1 in
      (
        add_name cs (base_name p),
        at_parent,
        rw (has_name-add_name cs (base_name p) (base_name p) name.1, bytes_eq_refl (base_name p))
            (ground arith),
      )

  above_added :
      (q : Bytes) (u : Shape) → S' q ≡ some u → is_root q ≡ false → IsCPath q × IsListed S' q
  above_added q u e nr = elim (Bool-cases (bytes_eq (parent p) q)) [
    | inl k ↦ old (branch cs) (sym (ap S (bytes_eq→eq (parent p) q k)) ∙ dir)
    | inr k ↦ elim (Bool-cases (bytes_eq p q)) [
      | inl m ↦ rw (← bytes_eq→eq p q m) (path, IsListed-new)
      | inr m ↦ old u (sym (at_other q k m) ∙ e)
    ]
  ]
    where
      old : (v : Shape) → S q ≡ some v → IsCPath q × IsListed S' q
      old v at = let (is, l) = t.above q v at nr in (is, IsListed-kept q l)

  names_added : (q : Bytes) (ds : List Bytes) → S' q ≡ some (branch ds) → All IsCName ds × Unique ds
  names_added q ds e = elim (Bool-cases (bytes_eq (parent p) q)) [
    | inl k ↦
        let name = (parent-IsCPath p path not_top).1 in
        let (were, differ) = t.names (parent p) cs dir in
        let same : add_name cs (base_name p) ≡ ds = branch-injective (
          some-injective (branch (add_name cs (base_name p))) (branch ds)
            (sym at_parent ∙ ap S' (bytes_eq→eq (parent p) q k) ∙ e)) in
        rw (← same) (
          IsCName-add_name cs (base_name p) name were,
          Unique-add_name cs (base_name p) name.1 differ,
        )
    | inr k ↦ elim (Bool-cases (bytes_eq p q)) [
      | inl m ↦
          rw (bare ds (some-injective s (branch ds) (sym at_new ∙ ap S' (bytes_eq→eq p q m) ∙ e)))
            (tt, tt)
      | inr m ↦ t.names q ds (sym (at_other q k m) ∙ e)
    ]
  ]

  present_added :
      (q : Bytes) (ds : List Bytes) (c : Bytes)
      → S' q ≡ some (branch ds)
      → has_name ds c ≡ true
      → (r : Bytes) × (u : Shape) × (join q c ≡ some r) × (S' r ≡ some u)
  present_added q ds c e h = elim (Bool-cases (bytes_eq (parent p) q)) [
    | inl k ↦
        let (_, name, joins) = parent-IsCPath p path not_top in
        let at : parent p ≡ q = bytes_eq→eq (parent p) q k in
        let same : add_name cs (base_name p) ≡ ds = branch-injective (
          some-injective (branch (add_name cs (base_name p))) (branch ds)
            (sym at_parent ∙ ap S' at ∙ e)) in
        elim (Bool-cases (has_name cs c)) [
          | inl l ↦ old cs (sym (ap S at) ∙ dir) l
          | inr l ↦
              let new : has_name (add_name cs (base_name p)) c ≡ true = rw same h in
              let is : base_name p ≡ c =
                bytes_eq→eq (base_name p) c
                  (rw (has_name-add_name cs (base_name p) c name.1, l) at new) in
              (p, s, rw (← at, ← is) joins, at_new)
        ]
    | inr k ↦ elim (Bool-cases (bytes_eq p q)) [
      | inl m ↦
          let is =
            bare ds (some-injective s (branch ds) (sym at_new ∙ ap S' (bytes_eq→eq p q m) ∙ e)) in
          absurd (nothing_listed c (rw is at h))
      | inr m ↦ old ds (sym (at_other q k m) ∙ e) h
    ]
  ]
    where
      old :
          (fs : List Bytes)
          → S q ≡ some (branch fs)
          → has_name fs c ≡ true
          → (r : Bytes) × (u : Shape) × (join q c ≡ some r) × (S' r ≡ some u)
      old fs at l =
          let (r, u, j, is) = t.present q fs c at l in let (v, k) = kept r u is in (r, v, j, k)

  -- The tree with the new path.
  pub added-IsTree : IsTree S'
  added-IsTree = record {
    top = let (ds, e) = t.top in let (es, k, _) = branch_kept root ds e in (es, k);
    above = above_added;
    names = names_added;
    present = present_added;
  }
