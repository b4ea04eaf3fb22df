-- ===== src/Command/Tree/Removed.antt =====
-- A path that is taken away keeps a tree, if nothing is below it and its parent lists it no more.
use mathlib.Core.Option.{some-injective}
use redis_fs.Base.{
  ◌≡◌, refl, sym, ap, ◌∙◌, true, false, Option, none, some, List, All, arith, Bool-cases, inl, inr,
  ◌⊎◌, if◌then◌else◌, bytes_eq, bytes_eq_refl, bytes_eq→eq, length,
}
use redis_fs.Base.ByteStrings.{Bytes}
use redis_fs.Inode.{has_name, remove_name}
use redis_fs.Path.{root, parent, base_name, join, is_root}
use redis_fs.Path.Parent.{length-parent}
use redis_fs.Path.Plain.{IsCPath, IsCName, parent-IsCPath, not_root}
use redis_fs.Command.Tree.Shapes.{
  Shape, leaf, branch, Shapes, Unique, IsListed, IsTree, branch-injective, listed-IsChild,
}
use redis_fs.Command.Tree.Names.{
  has_name-remove_name, has_name-remove_name_other, has_name-removed, Unique-remove_name,
  IsCName-remove_name,
}

-- A directory without a name; what is no directory stays.
abbrev pub trim : Bytes → Option Shape → Option Shape
trim n none = none
trim n (some leaf) = some leaf
trim n (some (branch cs)) = some (branch (remove_name cs n))

trim_inverse :
    (n : Bytes) (o : Option Shape) (ds : List Bytes)
    → trim n o ≡ some (branch ds)
    → (es : List Bytes) × (o ≡ some (branch es)) × (remove_name es n ≡ ds)
trim_inverse n none ds e = cc e
trim_inverse n (some leaf) ds e = cc e
trim_inverse n (some (branch es)) ds e =
    (es, refl, branch-injective (some-injective (branch (remove_name es n)) (branch ds) e))

trim-some :
    (n : Bytes) (o : Option Shape) (u : Shape) → trim n o ≡ some u → (v : Shape) × (o ≡ some v)
trim-some n none u e = cc e
trim-some n (some v) u e = (v, refl)

trim_kept :
    (n : Bytes) (o : Option Shape) (u : Shape) → o ≡ some u → (v : Shape) × (trim n o ≡ some v)
trim_kept n none u e = cc e
trim_kept n (some leaf) u e = (leaf, refl)
trim_kept n (some (branch cs)) u e = (branch (remove_name cs n), refl)

pub parent_ne : (p : Bytes) → is_root p ≡ false → bytes_eq p (parent p) ≡ false
parent_ne p nr = elim (Bool-cases (bytes_eq p (parent p))) [
  | inr e ↦ e
  | inl e ↦
      let same : p ≡ parent p = bytes_eq→eq p (parent p) e in
      let inner : is_root (parent p) ≡ false = ap is_root (sym same) ∙ nr in
      absurd (omega (arith, length-parent p inner, ap length same))
]

module _ (S S' : Shapes) (p : Bytes) (t : IsTree S) (path : IsCPath p) (nr : is_root p ≡ false)
    (alone : (q : Bytes) (u : Shape)
      → S q ≡ some u
      → is_root q ≡ false
      → bytes_eq p (parent q) ≡ false)
    (changed : (q : Bytes)
      → S' q ≡ (
          if bytes_eq p q
          then none
          else if bytes_eq (parent p) q
          then trim (base_name p) (S (parent p))
          else S q)) where
  pub gone : S' p ≡ none
  gone = changed p ∙ rw (bytes_eq_refl p) refl

  remains : (q : Bytes) (u : Shape) → S' q ≡ some u → bytes_eq p q ≡ false
  remains q u e = elim (Bool-cases (bytes_eq p q)) [
    | inl k ↦ cc (ap S' (bytes_eq→eq p q k), gone, e)
    | inr k ↦ k
  ]

  at_parent : (q : Bytes) → bytes_eq (parent p) q ≡ true → S' q ≡ trim (base_name p) (S q)
  at_parent q k =
      let same : parent p ≡ q = bytes_eq→eq (parent p) q k in
      let other : bytes_eq p q ≡ false = ap (bytes_eq p) (sym same) ∙ parent_ne p nr in
      changed q ∙ rw (other, k) (ap (λ r. trim (base_name p) (S r)) same)

  at_other : (q : Bytes) → bytes_eq p q ≡ false → bytes_eq (parent p) q ≡ false → S' q ≡ S q
  at_other q e k = changed q ∙ rw (e, k) refl

  pub was : (q : Bytes) (u : Shape) → S' q ≡ some u → (v : Shape) × (S q ≡ some v)
  was q u e = elim (Bool-cases (bytes_eq (parent p) q)) [
    | inl k ↦ trim-some (base_name p) (S q) u (sym (at_parent q k) ∙ e)
    | inr k ↦ (u, sym (at_other q (remains q u e) k) ∙ e)
  ]

  kept :
      (q : Bytes) (u : Shape) → bytes_eq p q ≡ false → S q ≡ some u → (v : Shape) × (S' q ≡ some v)
  kept q u k e = elim (Bool-cases (bytes_eq (parent p) q)) [
    | inl m ↦ let (v, at) = trim_kept (base_name p) (S q) u e in (v, at_parent q m ∙ at)
    | inr m ↦ (u, at_other q k m ∙ e)
  ]

  -- A directory lists what it listed, but for the name of `p` in the parent of `p`.
  branch_was :
      (q : Bytes) (ds : List Bytes)
      → S' q ≡ some (branch ds)
      → (es : List Bytes) × (S q ≡ some (branch es))
        × (((ds ≡ es) × (bytes_eq (parent p) q ≡ false)) ⊎ (remove_name es (base_name p) ≡ ds))
  branch_was q ds e = elim (Bool-cases (bytes_eq (parent p) q)) [
    | inl k ↦
        let (es, at, less) = trim_inverse (base_name p) (S q) ds (sym (at_parent q k) ∙ e) in
        (es, at, inr less)
    | inr k ↦ (ds, sym (at_other q (remains q (branch ds) e) k) ∙ e, inl (refl, k))
  ]

  branch_kept :
      (q : Bytes) (ds : List Bytes) (c : Bytes)
      → bytes_eq p q ≡ false
      → S q ≡ some (branch ds)
      → has_name ds c ≡ true
      → (bytes_eq (parent p) q ≡ true → bytes_eq (base_name p) c ≡ false)
      → (es : List Bytes) × (S' q ≡ some (branch es)) × (has_name es c ≡ true)
  branch_kept q ds c k e h other = elim (Bool-cases (bytes_eq (parent p) q)) [
    | inl m ↦ (
      remove_name ds (base_name p),
      at_parent q m ∙ ap (trim (base_name p)) e,
      has_name-remove_name_other ds (base_name p) c (other m) h,
    )
    | inr m ↦ (ds, at_other q k m ∙ e, h)
  ]

  -- Two paths with one parent have two names.
  other_name :
      (q : Bytes)
      → IsCPath q
      → is_root q ≡ false
      → bytes_eq p q ≡ false
      → bytes_eq (parent p) (parent q) ≡ true
      → bytes_eq (base_name p) (base_name q) ≡ false
  other_name q is nrq ne m = elim (Bool-cases (bytes_eq (base_name p) (base_name q))) [
    | inr e ↦ e
    | inl e ↦
        let (_, _, j) = parent-IsCPath p path nr in
        let (_, _, k) = parent-IsCPath q is nrq in
        let dirs = bytes_eq→eq (parent p) (parent q) m in
        let names = bytes_eq→eq (base_name p) (base_name q) e in
        let same : p ≡ q = some-injective p q (sym j ∙ rw (dirs, names) k) in
        cc (ap (bytes_eq p) same, bytes_eq_refl p, ne)
  ]

  above_removed :
      (q : Bytes) (u : Shape) → S' q ≡ some u → is_root q ≡ false → IsCPath q × IsListed S' q
  above_removed q u e nrq =
      let (v, at) = was q u e in
      let (is, (ds, k, h)) = t.above q v at nrq in
      (
        is,
        branch_kept (parent q) ds (base_name q) (alone q v at nrq) k h
            (other_name q is nrq (remains q u e)),
      )

  names_removed :
      (q : Bytes) (ds : List Bytes) → S' q ≡ some (branch ds) → All IsCName ds × Unique ds
  names_removed q ds e =
      let (es, at, how) = branch_was q ds e in
      let (names, differ) = t.names q es at in
      elim how [
        | inl k ↦ rw k.0 (names, differ)
        | inr k ↦
            rw (← k) (
              IsCName-remove_name es (base_name p) names,
              Unique-remove_name es (base_name p) differ,
            )
      ]

  present_removed :
      (q : Bytes) (ds : List Bytes) (c : Bytes)
      → S' q ≡ some (branch ds)
      → has_name ds c ≡ true
      → (r : Bytes) × (u : Shape) × (join q c ≡ some r) × (S' r ≡ some u)
  present_removed q ds c e h =
      let (es, at, how) = branch_was q ds e in
      let listed : has_name es c ≡ true = elim how [
        | inl k ↦ rw (← k.0) h
        | inr k ↦ has_name-remove_name es (base_name p) c (rw k h)
      ] in
      let (r, u, j, there) = t.present q es c at listed in
      let child = listed-IsChild S q es c r t at listed j in
      let other : bytes_eq p r ≡ false = elim (Bool-cases (bytes_eq p r)) [
        | inr k ↦ k
        | inl k ↦
            let same : p ≡ r = bytes_eq→eq p r k in
            elim how [
              | inl m ↦
                  let above : parent p ≡ q = ap parent same ∙ child.parent_is in
                  cc (m.1, ap (λ x. bytes_eq x q) above, bytes_eq_refl q)
              | inr m ↦
                  let name : base_name p ≡ c = ap base_name same ∙ child.name_is in
                  let left : has_name (remove_name es (base_name p)) (base_name p) ≡ true =
                    rw (m, name) h in
                  cc (left, has_name-removed es (base_name p) (t.names q es at).1)
            ]
      ] in
      let (v, k) = kept r u other there in (r, v, j, k)

  -- The tree without the path.
  pub removed-IsTree : IsTree S'
  removed-IsTree = record {
    top =
        let (ds, e) = t.top in
        let other : bytes_eq p root ≡ false = elim (Bool-cases (bytes_eq p root)) [
          | inl k ↦ absurd (not_root p nr (bytes_eq→eq p root k))
          | inr k ↦ k
        ] in
        top_kept ds e other (Bool-cases (bytes_eq (parent p) root));
    above = above_removed;
    names = names_removed;
    present = present_removed;
  }
    where
      top_kept :
          (ds : List Bytes)
          → S root ≡ some (branch ds)
          → bytes_eq p root ≡ false
          → (bytes_eq (parent p) root ≡ true) ⊎ (bytes_eq (parent p) root ≡ false)
          → (cs : List Bytes) × (S' root ≡ some (branch cs))
      top_kept ds e other (inl k) =
          (remove_name ds (base_name p), at_parent root k ∙ ap (trim (base_name p)) e)
      top_kept ds e other (inr k) = (ds, at_other root other k ∙ e)
