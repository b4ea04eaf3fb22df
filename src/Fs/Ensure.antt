-- ===== src/Fs/Ensure.antt =====
-- fsEnsureParents: its recursion ends, and what holds of each of its rounds holds of its result.
use mathlib.Core.Path.{subst}
use mathlib.Core.Option.{some-injective}
use redis_fs.Base.{
  ℕ, zero, suc, ℤ, ◌<◌, ◌≡◌, refl, ap, ◌∙◌, Bool, true, false, some, arith, Bool-cases,
  Option-cases, inl, inr, if◌then◌else◌, length, bytes_eq, bytes_eq_refl, bytes_eq_iff, ◌⊎◌, ◌||◌,
}
use redis_fs.Base.ByteStrings.{Bytes}
use redis_fs.Dict.{DictApi}
use redis_fs.Inode.{Inode, dir_type, inode_create, is_dir, dir_add_child}
use redis_fs.Path.{root, parent, base_name, is_root}
use redis_fs.Path.Parent.{length-parent, is_root→eq}
use redis_fs.Fs.{
  Fs, lookup, insert, link_to_parent, make_parent, ensure_loop, ensure_parents, is_some,
}
use redis_fs.Fs.Lookup.{lookup-insert, lookup-update_parent_ne}

-- There is an inode at the parent of the path, a directory or at "/".
abbrev pub HasParent : (D : DictApi Inode) → Fs D → Bytes → Type 0
HasParent D fs p =
    (i : Inode) × (lookup D fs (parent p) ≡ some i)
    × ((is_root (parent p) || is_dir i.payload) ≡ true)

module _ (D : DictApi Inode) (now : ℤ) where
  -- More fuel than the length of the path does not run out.
  ensure_loop-Returns :
      (f : ℕ) (fs : Fs D) (p : Bytes)
      → length p < f
      → (r : Fs D × Bool) × (ensure_loop D f now fs p ≡ some r)
  unfolding ensure_loop
  ensure_loop-Returns zero fs p h = absurd (omega arith)
  ensure_loop-Returns (suc f) fs p h = elim (Bool-cases (is_root (parent p))) [
    | inl e ↦ rw e (_, refl)
    | inr e ↦
        let shorter = length-parent p e in
        let (r, ends) = ensure_loop-Returns f fs (parent p) (omega arith) in rw (e, ends) (_, refl)
  ]

  -- The result does not depend on the fuel, once that is more than the length of the path.
  ensure_loop_fuel :
      (f g : ℕ) (fs : Fs D) (p : Bytes)
      → length p < f
      → length p < g
      → ensure_loop D f now fs p ≡ ensure_loop D g now fs p
  unfolding ensure_loop
  ensure_loop_fuel zero g fs p h k = absurd (omega arith)
  ensure_loop_fuel (suc f) zero fs p h k = absurd (omega arith)
  ensure_loop_fuel (suc f) (suc g) fs p h k = elim (Bool-cases (is_root (parent p))) [
    | inl e ↦ rw e
    | inr e ↦
        let shorter = length-parent p e in
        rw (e, ensure_loop_fuel f g fs (parent p) (omega arith) (omega arith))
  ]

  pub ensure_loop-ended :
      (f : ℕ) (fs : Fs D) (p : Bytes)
      → length p < f
      → ensure_loop D f now fs p ≡ some (ensure_parents D now fs p)
  unfolding ensure_parents
  ensure_loop-ended f fs p h =
      let (r, ends) = ensure_loop-Returns (suc (length p)) fs p (omega arith) in
      ensure_loop_fuel f (suc (length p)) fs p h (omega arith) ∙ rw ends refl

  -- What holds where the parent is "/", and goes over from the parent of a path to the path, holds of
  -- the result of fsEnsureParents.
  module _ (fs : Fs D) (P : Bytes → Fs D × Bool → Type 0)
      (top : (p : Bytes) → is_root (parent p) ≡ true → P p (fs, is_some D (lookup D fs root)))
      (failed : (p : Bytes) (r : Fs D × Bool)
        → is_root (parent p) ≡ false
        → r.1 ≡ false
        → P (parent p) r
        → P p (r.0, false))
      (made : (p : Bytes) (r : Fs D × Bool)
        → is_root (parent p) ≡ false
        → r.1 ≡ true
        → P (parent p) r
        → P p (make_parent D now r.0 (parent p))) where
    round :
        (b : Bool) (p : Bytes) (r : Fs D × Bool)
        → is_root (parent p) ≡ false
        → r.1 ≡ b
        → P (parent p) r
        → P p (if b then make_parent D now r.0 (parent p) else (r.0, false))
    round true p r e k h = made p r e k h
    round false p r e k h = failed p r e k h

    ensure_loop_induction :
        (f : ℕ) (p : Bytes) (r : Fs D × Bool) → ensure_loop D f now fs p ≡ some r → P p r
    unfolding ensure_loop
    ensure_loop_induction zero p r h = cc h
    ensure_loop_induction (suc f) p r h = elim (Bool-cases (is_root (parent p))) [
      | inl e ↦ subst (P p) (some-injective _ _ (rw e at h)) (top p e)
      | inr e ↦ elim (Option-cases (ensure_loop D f now fs (parent p))) [
        | inl q ↦ cc (rw (e, q) at h)
        | inr (above, q) ↦
            subst (P p) (some-injective _ _ (rw (e, q) at h))
              (round above.1 p above e refl (ensure_loop_induction f (parent p) above q))
      ]
    ]

    pub ensure_parents_induction : (p : Bytes) → P p (ensure_parents D now fs p)
    ensure_parents_induction p =
        ensure_loop_induction (suc (length p)) p (ensure_parents D now fs p)
          (ensure_loop-ended (suc (length p)) fs p (omega arith))

  root-HasParent :
      (fs : Fs D) (p : Bytes)
      → is_root (parent p) ≡ true
      → (is_some D (lookup D fs root) ≡ false) ⊎ HasParent D fs p
  root-HasParent fs p e = elim (Option-cases (lookup D fs root)) [
    | inl q ↦ inl (rw q refl)
    | inr (i, q) ↦ inr (i, ap (lookup D fs) (is_root→eq (parent p) e) ∙ q, rw e refl)
  ]

  own_parent : (p : Bytes) → is_root p ≡ false → bytes_eq (parent p) p ≡ false
  own_parent p nr = elim (Bool-cases (bytes_eq (parent p) p)) [
    | inl q ↦
        let same = (bytes_eq_iff (parent p) p).0 q in
        let shorter = length-parent p (ap is_root same ∙ nr) in
        absurd (omega (arith, ap length same))
    | inr q ↦ q
  ]

  make_parent-HasParent :
      (fs : Fs D) (p : Bytes)
      → is_root (parent p) ≡ false
      → ((make_parent D now fs (parent p)).1 ≡ false)
        ⊎ HasParent D (make_parent D now fs (parent p)).0 p
  unfolding make_parent link_to_parent inode_create
  make_parent-HasParent fs p nr = elim (Option-cases (lookup D fs (parent p))) [
    | inr (d, e) ↦ elim (Bool-cases (is_dir d.payload)) [
      | inl k ↦ inr (rw (make_parent, e) (d, e, rw (nr, k) refl))
      | inr k ↦ inl (rw (make_parent, e) k)
    ]
    | inl e ↦
        let par = parent p in
        let new = inode_create now dir_type 0 in
        inr (
          rw (make_parent, e)
            (
              new,
              lookup-update_parent_ne D (insert D fs par new) par par
                    (λ d. dir_add_child d (base_name par)) (own_parent par nr)
                  ∙ lookup-insert D fs par par new
                  ∙ rw (bytes_eq_refl par, e) refl,
              rw nr refl,
            ))
  ]

  -- The recursion of fsEnsureParents ends on every path: with any fuel that is more than the length of
  -- the path it does not run out, and the result is that of ensure_parents. The result is -1, or there
  -- is then an inode at the parent of the path, which is a directory or at "/".
  pub ensure_loop_ends :
      (f : ℕ) (fs : Fs D) (p : Bytes)
      → length p < f
      → (ensure_loop D f now fs p ≡ some (ensure_parents D now fs p))
        × (((ensure_parents D now fs p).1 ≡ false) ⊎ HasParent D (ensure_parents D now fs p).0 p)
  ensure_loop_ends f fs p h = (
    ensure_loop-ended f fs p h,
    ensure_parents_induction fs (λ q r. (r.1 ≡ false) ⊎ HasParent D r.0 q)
        (λ q e. root-HasParent fs q e) (λ q r e k above. inl refl)
        (λ q r e k above. make_parent-HasParent r.0 q e) p,
  )
