-- ===== src/Glob/Later.antt =====
-- A match goes through every ']': what fsBloomExtractLiteral goes on with, when it has skipped to the
-- end of a class that fsGlobMatchInternal does not see, matches a suffix of the text.
use redis_fs.Base.{
  ℕ, zero, suc, ◌≤◌, ◌≡◌, refl, sym, ap, ◌∙◌, Bool, true, some, [], ◌∷◌, ◌++◌, arith, ◌==◌,
  Bool-cases, inl, inr, ==_iff, ◌⊎◌,
}
use mathlib.Core.List.{append_assoc}
use redis_fs.Base.ByteStrings.{Bytes}
use redis_fs.Bloom.{to_bracket}
use redis_fs.Glob.{glob_loop, skip_stars, match_class}
use redis_fs.Glob.Steps.{
  Taken, last_star, star, any, class, escaped, plain, glob_loop-Taken, skip_stars_of_only_stars,
}
use redis_fs.Glob.Bracket.{
  to_bracket-nil, to_bracket-plain, to_bracket-bracket, to_bracket-escape, to_bracket-skip_stars,
  to_bracket-class_body, match_class-to_bracket,
}

module _ (nocase : Bool) where
  -- `q` is at its end, or matches a suffix of `s`.
  abbrev pub Later : ℕ → Bytes → Bytes → Type 0
  Later f q s =
      (q ≡ [])
      ⊎ ((f' : ℕ) × (v t : Bytes) × (f' ≤ f) × (s ≡ v ++ t) × (glob_loop f' nocase q t ≡ some true))

  Later-here : (f : ℕ) (q s : Bytes) → glob_loop f nocase q s ≡ some true → Later f q s
  Later-here f q s h = inr (f, [], s, omega arith, refl, h)

  Later-deeper : (f : ℕ) (q v t s : Bytes) → s ≡ v ++ t → Later f q t → Later (suc f) q s
  Later-deeper f q v t s e (inl k) = inl k
  Later-deeper f q v t s e (inr (f', w, x, h, k, m)) =
      inr (f', v ++ w, x, omega arith, e ∙ ap (λ l. v ++ l) k ∙ sym (append_assoc v w x), m)

  pub glob_loop-Later :
      (f : ℕ) (p s : Bytes) → glob_loop f nocase p s ≡ some true → Later f (to_bracket p) s
  unfolding glob_loop
  glob_loop-Later zero p s h = cc h
  glob_loop-Later (suc f) [] s h = inl to_bracket-nil
  glob_loop-Later (suc f) (c ∷ p) [] h =
      let stars = skip_stars_of_only_stars (c ∷ p) h in
      inl (sym (to_bracket-skip_stars (c ∷ p)) ∙ ap to_bracket stars ∙ to_bracket-nil)
  glob_loop-Later (suc f) (c ∷ p) (sc ∷ s) h =
      split (glob_loop-Later f) (glob_loop-Taken nocase f c p sc s h)
    where
      split :
          ((p s : Bytes) → glob_loop f nocase p s ≡ some true → Later f (to_bracket p) s)
          → Taken nocase f c p sc s
          → Later (suc f) (to_bracket (c ∷ p)) (sc ∷ s)
      split rec (last_star e k) = inl (
          to_bracket-plain c p (rw e) (rw e)
          ∙ sym (to_bracket-skip_stars p)
          ∙ ap to_bracket k
          ∙ to_bracket-nil)
      split rec (star v t e k m) =
          rw (to_bracket-plain c p (rw e) (rw e) ∙ sym (to_bracket-skip_stars p))
            (Later-deeper f (to_bracket (skip_stars p)) v t (sc ∷ s) k (rec (skip_stars p) t m))
      split rec (any e m) =
          rw (to_bracket-plain c p (rw e) (rw e))
            (Later-deeper f (to_bracket p) (sc ∷ []) s (sc ∷ s) refl (rec p s m))
      split rec (class e a m) =
          let past = match_class-to_bracket nocase sc p ∙ to_bracket-class_body p in
          rw (to_bracket-plain c p (rw e) (rw e) ∙ sym past) (
            Later-deeper f (match_class nocase sc p).1 (sc ∷ []) s (sc ∷ s) refl
              (Later-here f (match_class nocase sc p).1 s m))
      split rec (escaped x q e k l m) =
          rw (e, k, to_bracket-escape)
            (Later-deeper f (to_bracket q) (sc ∷ []) s (sc ∷ s) refl (rec q s m))
      split rec (plain a b d e l m) = elim (Bool-cases (c == b']')) [
        | inl k ↦
            rw ((==_iff c b']').0 k, to_bracket-bracket)
              (Later-deeper f p (sc ∷ []) s (sc ∷ s) refl (Later-here f p s m))
        | inr k ↦
            rw (to_bracket-plain c p k e)
              (Later-deeper f (to_bracket p) (sc ∷ []) s (sc ∷ s) refl (rec p s m))
      ]
