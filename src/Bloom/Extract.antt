-- ===== src/Bloom/Extract.antt =====
-- fsBloomExtractLiteral against fsGlobMatchInternal: the literal of a pattern is in every text that
-- the pattern matches.
use mathlib.Core.List.{append_assoc}
use redis_fs.Base.{
  ℕ, zero, suc, ◌≤◌, ◌≡◌, refl, sym, ap, ◌∙◌, Bool, true, some, [], ◌∷◌, ◌++◌, arith, ◌==◌, ltb,
  if◌then◌else◌, Bool-cases, inl, inr, ==_iff, ◌⊎◌, drop, length, byte_at,
}
use redis_fs.Base.ByteStrings.{Bytes, NoNul}
use redis_fs.Bloom.{Runs, end_run, put_char, to_bracket, skip_class, literal_loop, extract_literal}
use redis_fs.Bloom.Occurring.{
  Occurs, Ends-Occurs, Ends-nil, Found, Follows, Found-append, Follows-Found, start-Follows,
  end_run-Occurs, end_run-Follows, put_char-Follows, end_run_idem,
}
use redis_fs.Glob.{skip_stars, glob_loop, match_class, glob_match_internal, is_negated}
use redis_fs.Glob.Steps.{
  Taken, last_star, star, any, class, escaped, plain, glob_loop-Taken, skip_stars_of_only_stars,
}
use redis_fs.Glob.Bracket.{to_bracket-bracket, class_body, match_class-to_bracket}
use redis_fs.Glob.Later.{glob_loop-Later}

skip_stars-NoNul : (p : Bytes) → NoNul p → NoNul (skip_stars p)
unfolding skip_stars
skip_stars-NoNul [] h = h
skip_stars-NoNul (c ∷ p) h = elim (Bool-cases (c == b'*')) [
  | inl e ↦ rw e (skip_stars-NoNul p h.1)
  | inr e ↦ rw e h
]

to_bracket-NoNul : (p : Bytes) → NoNul p → NoNul (to_bracket p)
unfolding to_bracket
to_bracket-NoNul [] h = tt
to_bracket-NoNul (c ∷ []) h = tt
to_bracket-NoNul (c ∷ d ∷ p) h = elim (Bool-cases (c == b']')) [
  | inl e ↦ rw e h.1
  | inr e ↦ elim (Bool-cases (c == 92)) [
    | inl k ↦ rw (e, k) (to_bracket-NoNul p h.1.1)
    | inr k ↦ rw (e, k) (to_bracket-NoNul (d ∷ p) h.1)
  ]
]

drop-NoNul : (p : Bytes) → NoNul p → NoNul (drop 1 p)
drop-NoNul [] h = h
drop-NoNul (c ∷ p) h = h.1

class_body-NoNul : (p : Bytes) → NoNul p → NoNul (class_body p)
unfolding class_body
class_body-NoNul p h = elim (Bool-cases (is_negated p)) [
  | inl e ↦ rw e (drop-NoNul p h)
  | inr e ↦ rw e h
]

-- What the branch for '[' skips is what the match skips, or goes on to a later ']'.
skip_class_cases :
    (nocase : Bool) (sc : ℕ) (p : Bytes)
    → (skip_class p ≡ (match_class nocase sc p).1)
      ⊎ (skip_class p ≡ to_bracket (match_class nocase sc p).1)
unfolding skip_class class_body is_negated
skip_class_cases nocase sc p =
    let past = match_class-to_bracket nocase sc p in rw past (split (class_body p))
  where
    split :
        (q : Bytes)
        → (to_bracket (if byte_at q 0 == b']' then drop 1 q else q) ≡ to_bracket q)
          ⊎ (to_bracket (if byte_at q 0 == b']' then drop 1 q else q) ≡ to_bracket (to_bracket q))
    split [] = inl refl
    split (c ∷ q) = elim (Bool-cases (c == b']')) [
      | inl e ↦ inr (
          rw e (
            ap to_bracket
              (sym (ap (λ x. to_bracket (x ∷ q)) ((==_iff c b']').0 e) ∙ to_bracket-bracket q))))
      | inr e ↦ inl (rw e)
    ]

match_class-NoNul :
    (nocase : Bool) (sc : ℕ) (p : Bytes) → NoNul p → NoNul (match_class nocase sc p).1
match_class-NoNul nocase sc p h =
    rw (match_class-to_bracket nocase sc p) (to_bracket-NoNul (class_body p) (class_body-NoNul p h))

literal_loop-nil : (g : ℕ) (r : Runs) → literal_loop g [] r ≡ r
unfolding literal_loop
literal_loop-nil zero r = refl
literal_loop-nil (suc g) r = refl

-- Further stars change nothing once a run has ended.
literal_loop-stars :
    (x : Bytes) (r : Runs)
    → end_run r ≡ r
    → (p : Bytes) → ((g : ℕ) → Found x (literal_loop g (skip_stars p) r))
    → (g : ℕ) → Found x (literal_loop g p r)
unfolding literal_loop skip_stars
literal_loop-stars x r q [] h g = h g
literal_loop-stars x r q (c ∷ p) h zero = h zero
literal_loop-stars x r q (c ∷ p) h (suc g) = elim (Bool-cases (c == b'*')) [
  | inl e ↦ rw (e, q) (literal_loop-stars x r q p (λ g'. rw e at (h g')) g)
  | inr e ↦ rw e at (h (suc g))
]

module _ (nocase : Bool) where
  -- The step of the induction: `rec` is the claim for less fuel.
  abbrev Claim : ℕ → Type 0
  Claim n =
      (f g : ℕ) (p s u : Bytes) (r : Runs)
      → f ≤ n
      → NoNul p
      → glob_loop f nocase p s ≡ some true
      → Follows u r
      → Found (u ++ s) (literal_loop g p r)

  onward : (u v t s : Bytes) (r : Runs) → s ≡ v ++ t → Found ((u ++ v) ++ t) r → Found (u ++ s) r
  onward u v t s r e h = rw (e, sym (append_assoc u v t)) h

  all_stars :
      (u s p : Bytes) (r : Runs) (g : ℕ)
      → Found u r
      → skip_stars p ≡ []
      → Found (u ++ s) (literal_loop g p (end_run r))
  all_stars u s p r g h e =
      literal_loop-stars (u ++ s) (end_run r) (end_run_idem r) p
        (λ g'.
          rw (e, literal_loop-nil) (Follows-Found (u ++ s) (end_run r) (end_run-Follows u s r h)))
        g

  past_class :
      (n f g : ℕ) (p s u : Bytes) (sc : ℕ) (r : Runs)
      → Claim n
      → f ≤ n
      → NoNul p
      → glob_loop f nocase (match_class nocase sc p).1 s ≡ some true
      → Follows u r
      → Found (u ++ (sc ∷ s)) (literal_loop g (skip_class p) (end_run r))
  past_class n f g p s u sc r rec le clean m w =
      let q = (match_class nocase sc p).1 in
      let fine = match_class-NoNul nocase sc p clean in
      let ended : (v : Bytes) → Follows (u ++ v) (end_run r) =
        λ v. end_run-Follows u v r (Follows-Found u r w) in
      elim (skip_class_cases nocase sc p) [
        | inl e ↦ rw e (
            onward u (sc ∷ []) s (sc ∷ s) (literal_loop g q (end_run r)) refl
              (rec f g q s (u ++ sc ∷ []) (end_run r) le fine m (ended (sc ∷ []))))
        | inr e ↦ elim (glob_loop-Later nocase f q s m) [
          | inl k ↦
              rw (e, k, literal_loop-nil)
                (Follows-Found (u ++ (sc ∷ s)) (end_run r) (ended (sc ∷ s)))
          | inr (f', v, t, le', cut, m') ↦ rw e (
              onward u (sc ∷ v) t (sc ∷ s) (literal_loop g (to_bracket q) (end_run r))
                (ap (λ l. sc ∷ l) cut)
                (rec f' g (to_bracket q) t (u ++ (sc ∷ v)) (end_run r) (omega arith)
                  (to_bracket-NoNul q fine) m' (ended (sc ∷ v))))
        ]
      ]

  step :
      (n f g c sc : ℕ) (p s u : Bytes) (r : Runs)
      → Claim n
      → f ≤ n
      → NoNul (c ∷ p)
      → Follows u r
      → Taken nocase f c p sc s
      → Found (u ++ (sc ∷ s)) (literal_loop (suc g) (c ∷ p) r)
  unfolding literal_loop
  step n f g c sc p s u r rec le clean w (last_star e k) =
      rw e (all_stars u (sc ∷ s) p r g (Follows-Found u r w) k)
  step n f g c sc p s u r rec le clean w (star v t e cut m) = rw e (
      literal_loop-stars (u ++ (sc ∷ s)) (end_run r) (end_run_idem r) p
        (λ g'. onward u v t (sc ∷ s) (literal_loop g' (skip_stars p) (end_run r)) cut (
          rec f g' (skip_stars p) t (u ++ v) (end_run r) le (skip_stars-NoNul p clean.1) m
            (end_run-Follows u v r (Follows-Found u r w))))
        g)
  step n f g c sc p s u r rec le clean w (any e m) = rw e (
      onward u (sc ∷ []) s (sc ∷ s) (literal_loop g p (end_run r)) refl (
        rec f g p s (u ++ sc ∷ []) (end_run r) le clean.1 m
          (end_run-Follows u (sc ∷ []) r (Follows-Found u r w))))
  step n f g c sc p s u r rec le clean w (class e a m) =
      rw e (past_class n f g p s u sc r rec le clean.1 m w)
  step n f g c sc p s u r rec le clean w (escaped x q e k l m) =
      let fine : NoNul (x ∷ q) = rw k at clean.1 in
      let some_byte : ltb 0 x ≡ true = ground (arith, fine.0) in
      rw (e, k, some_byte)
        (onward u (sc ∷ []) s (sc ∷ s) (literal_loop g q (put_char r x)) refl
          (rec f g q s (u ++ sc ∷ []) (put_char r x) le fine.1 m (put_char-Follows u r x sc l w)))
  step n f g c sc p s u r rec le clean w (plain a b d e l m) =
      rw (a, b, d, e)
        (onward u (sc ∷ []) s (sc ∷ s) (literal_loop g p (put_char r c)) refl
          (rec f g p s (u ++ sc ∷ []) (put_char r c) le clean.1 m (put_char-Follows u r c sc l w)))

  at_end :
      (f g c : ℕ) (p u : Bytes) (r : Runs)
      → glob_loop (suc f) nocase (c ∷ p) [] ≡ some true
      → Follows u r
      → Found (u ++ []) (literal_loop (suc g) (c ∷ p) r)
  unfolding glob_loop literal_loop skip_stars
  at_end f g c p u r m w = elim (Bool-cases (c == b'*')) [
    | inl e ↦
        rw e (
          all_stars u [] p r g (Follows-Found u r w) (rw e at (skip_stars_of_only_stars (c ∷ p) m)))
    | inr e ↦ cc (rw e at (skip_stars_of_only_stars (c ∷ p) m))
  ]

  no_fuel : (p s : Bytes) → ¬ (glob_loop 0 nocase p s ≡ some true)
  unfolding glob_loop
  no_fuel p s h = cc h

  found-glob_loop : (n : ℕ) → Claim n
  unfolding literal_loop
  found-glob_loop n zero g p s u r le clean m w = absurd (no_fuel p s m)
  found-glob_loop zero (suc f) g p s u r le clean m w = absurd (omega arith)
  found-glob_loop (suc n) (suc f) zero p s u r le clean m w =
      Found-append u s r (Follows-Found u r w)
  found-glob_loop (suc n) (suc f) (suc g) [] s u r le clean m w =
      Found-append u s r (Follows-Found u r w)
  found-glob_loop (suc n) (suc f) (suc g) (c ∷ p) [] u r le clean m w = at_end f g c p u r m w
  found-glob_loop (suc n) (suc f) (suc g) (c ∷ p) (sc ∷ s) u r le clean m w =
      step n f g c sc p s u r (found-glob_loop n) (omega arith) clean w
        (glob_loop-Taken nocase f c p sc s m)

-- If a pattern with no NUL matches a text, with or without regard to case, the literal that
-- fsBloomExtractLiteral takes from the pattern occurs in the text, but for the case of letters.
pub extract_literal-Occurs :
    (nocase : Bool) (pattern s : Bytes)
    → NoNul pattern
    → glob_match_internal nocase pattern s ≡ some true
    → Occurs (extract_literal pattern) s
unfolding extract_literal glob_match_internal
extract_literal-Occurs nocase pattern s clean m =
    let r : Runs = literal_loop (length pattern) pattern (record { cur = []; best = [] }) in
    let found =
      found-glob_loop nocase (suc (length pattern)) (suc (length pattern)) (length pattern) pattern
        s [] (record { cur = []; best = [] }) (omega arith) clean m start-Follows in
    elim (Bool-cases (ltb (length (end_run r).best) 3)) [
      | inl e ↦ rw e (Ends-Occurs [] s (Ends-nil s))
      | inr e ↦ rw e (end_run-Occurs s r found)
    ]
