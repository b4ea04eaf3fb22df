-- ===== src/Glob/Bracket.antt =====
-- The end of a class in fsGlobMatchInternal and in fsBloomExtractLiteral: both loops stop behind the
-- same ']'.
use redis_fs.Base.{
  ℕ, zero, suc, ◌≤◌, ◌≡◌, refl, sym, ap, ◌∙◌, Bool, true, false, not, ◌&&◌, ◌||◌, [], ◌∷◌, arith,
  ◌==◌, ltb, if◌then◌else◌, Bool-cases, inl, inr, ==_iff, drop, length, byte_at,
}
use redis_fs.Base.ByteStrings.{Bytes}
use redis_fs.Bloom.{to_bracket}
use redis_fs.Glob.{
  skip_stars, unescape, class_item, class_loop, skip_bracket, is_negated, match_class, fold_case,
}

-- A byte that is not special is skipped.
pub to_bracket-plain :
    (c : ℕ) (p : Bytes)
    → (c == b']') ≡ false
    → (c == 92) ≡ false
    → to_bracket (c ∷ p) ≡ to_bracket p
unfolding to_bracket
to_bracket-plain c [] h k = refl
to_bracket-plain c (d ∷ p) h k = rw (h, k)

pub to_bracket-nil : to_bracket [] ≡ []
unfolding to_bracket
to_bracket-nil = refl

pub to_bracket-bracket : (p : Bytes) → to_bracket (b']' ∷ p) ≡ p
unfolding to_bracket
to_bracket-bracket [] = refl
to_bracket-bracket (d ∷ p) = refl

pub to_bracket-escape : (c : ℕ) (p : Bytes) → to_bracket (92 ∷ c ∷ p) ≡ to_bracket p
unfolding to_bracket
to_bracket-escape c p = refl

pub to_bracket-skip_stars : (p : Bytes) → to_bracket (skip_stars p) ≡ to_bracket p
unfolding skip_stars
to_bracket-skip_stars [] = refl
to_bracket-skip_stars (c ∷ p) = elim (Bool-cases (c == b'*')) [
  | inl e ↦
      let k = (==_iff c b'*').0 e in
      rw e (to_bracket-skip_stars p ∙ sym (to_bracket-plain c p (rw k) (rw k)))
  | inr e ↦ rw e
]

-- One character of a class, which may be escaped, is skipped at once.
to_bracket-unescape :
    (p : Bytes) → (byte_at p 0 == b']') ≡ false → to_bracket (drop 1 (unescape p)) ≡ to_bracket p
unfolding to_bracket unescape
to_bracket-unescape [] h = refl
to_bracket-unescape (c ∷ []) h = refl
to_bracket-unescape (c ∷ d ∷ p) h = elim (Bool-cases (c == 92)) [
  | inl e ↦ rw (h, e)
  | inr e ↦ rw (h, e)
]

length-drop-unescape : (c : ℕ) (p : Bytes) → length (drop 1 (unescape (c ∷ p))) ≤ length p
unfolding unescape
length-drop-unescape c [] = omega arith
length-drop-unescape c (d ∷ p) = ground arith

length-drop-unescape_any : (p : Bytes) → length (drop 1 (unescape p)) ≤ length p
unfolding unescape
length-drop-unescape_any [] = omega arith
length-drop-unescape_any (c ∷ p) = omega (arith, length-drop-unescape c p)

byte_at-drop : (n : ℕ) (p : Bytes) → byte_at (drop n p) 0 ≡ byte_at p n
byte_at-drop zero p = refl
byte_at-drop (suc n) [] = refl
byte_at-drop (suc n) (c ∷ p) = byte_at-drop n p

drop_dash : (p : Bytes) → (byte_at p 1 == b'-') ≡ true → drop 1 p ≡ b'-' ∷ drop 2 p
drop_dash [] h = cc h
drop_dash (c ∷ []) h = cc h
drop_dash (c ∷ d ∷ p) h = rw ((==_iff d b'-').0 h)

-- A round of the loop over a class leaves what the other loop finds the same ']' in, and takes a byte.
class_item-to_bracket :
    (nocase : Bool) (sc c : ℕ) (p : Bytes)
    → (c == b']') ≡ false
    → (to_bracket (class_item nocase sc (c ∷ p)).1 ≡ to_bracket (c ∷ p))
      × (length (class_item nocase sc (c ∷ p)).1 ≤ length p)
unfolding class_item
class_item-to_bracket nocase sc c p h =
    let q = unescape (c ∷ p) in
    elim (Bool-cases (byte_at q 1 == b'-' && (ltb 0 (byte_at q 2) && not (byte_at q 2 == b']')))) [
      | inl e ↦
          let dash : (byte_at q 1 == b'-') ≡ true = ground arith in
          let other : (byte_at q 2 == b']') ≡ false = ground arith in
          let head : byte_at (drop 2 q) 0 ≡ byte_at q 2 = byte_at-drop 2 q in
          let long = length-drop-unescape c p in
          let last = length-drop-unescape_any (drop 2 q) in
          let count = ap length (drop_dash q dash) in
          rw e (
            to_bracket-unescape (drop 2 q) (rw head other)
                ∙ sym (to_bracket-plain b'-' (drop 2 q) refl refl)
                ∙ ap to_bracket (sym (drop_dash q dash))
                ∙ to_bracket-unescape (c ∷ p) h,
            omega arith,
          )
      | inr e ↦ rw e (to_bracket-unescape (c ∷ p) h, length-drop-unescape c p)
    ]

skip_bracket-class_loop :
    (f : ℕ) (nocase : Bool) (sc : ℕ) (p : Bytes) (m : Bool)
    → length p ≤ f
    → skip_bracket (class_loop f nocase sc p m).1 ≡ to_bracket p
unfolding class_loop skip_bracket to_bracket
skip_bracket-class_loop zero nocase sc [] m h = refl
skip_bracket-class_loop zero nocase sc (c ∷ p) m h = absurd (omega arith)
skip_bracket-class_loop (suc f) nocase sc [] m h = refl
skip_bracket-class_loop (suc f) nocase sc (c ∷ p) m h = elim (Bool-cases (c == b']')) [
  | inl e ↦ rw e (at_bracket p e)
  | inr e ↦
      let item = class_item nocase sc (c ∷ p) in
      let (same, shorter) = class_item-to_bracket nocase sc c p e in
      rw e (skip_bracket-class_loop f nocase sc item.1 (m || item.0) (omega arith) ∙ same)
]
  where
    at_bracket : (q : Bytes) → (c == b']') ≡ true → skip_bracket (c ∷ q) ≡ to_bracket (c ∷ q)
    at_bracket [] e = rw e
    at_bracket (d ∷ q) e = rw e

-- The class behind its '[', without the '!' or '^'.
unfoldable pub class_body : Bytes → Bytes
class_body p = if is_negated p then drop 1 p else p

pub match_class-to_bracket :
    (nocase : Bool) (c : ℕ) (p : Bytes) → (match_class nocase c p).1 ≡ to_bracket (class_body p)
unfolding match_class class_body
match_class-to_bracket nocase c p =
    let q = if is_negated p then drop 1 p else p in
    skip_bracket-class_loop (length q) nocase (fold_case nocase c) q false (omega arith)

-- The '!' or '^' of a negated class is not special to the other loop.
pub to_bracket-class_body : (p : Bytes) → to_bracket (class_body p) ≡ to_bracket p
unfolding class_body is_negated
to_bracket-class_body [] = refl
to_bracket-class_body (c ∷ p) = elim (Bool-cases (c == b'!')) [
  | inl e ↦ let k = (==_iff c b'!').0 e in rw e (sym (to_bracket-plain c p (rw k) (rw k)))
  | inr e ↦ elim (Bool-cases (c == b'^')) [
    | inl q ↦ let k = (==_iff c b'^').0 q in rw (e, q) (sym (to_bracket-plain c p (rw k) (rw k)))
    | inr q ↦ rw (e, q)
  ]
]
