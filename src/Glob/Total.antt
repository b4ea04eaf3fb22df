-- ===== src/Glob/Total.antt =====
-- fsGlobMatchInternal answers on every pattern and text: the fuel of the model is enough.
use redis_fs.Base.{
  ℕ, zero, suc, ◌≤◌, ◌<◌, ◌≡◌, refl, Bool, true, false, ◌||◌, Option, some, [], ◌∷◌, arith, ◌==◌,
  if◌then◌else◌, length, drop, length-drop, Bool-cases, inl, inr,
}
use redis_fs.Base.ByteStrings.{Bytes}
use redis_fs.Glob.{
  fold_case, skip_stars, unescape, class_item, class_loop, skip_bracket, is_negated, match_class,
  try_each, glob_loop, glob_match_internal, only_stars, literal,
}

length-skip_stars : (p : Bytes) → length (skip_stars p) ≤ length p
unfolding skip_stars
length-skip_stars [] = omega arith
length-skip_stars (c ∷ p) = let h = length-skip_stars p in ground arith

length-unescape : (p : Bytes) → length (unescape p) ≤ length p
unfolding unescape
length-unescape [] = omega arith
length-unescape (c ∷ []) = omega arith
length-unescape (c ∷ d ∷ p) = ground arith

-- A round over a class never gives bytes back.
length-class_item :
    (nocase : Bool) (sc : ℕ) (p : Bytes) → length (class_item nocase sc p).1 ≤ length p
unfolding class_item
length-class_item nocase sc p =
    let q = unescape p in
    let r = unescape (drop 2 q) in
    let a = length-unescape p in
    let b = length-unescape (drop 2 q) in
    let c = length-drop 2 q in let d = length-drop 1 q in let e = length-drop 1 r in ground arith

length-class_loop :
    (f : ℕ) (nocase : Bool) (sc : ℕ) (p : Bytes) (m : Bool)
    → length (class_loop f nocase sc p m).1 ≤ length p
unfolding class_loop
length-class_loop zero nocase sc p m = omega arith
length-class_loop (suc f) nocase sc [] m = omega arith
length-class_loop (suc f) nocase sc (c ∷ p) m =
    let item = class_item nocase sc (c ∷ p) in
    let h = length-class_item nocase sc (c ∷ p) in
    let k = length-class_loop f nocase sc item.1 (m || item.0) in ground arith

length-skip_bracket : (p : Bytes) → length (skip_bracket p) ≤ length p
unfolding skip_bracket
length-skip_bracket [] = omega arith
length-skip_bracket (c ∷ p) = ground arith

length-match_class :
    (nocase : Bool) (c : ℕ) (p : Bytes) → length (match_class nocase c p).1 ≤ length p
unfolding match_class
length-match_class nocase c p =
    let q = if is_negated p then drop 1 p else p in
    let a : length q ≤ length p = ground (arith, length-drop 1 p) in
    let b = length-class_loop (length q) nocase (fold_case nocase c) q false in
    let d = length-skip_bracket (class_loop (length q) nocase (fold_case nocase c) q false).1 in
    omega arith

-- There is an answer.
abbrev Answers : Option Bool → Type 0
Answers o = (r : Bool) × (o ≡ some r)

if-Answers : (b : Bool) (x y : Option Bool) → Answers x → Answers y → Answers (if b then x else y)
if-Answers true x y h k = h
if-Answers false x y h k = k

try_each-Answers :
    (k : Bytes → Option Bool) (s : Bytes) → ((t : Bytes) → Answers (k t)) → Answers (try_each k s)
unfolding try_each
try_each-Answers k [] h = h []
try_each-Answers k (c ∷ s) h =
    let (r, e) = h (c ∷ s) in
    let rest = try_each-Answers k s h in
    elim (Bool-cases r) [ inl q ↦ (true, rw (try_each, e, q)) | inr q ↦ rw (try_each, e, q) rest ]

module _ (nocase : Bool) where
  glob_loop-Answers : (f : ℕ) (p s : Bytes) → length p < f → Answers (glob_loop f nocase p s)
  unfolding glob_loop
  glob_loop-Answers zero p s h = absurd (omega arith)
  glob_loop-Answers (suc f) [] [] h = (true, refl)
  glob_loop-Answers (suc f) [] (sc ∷ s) h = (false, refl)
  glob_loop-Answers (suc f) (pc ∷ p) [] h = (only_stars (pc ∷ p), refl)
  glob_loop-Answers (suc f) (pc ∷ p) (sc ∷ s) h =
      let shorter = length-skip_stars p in
      let class_shorter = length-match_class nocase sc p in
      let drop_shorter = length-drop 1 p in
      let any = glob_loop-Answers f p s (omega arith) in
      let star =
        try_each-Answers (glob_loop f nocase (skip_stars p)) (sc ∷ s)
          (λ t. glob_loop-Answers f (skip_stars p) t (omega arith)) in
      let class = glob_loop-Answers f (match_class nocase sc p).1 s (omega arith) in
      let escaped = glob_loop-Answers f (drop 1 p) s (omega arith) in
      if-Answers (pc == b'*') _ _ (starred (skip_stars p) _ star) (
        if-Answers (pc == b'?') _ _ any (
          if-Answers (pc == b'[') _ _
            (if-Answers (match_class nocase sc p).0 _ _ class (false, refl))
            (if-Answers (pc == 92) _ _ (after_escape p _ escaped)
              (if-Answers (literal nocase pc sc) _ _ any (false, refl)))))
    where
      starred :
          (q : Bytes) (o : Option Bool) → Answers o → Answers (elim q [ [] ↦ some true | _ ↦ o ])
      starred [] o a = (true, refl)
      starred (c ∷ q) o a = a

      after_escape :
          (q : Bytes) (o : Option Bool)
          → Answers o
          → Answers
              (elim q [ [] ↦ some false | c ∷ _ ↦ if literal nocase c sc then o else some false ])
      after_escape [] o a = (false, refl)
      after_escape (c ∷ q) o a = if-Answers (literal nocase c sc) o (some false) a (false, refl)

  -- fsGlobMatchInternal comes to an answer on every pattern and every text: the recursion on stars
  -- does not use up the fuel.
  pub glob_match_internal_total :
      (p s : Bytes) → (r : Bool) × (glob_match_internal nocase p s ≡ some r)
  unfolding glob_match_internal
  glob_match_internal_total p s = glob_loop-Answers (suc (length p)) p s (omega arith)
