-- ===== src/Glob/Steps.antt =====
-- What a round of fsGlobMatchInternal that leads to a match has found at the head of the pattern.
use redis_fs.Base.{
  ℕ, suc, ◌≡◌, refl, ap, Bool, true, false, Option, none, some, [], ◌∷◌, ◌++◌, arith, ◌==◌,
  if◌then◌else◌, Bool-cases, inl, inr, ==_iff, drop,
}
use redis_fs.Base.ByteStrings.{Bytes}
use redis_fs.Bloom.{lower_char}
use redis_fs.Glob.{
  to_lower, fold_case, skip_stars, match_class, try_each, glob_loop, only_stars, literal,
}

-- A byte that is compared as equal is equal but for its case, whatever the flag.
lower_char-literal :
    (nocase : Bool) (pc sc : ℕ) → literal nocase pc sc ≡ true → lower_char sc ≡ lower_char pc
unfolding literal fold_case to_lower lower_char
lower_char-literal true pc sc h = ground arith
lower_char-literal false pc sc h = ground arith

-- If the rest of the pattern is found by the loop, it is found at the start of a suffix.
try_each-suffix :
    (k : Bytes → Option Bool) (s : Bytes)
    → try_each k s ≡ some true
    → (v t : Bytes) × (s ≡ v ++ t) × (k t ≡ some true)
unfolding try_each
try_each-suffix k [] h = ([], [], refl, h)
try_each-suffix k (c ∷ s) h = split (try_each-suffix k s) (k (c ∷ s)) refl
  where
    split :
        (try_each k s ≡ some true → (v t : Bytes) × (s ≡ v ++ t) × (k t ≡ some true))
        → (o : Option Bool) → k (c ∷ s) ≡ o
        → (v t : Bytes) × (c ∷ s ≡ v ++ t) × (k t ≡ some true)
    split later none e = cc (rw (try_each, e) at h)
    split later (some true) e = ([], c ∷ s, refl, e)
    split later (some false) e =
        let (v, t, q, m) = later (rw (try_each, e) at h) in (c ∷ v, t, ap (λ l. c ∷ l) q, m)

pub skip_stars_of_only_stars : (p : Bytes) → some (only_stars p) ≡ some true → skip_stars p ≡ []
unfolding only_stars
skip_stars_of_only_stars p h = split (skip_stars p) refl
  where
    split : (q : Bytes) → skip_stars p ≡ q → skip_stars p ≡ []
    split [] e = e
    split (c ∷ q) e = cc (rw (only_stars, e) at h)

module _ (nocase : Bool) (f : ℕ) where
  -- The head of the pattern, and how the match goes on.
  pub data Taken (pc : ℕ) (p : Bytes) (sc : ℕ) (s : Bytes) : Type 0 where
    last_star : pc ≡ b'*' → skip_stars p ≡ [] → Taken pc p sc s
    star :
        (v t : Bytes)
        → pc ≡ b'*'
        → sc ∷ s ≡ v ++ t
        → glob_loop f nocase (skip_stars p) t ≡ some true
        → Taken pc p sc s
    any : pc ≡ b'?' → glob_loop f nocase p s ≡ some true → Taken pc p sc s
    class :
        pc ≡ b'['
        → (match_class nocase sc p).0 ≡ true
        → glob_loop f nocase (match_class nocase sc p).1 s ≡ some true
        → Taken pc p sc s
    escaped :
        (c : ℕ) (q : Bytes)
        → pc ≡ 92
        → p ≡ c ∷ q
        → lower_char sc ≡ lower_char c
        → glob_loop f nocase q s ≡ some true
        → Taken pc p sc s
    plain :
        (pc == b'*') ≡ false
        → (pc == b'?') ≡ false
        → (pc == b'[') ≡ false
        → (pc == 92) ≡ false
        → lower_char sc ≡ lower_char pc
        → glob_loop f nocase p s ≡ some true
        → Taken pc p sc s

  if-true :
      (b : Bool) (o : Option Bool)
      → (if b then o else some false) ≡ some true
      → (b ≡ true) × (o ≡ some true)
  if-true true o h = (refl, h)
  if-true false o h = cc h

  module _ (pc : ℕ) (p : Bytes) (sc : ℕ) (s : Bytes) where
    starred :
        (q : Bytes)
        → skip_stars p ≡ q
        → pc ≡ b'*'
        → elim q [ [] ↦ some true | _ ↦ try_each (glob_loop f nocase (skip_stars p)) (sc ∷ s) ]
          ≡ some true
        → Taken pc p sc s
    starred [] e k h = last_star k e
    starred (c ∷ q) e k h =
        let (v, t, cut, m) = try_each-suffix (glob_loop f nocase (skip_stars p)) (sc ∷ s) h in
        star v t k cut m

    after_escape :
        (q : Bytes)
        → p ≡ q
        → pc ≡ 92
        → elim q [
          | [] ↦ some false
          | c ∷ _ ↦ if literal nocase c sc then glob_loop f nocase (drop 1 p) s else some false
        ]
          ≡ some true
        → Taken pc p sc s
    after_escape [] e k h = cc h
    after_escape (c ∷ q) e k h =
        let (same, m) = if-true (literal nocase c sc) (glob_loop f nocase (drop 1 p) s) h in
        escaped c q k e (lower_char-literal nocase c sc same) (rw (ap (drop 1) e) at m)

    pub glob_loop-Taken : glob_loop (suc f) nocase (pc ∷ p) (sc ∷ s) ≡ some true → Taken pc p sc s
    unfolding glob_loop
    glob_loop-Taken h = elim (Bool-cases (pc == b'*')) [
      | inl e ↦ starred (skip_stars p) refl ((==_iff pc b'*').0 e) (rw (glob_loop, e) at h)
      | inr e ↦ elim (Bool-cases (pc == b'?')) [
        | inl k ↦ any ((==_iff pc b'?').0 k) (rw (glob_loop, e, k) at h)
        | inr k ↦ elim (Bool-cases (pc == b'[')) [
          | inl l ↦
              let (accepted, m) =
                if-true (match_class nocase sc p).0
                  (glob_loop f nocase (match_class nocase sc p).1 s)
                  (rw (glob_loop, e, k, l) at h) in
              class ((==_iff pc b'[').0 l) accepted m
          | inr l ↦ elim (Bool-cases (pc == 92)) [
            | inl b ↦ after_escape p refl ((==_iff pc 92).0 b) (rw (glob_loop, e, k, l, b) at h)
            | inr b ↦
                let (same, m) =
                  if-true (literal nocase pc sc) (glob_loop f nocase p s)
                    (rw (glob_loop, e, k, l, b) at h) in
                plain e k l b (lower_char-literal nocase pc sc same) m
          ]
        ]
      ]
    ]
