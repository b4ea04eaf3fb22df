-- ===== src/Bloom/Sound.antt =====
-- fsBloomBuild and fsBloomMayMatch: the filter of a content never rejects a literal that is in it.
use mathlib.Core.Path.{◌∙◌}
use redis_fs.Base.{
  ℕ, ◌≡◌, refl, sym, ap, Bool, true, false, [], ◌∷◌, ◌++◌, map, arith, if◌then◌else◌,
}
use redis_fs.Base.ByteStrings.{Bytes}
use redis_fs.Bloom.{
  bloom_hash1, bloom_hash2, bloom_set, bloom_test, lower_char, empty_bloom, add_trigram,
  add_trigrams, bloom_build, extract_literal, test_trigrams, bloom_may_match,
}
use redis_fs.Bloom.Bits.{
  IsBloom, bloom_set-IsBloom, bloom_test-bloom_set, bloom_test-bloom_set_keep, empty_bloom-IsBloom,
}

add_trigram-IsBloom : (bl : Bytes) (a b c : ℕ) → IsBloom bl → IsBloom (add_trigram bl a b c)
unfolding add_trigram
add_trigram-IsBloom bl a b c h =
    bloom_set-IsBloom (bloom_set bl (bloom_hash1 a b c))
      (bloom_set-IsBloom bl h (bloom_hash1 a b c)) (bloom_hash2 a b c)

bloom_test-add_trigram :
    (bl : Bytes) (a b c hash : ℕ)
    → IsBloom bl
    → bloom_test bl hash ≡ true
    → bloom_test (add_trigram bl a b c) hash ≡ true
unfolding add_trigram
bloom_test-add_trigram bl a b c hash h t =
    let first = bloom_set bl (bloom_hash1 a b c) in
    bloom_test-bloom_set_keep first (bloom_set-IsBloom bl h (bloom_hash1 a b c)) (bloom_hash2 a b c)
      hash (bloom_test-bloom_set_keep bl h (bloom_hash1 a b c) hash t)

-- Both hashes of a trigram test as set once it is added.
bloom_test-add_trigram_self :
    (bl : Bytes) (a b c : ℕ)
    → IsBloom bl
    → (bloom_test (add_trigram bl a b c) (bloom_hash1 a b c) ≡ true)
      × (bloom_test (add_trigram bl a b c) (bloom_hash2 a b c) ≡ true)
unfolding add_trigram
bloom_test-add_trigram_self bl a b c h =
    let first = bloom_set bl (bloom_hash1 a b c) in
    let fine = bloom_set-IsBloom bl h (bloom_hash1 a b c) in
    (
      bloom_test-bloom_set_keep first fine (bloom_hash2 a b c) (bloom_hash1 a b c)
          (bloom_test-bloom_set bl h (bloom_hash1 a b c)),
      bloom_test-bloom_set first fine (bloom_hash2 a b c),
    )

bloom_test-add_trigrams :
    (s bl : Bytes) (hash : ℕ)
    → IsBloom bl
    → bloom_test bl hash ≡ true
    → bloom_test (add_trigrams s bl) hash ≡ true
unfolding add_trigrams
bloom_test-add_trigrams [] bl hash h t = t
bloom_test-add_trigrams (x ∷ []) bl hash h t = t
bloom_test-add_trigrams (x ∷ y ∷ []) bl hash h t = t
bloom_test-add_trigrams (x ∷ y ∷ z ∷ s) bl hash h t =
    let a = lower_char x in
    let b = lower_char y in
    let c = lower_char z in
    bloom_test-add_trigrams (y ∷ z ∷ s) (add_trigram bl a b c) hash (add_trigram-IsBloom bl a b c h)
      (bloom_test-add_trigram bl a b c hash h t)

-- All trigrams that were added test as set.
test_trigrams-add_trigrams :
    (s bl : Bytes) → IsBloom bl → test_trigrams s (add_trigrams s bl) ≡ true
unfolding test_trigrams add_trigrams
test_trigrams-add_trigrams [] bl h = refl
test_trigrams-add_trigrams (x ∷ []) bl h = refl
test_trigrams-add_trigrams (x ∷ y ∷ []) bl h = refl
test_trigrams-add_trigrams (x ∷ y ∷ z ∷ s) bl h =
    let a = lower_char x in
    let b = lower_char y in
    let c = lower_char z in
    let next = add_trigram bl a b c in
    let fine = add_trigram-IsBloom bl a b c h in
    let (one, two) = bloom_test-add_trigram_self bl a b c h in
    rw
      (
        bloom_test-add_trigrams (y ∷ z ∷ s) next (bloom_hash1 a b c) fine one,
        bloom_test-add_trigrams (y ∷ z ∷ s) next (bloom_hash2 a b c) fine two,
      )
      (test_trigrams-add_trigrams (y ∷ z ∷ s) next fine)

test_trigrams-tail :
    (x : ℕ) (s bl : Bytes) → test_trigrams (x ∷ s) bl ≡ true → test_trigrams s bl ≡ true
unfolding test_trigrams
test_trigrams-tail x [] bl h = refl
test_trigrams-tail x (y ∷ []) bl h = refl
test_trigrams-tail x (y ∷ z ∷ s) bl h = ground arith

test_trigrams-prefix :
    (s t bl : Bytes) → test_trigrams (s ++ t) bl ≡ true → test_trigrams s bl ≡ true
unfolding test_trigrams
test_trigrams-prefix [] t bl h = refl
test_trigrams-prefix (x ∷ []) t bl h = refl
test_trigrams-prefix (x ∷ y ∷ []) t bl h = refl
test_trigrams-prefix (x ∷ y ∷ z ∷ s) t bl h = ground (arith, test_trigrams-prefix (y ∷ z ∷ s) t bl)

test_trigrams-suffix :
    (s t bl : Bytes) → test_trigrams (s ++ t) bl ≡ true → test_trigrams t bl ≡ true
test_trigrams-suffix [] t bl h = h
test_trigrams-suffix (x ∷ s) t bl h =
    test_trigrams-suffix s t bl (test_trigrams-tail x (s ++ t) bl h)

-- The test of bytes that are lowered already.
unfoldable test_lowered : Bytes → Bytes → Bool
test_lowered (x ∷ y ∷ z ∷ s) bl =
    let rest = test_lowered (y ∷ z ∷ s) bl in
    if bloom_test bl (bloom_hash1 x y z)
    then if bloom_test bl (bloom_hash2 x y z) then rest else false
    else false
test_lowered s bl = true

test_trigrams-eq-test_lowered :
    (s bl : Bytes) → test_trigrams s bl ≡ test_lowered (map lower_char s) bl
unfolding test_trigrams test_lowered
test_trigrams-eq-test_lowered [] bl = refl
test_trigrams-eq-test_lowered (x ∷ []) bl = refl
test_trigrams-eq-test_lowered (x ∷ y ∷ []) bl = refl
test_trigrams-eq-test_lowered (x ∷ y ∷ z ∷ s) bl = rw (test_trigrams-eq-test_lowered (y ∷ z ∷ s) bl)

-- If a content holds, but for the case of letters, the literal of a pattern, then fsBloomMayMatch
-- with the filter that fsBloomBuild makes of the content does not reject the pattern.
pub bloom_may_match-bloom_build :
    (pattern before middle after : Bytes)
    → map lower_char middle ≡ map lower_char (extract_literal pattern)
    → bloom_may_match
        (before ++ (middle ++ after))
        (bloom_build (before ++ (middle ++ after)))
        pattern
      ≡ true
unfolding bloom_may_match bloom_build
bloom_may_match-bloom_build pattern before middle after same =
    let content = before ++ (middle ++ after) in
    let bl = add_trigrams content empty_bloom in
    let all = test_trigrams-add_trigrams content empty_bloom empty_bloom-IsBloom in
    let middle_in =
      test_trigrams-prefix middle after bl (test_trigrams-suffix before (middle ++ after) bl all) in
    let literal_in : test_trigrams (extract_literal pattern) bl ≡ true =
      test_trigrams-eq-test_lowered (extract_literal pattern) bl
      ∙ ap (λ s. test_lowered s bl) (sym same)
      ∙ sym (test_trigrams-eq-test_lowered middle bl)
      ∙ middle_in in
    ground arith
