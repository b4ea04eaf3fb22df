-- ===== src/Bloom/Bits.antt =====
-- fsBloomSet and fsBloomTest: a bit that is set tests as set, and stays set.
use Prim.Native.Nat.{bit_or}
use mathlib.Core.Path.{◌∙◌}
use redis_fs.Base.{
  ℕ, zero, suc, ◌/◌, ◌%◌, ◌^◌, ◌<◌, ◌≡◌, refl, ap, ◌≢◌, Bool, true, false, not, ◌&&◌, ◌||◌, [], ◌∷◌,
  ◌+◌, if◌then◌else◌, ==_iff, arith, ltb, ◌==◌, Bool-cases, inl, inr, length, get_or, set,
  replicate, All, byte_at,
}
use redis_fs.Base.ByteStrings.{Bytes}
use redis_fs.Bloom.{bloom_bytes, bloom_bits, bloom_set, bloom_test, empty_bloom}

-- How many numbers under a bound fail a test; none fails if the count is 0.
exceptions : (ℕ → Bool) → ℕ → ℕ
exceptions test zero = 0
exceptions test (suc bound) = (if test bound then 0 else 1) + exceptions test bound

passes :
    (test : ℕ → Bool) (bound : ℕ) → exceptions test bound ≡ 0 → (i : ℕ) → i < bound → test i ≡ true
unfolding exceptions
passes test zero none i lt = absurd (omega arith)
passes test (suc bound) none i lt = elim (Bool-cases (i == bound)) [
  | inl e ↦ let q : i ≡ bound = ground arith in rw q (ground arith)
  | inr e ↦
      let under : i < bound = ground arith in
      let fewer : exceptions test bound ≡ 0 = ground arith in passes test bound fewer i under
]

-- Bit m of a byte.
abbrev bit : ℕ → ℕ → Bool
bit b m = (b / 2 ^ m) % 2 == 1

-- Setting bit k of a byte gives a byte with bit k set and the other bits kept.
abbrev sets : ℕ → ℕ → Bool
sets b k =
    let c = bit_or b (2 ^ k) in
    ltb c 256 && (bit c k && exceptions (λ m. not (bit b m) || bit c m) 8 == 0)

sets_table : exceptions (λ b. exceptions (sets b) 8 == 0) 256 ≡ 0
unfolding exceptions
sets_table = refl

sets_all : (b k : ℕ) → b < 256 → k < 8 → sets b k ≡ true
sets_all b k hb hk =
    let row : (exceptions (sets b) 8 == 0) ≡ true =
      passes (λ b. exceptions (sets b) 8 == 0) 256 sets_table b hb in
    passes (sets b) 8 ((==_iff _ 0).0 row) k hk

and_left : (a b : Bool) → (a && b) ≡ true → a ≡ true
and_left true b h = refl
and_left false b h = cc

and_right : (a b : Bool) → (a && b) ≡ true → b ≡ true
and_right true b h = h
and_right false b h = cc

byte_or : (b k : ℕ) → b < 256 → k < 8 → bit_or b (2 ^ k) < 256
byte_or b k hb hk =
    let h : ltb (bit_or b (2 ^ k)) 256 ≡ true = and_left _ _ (sets_all b k hb hk) in ground arith

bit-or_self : (b k : ℕ) → b < 256 → k < 8 → bit (bit_or b (2 ^ k)) k ≡ true
bit-or_self b k hb hk = and_left _ _ (and_right _ _ (sets_all b k hb hk))

bit-or_keep :
    (b k m : ℕ) → b < 256 → k < 8 → m < 8 → bit b m ≡ true → bit (bit_or b (2 ^ k)) m ≡ true
bit-or_keep b k m hb hk hm h =
    let all = and_right _ _ (and_right _ _ (sets_all b k hb hk)) in
    let here =
      passes (λ m. not (bit b m) || bit (bit_or b (2 ^ k)) m) 8 ((==_iff _ 0).0 all) m hm in
    rw h at here

-- 256 bytes.
pub record IsBloom (bloom : Bytes) : Type 0 where
  pub size : length bloom ≡ bloom_bytes
  pub bytes : All (λ b. b < 256) bloom

get_or-set_self : (xs : Bytes) (i v : ℕ) → i < length xs → get_or (set xs i v) i 0 ≡ v
get_or-set_self [] i v h = absurd (omega arith)
get_or-set_self (x ∷ xs) zero v h = refl
get_or-set_self (x ∷ xs) (suc i) v h = get_or-set_self xs i v (omega arith)

get_or-set_ne : (xs : Bytes) (i j v : ℕ) → i ≢ j → get_or (set xs i v) j 0 ≡ get_or xs j 0
get_or-set_ne [] i j v h = refl
get_or-set_ne (x ∷ xs) zero zero v h = absurd (h refl)
get_or-set_ne (x ∷ xs) zero (suc j) v h = refl
get_or-set_ne (x ∷ xs) (suc i) zero v h = refl
get_or-set_ne (x ∷ xs) (suc i) (suc j) v h = get_or-set_ne xs i j v (λ e. h (ap suc e))

length-set : (xs : Bytes) (i v : ℕ) → length (set xs i v) ≡ length xs
length-set [] i v = refl
length-set (x ∷ xs) zero v = refl
length-set (x ∷ xs) (suc i) v = ap suc (length-set xs i v)

All-set : (xs : Bytes) (i v : ℕ) → v < 256 → All (λ b. b < 256) xs → All (λ b. b < 256) (set xs i v)
All-set [] i v h k = tt
All-set (x ∷ xs) zero v h k = (h, k.1)
All-set (x ∷ xs) (suc i) v h k = (k.0, All-set xs i v h k.1)

get_or-lt : (xs : Bytes) (i : ℕ) → All (λ b. b < 256) xs → get_or xs i 0 < 256
get_or-lt [] i h = omega arith
get_or-lt (x ∷ xs) zero h = h.0
get_or-lt (x ∷ xs) (suc i) h = get_or-lt xs i h.1

module _ (bloom : Bytes) (b : IsBloom bloom) where
  pub bloom_set-IsBloom : (hash : ℕ) → IsBloom (bloom_set bloom hash)
  unfolding bloom_set
  bloom_set-IsBloom hash =
      let i = (hash % bloom_bits) / 8 in
      let v = bit_or (byte_at bloom i) (2 ^ ((hash % bloom_bits) % 8)) in
      record {
        size = length-set bloom i v ∙ b.size;
        bytes = All-set bloom i v (byte_or _ _ (get_or-lt bloom i b.bytes) (omega arith)) b.bytes;
      }

  -- A hash that is set tests as set.
  pub bloom_test-bloom_set : (hash : ℕ) → bloom_test (bloom_set bloom hash) hash ≡ true
  unfolding bloom_set bloom_test
  bloom_test-bloom_set hash =
      let i = (hash % bloom_bits) / 8 in
      let k = (hash % bloom_bits) % 8 in
      rw (get_or-set_self bloom i (bit_or (byte_at bloom i) (2 ^ k)) (omega (arith, b.size)))
        (bit-or_self (byte_at bloom i) k (get_or-lt bloom i b.bytes) (omega arith))

  -- Setting a hash clears no other.
  pub bloom_test-bloom_set_keep :
      (hash other : ℕ)
      → bloom_test bloom other ≡ true
      → bloom_test (bloom_set bloom hash) other ≡ true
  unfolding bloom_set bloom_test
  bloom_test-bloom_set_keep hash other h =
      let i = (hash % bloom_bits) / 8 in
      let j = (other % bloom_bits) / 8 in
      let k = (hash % bloom_bits) % 8 in
      let v = bit_or (byte_at bloom i) (2 ^ k) in
      elim (Bool-cases (i == j)) [
        | inl e ↦
            let q : j ≡ i = ground arith in
            rw (q, get_or-set_self bloom i v (omega (arith, b.size)))
              (bit-or_keep (byte_at bloom i) k ((other % bloom_bits) % 8)
                (get_or-lt bloom i b.bytes) (omega arith) (omega arith) (rw q at h))
        | inr e ↦ rw (get_or-set_ne bloom i j v (ground arith)) h
      ]

replicate-zero : (n : ℕ) → (length {A = ℕ} (replicate n 0) ≡ n) × All (λ b. b < 256) (replicate n 0)
replicate-zero zero = (refl, tt)
replicate-zero (suc n) = let (e, h) = replicate-zero n in (ap suc e, (omega arith, h))

pub empty_bloom-IsBloom : IsBloom empty_bloom
unfolding empty_bloom
empty_bloom-IsBloom = let (e, h) = replicate-zero bloom_bytes in record { size = e; bytes = h }
