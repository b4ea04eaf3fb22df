-- ===== src/Text/ResizeBytes.antt =====
-- The bytes of a file behind TRUNCATE.
use redis_fs.Base.{
  ℕ, zero, suc, ◌-◌, ◌≡◌, refl, ◌∙◌, ap, [], ◌∷◌, ◌++◌, arith, ltb, ◌==◌, if◌then◌else◌, Bool-cases,
  inl, inr, length, take, replicate, byte_at, length-append, length-take, ◌≤◌,
}
use redis_fs.Base.ByteStrings.{Bytes}
use redis_fs.Text.Resize.{resized}

length-replicate : (n c : ℕ) → length {A = ℕ} (replicate n c) ≡ n
length-replicate zero c = refl
length-replicate (suc n) c = ap suc (length-replicate n c)

-- A file that is truncated has the length that is asked for.
pub length-resized : (n : ℕ) (old : Bytes) → length (resized n old) ≡ n
unfolding resized
length-resized n old =
    let taken = length-take n old in
    let added = length-append old (replicate (n - length old) 0) in
    let zeros = length-replicate (n - length old) 0 in
    elim (Bool-cases (n == 0)) [
      | inl e ↦ rw e (ground arith)
      | inr e ↦ elim (Bool-cases (ltb n (length old))) [
        | inl lt ↦ rw (e, lt) (ground arith)
        | inr ge ↦ rw (e, ge) (ground arith)
      ]
    ]

byte_at-zeros : (k i : ℕ) → byte_at (replicate k 0) i ≡ 0
byte_at-zeros zero i = refl
byte_at-zeros (suc k) zero = refl
byte_at-zeros (suc k) (suc i) = byte_at-zeros k i

byte_at-pad : (s : Bytes) (k i : ℕ) → byte_at (s ++ replicate k 0) i ≡ byte_at s i
byte_at-pad [] k i = byte_at-zeros k i
byte_at-pad (c ∷ s) k zero = refl
byte_at-pad (c ∷ s) k (suc i) = byte_at-pad s k i

byte_at_past : (s : Bytes) (i : ℕ) → length s ≤ i → byte_at s i ≡ 0
byte_at_past [] i h = refl
byte_at_past (c ∷ s) zero h = absurd (omega arith)
byte_at_past (c ∷ s) (suc i) h = byte_at_past s i (omega arith)

byte_at-take :
    (n : ℕ) (s : Bytes) (i : ℕ) → byte_at (take n s) i ≡ (if ltb i n then byte_at s i else 0)
byte_at-take zero s i = ground arith
byte_at-take (suc n) [] i = ground arith
byte_at-take (suc n) (c ∷ s) zero = ground arith
byte_at-take (suc n) (c ∷ s) (suc i) = byte_at-take n s i ∙ ground arith

-- TRUNCATE makes a file the length that is asked for; before that length its bytes are the old ones,
-- and zeros where there were none.
pub resized_lem :
    (n : ℕ) (old : Bytes)
    → (length (resized n old) ≡ n)
      × ((i : ℕ) → byte_at (resized n old) i ≡ (if ltb i n then byte_at old i else 0))
unfolding resized
resized_lem n old = (length-resized n old, bytes)
  where
    bytes : (i : ℕ) → byte_at (resized n old) i ≡ (if ltb i n then byte_at old i else 0)
    bytes i = elim (Bool-cases (n == 0)) [
      | inl e ↦ rw e (ground arith)
      | inr e ↦ elim (Bool-cases (ltb n (length old))) [
        | inl lt ↦ rw (e, lt) (byte_at-take n old i)
        | inr ge ↦
            let pad = byte_at-pad old (n - length old) i in
            elim (Bool-cases (ltb i n)) [
              | inl k ↦ rw (e, ge, k) pad
              | inr k ↦ rw (e, ge, k) (pad ∙ byte_at_past old i (ground arith))
            ]
      ]
    ]
