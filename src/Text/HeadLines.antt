-- ===== src/Text/HeadLines.antt =====
-- HEAD: the first lines.
use redis_fs.Base.{
  ℕ, zero, suc, ◌+◌, ◌-◌, ◌≤◌, ◌<◌, ◌≡◌, refl, [], ◌∷◌, ◌==◌, if◌then◌else◌, arith, Bool-cases, inl,
  inr, true, false, ==_iff, length, take,
}
use redis_fs.Base.ByteStrings.{Bytes}
use redis_fs.Text.Lines.{newline}
use redis_fs.Text.Head.{head_loop, head}
use redis_fs.Text.Spec.{first_line, other_lines, lines_of, join_from, join_lines, join_from-cons}

head_loop_from :
    (n size : ℕ) (s : Bytes) (i current : ℕ)
    → i + length s ≡ size
    → i ≤ head_loop n size s i current
unfolding head_loop
head_loop_from n size [] i current e = omega arith
head_loop_from n size (c ∷ s) i current e =
    let h =
      head_loop_from n size s (i + 1) (if c == newline then current + 1 else current)
        (omega arith) in
    ground arith

take-later : (h i c : ℕ) (s : Bytes) → i + 1 ≤ h → take (h - i) (c ∷ s) ≡ c ∷ take (h - (i + 1)) s
take-later h i c s le = let e : h - i ≡ suc (h - (i + 1)) = omega arith in rw e

take-nil : {A : Type 0} (n : ℕ) → take {A = A} n [] ≡ []
take-nil zero = refl
take-nil (suc n) = refl

head_loop_plain :
    (n size c : ℕ) (s : Bytes) (i current : ℕ)
    → (c == newline) ≡ false
    → head_loop n size (c ∷ s) i current ≡ head_loop n size s (i + 1) current
unfolding head_loop
head_loop_plain n size c s i current q = rw q

head_loop_stop :
    (n size c : ℕ) (s : Bytes) (i : ℕ) → (c == newline) ≡ true → head_loop n size (c ∷ s) i n ≡ i
unfolding head_loop
head_loop_stop n size c s i q = ground arith

head_loop_next :
    (n size c : ℕ) (s : Bytes) (i current : ℕ)
    → (c == newline) ≡ true
    → current < n
    → head_loop n size (c ∷ s) i current ≡ head_loop n size s (i + 1) (current + 1)
unfolding head_loop
head_loop_next n size c s i current q lt =
    let other : (current == n) ≡ false = ground arith in rw (q, other)

-- From offset i on, m lines are wanted behind the current one.
abbrev Wanted : ℕ → ℕ → ℕ → Bytes → ℕ → ℕ → Type 0
Wanted m n size s i current =
    take (head_loop n size s i current - i) s ≡ join_from (first_line s) (take m (other_lines s))

Wanted-plain :
    (m n size c : ℕ) (s : Bytes) (i current : ℕ)
    → (c == newline) ≡ false
    → i + suc (length s) ≡ size
    → Wanted m n size s (i + 1) current
    → Wanted m n size (c ∷ s) i current
unfolding first_line other_lines
Wanted-plain m n size c s i current q e rest = rw (
  head_loop_plain n size c s i current q,
  take-later (head_loop n size s (i + 1) current) i c s
      (head_loop_from n size s (i + 1) current (omega arith)),
  rest,
  q,
  join_from-cons c (first_line s) (take m (other_lines s)),
)

Wanted-newline :
    (m n size c : ℕ) (s : Bytes) (i current : ℕ)
    → (c == newline) ≡ true
    → i + suc (length s) ≡ size
    → current < n
    → Wanted m n size s (i + 1) (current + 1)
    → Wanted (suc m) n size (c ∷ s) i current
unfolding first_line other_lines
Wanted-newline m n size c s i current q e lt rest = rw (
  head_loop_next n size c s i current q lt,
  take-later (head_loop n size s (i + 1) (current + 1)) i c s
      (head_loop_from n size s (i + 1) (current + 1) (omega arith)),
  rest,
  q,
  (==_iff c newline).0 q,
)

take-head_loop :
    (m n size : ℕ) (s : Bytes) (i current : ℕ)
    → n ≡ current + m
    → i + length s ≡ size
    → Wanted m n size s i current
unfolding first_line other_lines
take-head_loop m n size [] i current at e =
    rw (take-nil {A = Bytes} m) (take-nil {A = ℕ} (head_loop n size [] i current - i))
take-head_loop zero n size (c ∷ s) i current at e = elim (Bool-cases (c == newline)) [
  | inr q ↦
      Wanted-plain zero n size c s i current q e
        (take-head_loop zero n size s (i + 1) current at (omega arith))
  | inl q ↦
      let same : n ≡ current = omega arith in
      let none_left : i - i ≡ 0 = omega arith in
      rw (same, head_loop_stop current size c s i q, none_left, q)
]
take-head_loop (suc m) n size (c ∷ s) i current at e = elim (Bool-cases (c == newline)) [
  | inr q ↦
      Wanted-plain (suc m) n size c s i current q e
        (take-head_loop (suc m) n size s (i + 1) current at (omega arith))
  | inl q ↦
      Wanted-newline m n size c s i current q e (omega arith)
        (take-head_loop m n size s (i + 1) (current + 1) (omega arith) (omega arith))
]

-- HEAD replies the first n lines of a file, with a newline between each and the next.
pub head-eq-take :
    (n : ℕ) (content : Bytes) → head n content ≡ join_lines (take n (lines_of content))
unfolding head
head-eq-take zero content = refl
head-eq-take (suc m) content =
    let nonzero : (suc m == 0) ≡ false = ground arith in
    let from_zero : head_loop (suc m) (length content) content 0 1 - 0
        ≡ head_loop (suc m) (length content) content 0 1 =
      omega arith in
    rw nonzero (
      rw from_zero at
        (take-head_loop m (suc m) (length content) content 0 1 (omega arith) (omega arith)))
