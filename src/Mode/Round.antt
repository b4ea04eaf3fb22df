-- ===== src/Mode/Round.antt =====
-- fsParseModeStrict reads the text that LS and STAT print of a mode.
use redis_fs.Base.{
  ◌^◌, ℕ, ◌+◌, ◌*◌, ◌≡◌, ◌<◌, ◌≤◌, ◌∙◌, ◌/◌, ◌%◌, true, false, some, [], ◌∷◌, arith, ltb, leb, ◌==◌,
  c_str,
}
use redis_fs.Base.ByteStrings.{Bytes, c_str_of_NoNul}
use redis_fs.Text.Wc.{is_space}
use redis_fs.Mode.{skip_space, octal_loop, is_octal, parse_mode, print_mode}

octal_loop-digit :
    (a : ℕ) (s : Bytes) (v : ℕ) → a < 8 → octal_loop ((48 + a) ∷ s) v ≡ octal_loop s (v * 8 + a)
unfolding octal_loop
octal_loop-digit a s v h = ground arith

skip_space-digit : (a : ℕ) (s : Bytes) → a < 8 → skip_space ((48 + a) ∷ s) ≡ (48 + a) ∷ s
unfolding skip_space is_space
skip_space-digit a s h = ground arith

-- Four octal digits are read as their number.
parse_mode-digits :
    (a b c d : ℕ)
    → a < 8
    → b < 8
    → c < 8
    → d < 8
    → parse_mode ((48 + a) ∷ (48 + b) ∷ (48 + c) ∷ (48 + d) ∷ [])
      ≡ some (((a * 8 + b) * 8 + c) * 8 + d)
unfolding parse_mode octal_loop
parse_mode-digits a b c d ha hb hc hd =
    let s : Bytes = (48 + a) ∷ (48 + b) ∷ (48 + c) ∷ (48 + d) ∷ [] in
    let cut : c_str s ≡ s = c_str_of_NoNul s (
      λ (e : 48 + a ≡ 0). absurd (omega arith),
      (
        λ (e : 48 + b ≡ 0). absurd (omega arith),
        (λ (e : 48 + c ≡ 0). absurd (omega arith), (λ (e : 48 + d ≡ 0). absurd (omega arith), tt)),
      ),
    ) in
    let space = skip_space-digit a ((48 + b) ∷ (48 + c) ∷ (48 + d) ∷ []) ha in
    let minus : ((48 + a) == b'-') ≡ false = ground arith in
    let plus : ((48 + a) == b'+') ≡ false = ground arith in
    let octal : is_octal (48 + a) ≡ true = ground arith in
    let done : octal_loop [] ((((0 * 8 + a) * 8 + b) * 8 + c) * 8 + d)
        ≡ (((a * 8 + b) * 8 + c) * 8 + d, []) =
      ground arith in
    let value : octal_loop s 0 ≡ (((a * 8 + b) * 8 + c) * 8 + d, []) =
      octal_loop-digit a ((48 + b) ∷ (48 + c) ∷ (48 + d) ∷ []) 0 ha
      ∙ octal_loop-digit b ((48 + c) ∷ (48 + d) ∷ []) (0 * 8 + a) hb
      ∙ octal_loop-digit c ((48 + d) ∷ []) ((0 * 8 + a) * 8 + b) hc
      ∙ octal_loop-digit d [] (((0 * 8 + a) * 8 + b) * 8 + c) hd
      ∙ done in
    let small : leb (((a * 8 + b) * 8 + c) * 8 + d) 0o7777 ≡ true = ground arith in
    rw (parse_mode, cut, space, minus, plus, value, octal, small)

-- fsParseModeStrict reads back the text that LS and STAT print of a mode of at most 07777.
pub parse_mode-print_mode : (m : ℕ) → m ≤ 0o7777 → parse_mode (print_mode m) ≡ some m
unfolding print_mode
parse_mode-print_mode m h =
    let digits =
      parse_mode-digits (m / 512 % 8) (m / 64 % 8) (m / 8 % 8) (m % 8) (omega arith) (omega arith)
        (omega arith) (omega arith) in
    let small : ltb m 4096 ≡ true = ground arith in
    let sum : ((m / 512 % 8 * 8 + m / 64 % 8) * 8 + m / 8 % 8) * 8 + m % 8 ≡ m = omega arith in
    rw (small) (digits ∙ rw sum)

pub parse_mode-lt : (s : Bytes) (m : ℕ) → parse_mode s ≡ some m → m < 2 ^ 16
unfolding parse_mode
parse_mode-lt s m h = ground arith
