-- ===== src/Mode.antt =====
-- module/fs.c: fsParseModeStrict, and the text of a mode in the replies of LS and STAT.
pub mod Round
use redis_fs.Base.{
  ℕ, zero, suc, ◌+◌, ◌-◌, ◌*◌, ◌/◌, ◌%◌, ◌^◌, Bool, true, false, ◌&&◌, ◌||◌, Option, none, some, [],
  ◌∷◌, ◌++◌, ltb, leb, ◌==◌, if◌then◌else◌, length, drop, byte_at, c_str,
}
use redis_fs.Base.ByteStrings.{Bytes}
use redis_fs.Text.Wc.{is_space}

-- What `strtoul` skips before the sign.
unfoldable pub skip_space : Bytes → Bytes
unfolding is_space
skip_space [] = []
skip_space (c ∷ s) = if is_space c then skip_space s else c ∷ s

abbrev pub is_octal : ℕ → Bool
is_octal c = leb b'0' c && leb c b'7'

-- The digits of `strtoul` in base 8, and what stands behind them. At most 15 digits come here, so the
-- value does not overflow.
unfoldable pub octal_loop : Bytes → ℕ → ℕ × Bytes
octal_loop [] v = (v, [])
octal_loop (c ∷ s) v =
    let rest = octal_loop s (v * 8 + (c - b'0')) in if is_octal c then rest else (v, c ∷ s)

abbrev pub has_sign : Bytes → Bool
has_sign s = byte_at s 0 == b'-' || byte_at s 0 == b'+'

-- `parsed`, which is negated in `unsigned long` behind a '-'.
abbrev pub with_sign : Bytes → ℕ → ℕ
with_sign s v = if byte_at s 0 == b'-' then (2 ^ 64 - v) % 2 ^ 64 else v

-- fsParseModeStrict
unfoldable pub parse_mode : Bytes → Option ℕ
unfolding skip_space octal_loop
parse_mode modestr =
    if length modestr == 0 || leb 16 (length modestr)
    then none
    else let s = skip_space (c_str modestr) in
      let digits = if has_sign s then drop 1 s else s in
      let (v, rest) = octal_loop digits 0 in
      if is_octal (byte_at digits 0) && (length rest == 0 && leb (with_sign s v) 0o7777)
      then some (with_sign s v)
      else none

abbrev pub octal_digit : ℕ → ℕ
octal_digit n = b'0' + n % 8

-- `snprintf(modebuf, sizeof(modebuf), "%04o", mode)` for a mode below 2^16: four digits, or as many
-- more as it takes.
unfoldable pub print_mode : ℕ → Bytes
print_mode m =
    let low =
      octal_digit (m / 512) ∷ octal_digit (m / 64) ∷ octal_digit (m / 8) ∷ octal_digit m ∷ [] in
    if ltb m 4096
    then low
    else if ltb m 32768
    then octal_digit (m / 4096) ∷ low
    else octal_digit (m / 32768) ∷ octal_digit (m / 4096) ∷ low
