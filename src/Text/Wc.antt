-- ===== src/Text/Wc.antt =====
-- module/fs.c, WC_RedisCommand: lines, words and bytes of a file.
use redis_fs.Base.{
  ℕ, ◌+◌, ◌-◌, Bool, false, not, ◌&&◌, ◌||◌, [], ◌∷◌, ltb, ◌==◌, if◌then◌else◌, length, byte_at,
}
use redis_fs.Base.ByteStrings.{Bytes}
use redis_fs.Text.Lines.{newline}

pub record Counts : Type 0 where
  pub lines : ℕ
  pub words : ℕ
  pub in_word : Bool

-- ' ', '\t', '\n', '\r', '\v' and '\f'
unfoldable pub is_space : ℕ → Bool
is_space c = c == 32 || (c == 9 || (c == 10 || (c == 13 || (c == 11 || c == 12))))

unfoldable pub wc_byte : Counts → ℕ → Counts
unfolding is_space
wc_byte w c = record {
  lines = if c == newline then w.lines + 1 else w.lines;
  words = if is_space c then w.words else if w.in_word then w.words else w.words + 1;
  in_word = not (is_space c);
}

unfoldable pub wc_loop : Bytes → Counts → Counts
unfolding wc_byte
wc_loop [] w = w
wc_loop (c ∷ s) w = wc_loop s (wc_byte w c)

-- lines, words, chars
unfoldable pub wc : Bytes → ℕ × ℕ × ℕ
unfolding wc_loop
wc content =
    let w = wc_loop content (record { lines = 0; words = 0; in_word = false }) in
    let size = length content in
    (
      if ltb 0 size && not (byte_at content (size - 1) == newline) then w.lines + 1 else w.lines,
      w.words,
      size,
    )
