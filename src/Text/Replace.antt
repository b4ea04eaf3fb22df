-- ===== src/Text/Replace.antt =====
-- module/fs.c, REPLACE_RedisCommand: the loop that builds the new bytes. The growth of its buffer has
-- no counterpart.
use redis_fs.Base.{
  ℕ, zero, suc, ◌+◌, Bool, true, false, ◌&&◌, ◌||◌, Option, none, some, [], ◌∷◌, ◌++◌, leb, ◌==◌,
  if◌then◌else◌, length, drop,
}
use redis_fs.Base.ByteStrings.{Bytes}
use redis_fs.Text.Lines.{newline}

-- replace_all, and line_start and line_end where have_line_constraint is set.
pub record Options : Type 0 where
  pub replace_all : Bool
  pub line_range : Option (ℕ × ℕ)

-- `i + oldlen <= size && memcmp(data + i, oldstr, oldlen) == 0`
unfoldable pub starts_with : Bytes → Bytes → Bool
starts_with [] s = true
starts_with (c ∷ old) [] = false
starts_with (c ∷ old) (d ∷ s) = c == d && starts_with old s

unfoldable pub in_lines : Option (ℕ × ℕ) → ℕ → Bool
in_lines none line = true
in_lines (some (first, last)) line = leb first line && leb line last

-- `if (i < size && data[i] == '\n') current_line++`
abbrev pub line_at : Bytes → ℕ → ℕ
line_at [] line = line
line_at (c ∷ s) line = if c == newline then line + 1 else line

-- The loop from data[i] on: the result and the number of replacements. Each round takes a byte.
unfoldable pub replace_loop : ℕ → Options → Bytes → Bytes → Bytes → ℕ → ℕ → Bytes → Bytes × ℕ
unfolding starts_with in_lines
replace_loop zero o old new s line count out = (out, count)
replace_loop (suc f) o old new [] line count out = (out, count)
replace_loop (suc f) o old new (c ∷ s) line count out =
    let line' = line_at (c ∷ s) line in
    let hit =
      in_lines o.line_range line' && ((o.replace_all || count == 0) && starts_with old (c ∷ s)) in
    let rest =
      replace_loop f o old new (if hit then drop (length old) (c ∷ s) else s) line'
        (if hit then count + 1 else count) (out ++ (if hit then new else c ∷ [])) in
    rest

unfoldable pub replace : Options → Bytes → Bytes → Bytes → Bytes × ℕ
unfolding replace_loop
replace o old new content = replace_loop (length content) o old new content 1 0 []
