-- ===== src/Text/Insert.antt =====
-- module/fs.c, INSERT_RedisCommand: where the content goes, and the new bytes of the file.
use redis_fs.Base.{
  ℕ, ◌+◌, ◌-◌, Bool, not, ◌&&◌, [], ◌∷◌, ◌++◌, ltb, ◌==◌, if◌then◌else◌, length, take, drop,
  byte_at, ℤ,
}
use redis_fs.Base.Int.{pos, negsuc}
use redis_fs.Base.ByteStrings.{Bytes}
use redis_fs.Text.Lines.{newline}

-- The loop of the last branch, from offset i on: insert_pos and current_line.
unfoldable pub pos_loop : ℕ → ℕ → Bytes → ℕ → ℕ → ℕ → ℕ × ℕ
pos_loop line_num size [] i current at = (at, current)
pos_loop line_num size (c ∷ s) i current at =
    let next =
      pos_loop line_num size s (i + 1) (if c == newline then current + 1 else current)
        (if i == size - 1 then size else at) in
    if c == newline && current == line_num then (i + 1, current) else next

unfoldable pub past_line : ℕ → Bytes → ℕ
unfolding pos_loop
past_line line_num content =
    let (at, current) = pos_loop line_num (length content) content 0 1 0 in
    if ltb current line_num then length content else at

-- The branches on `line_num`, which is at least -1.
unfoldable pub insert_pos : ℤ → Bytes → ℕ
unfolding past_line
insert_pos (negsuc _) content = length content
insert_pos (pos n) content =
    if length content == 0 then 0 else if n == 0 then 0 else past_line n content

unfoldable pub newline_before : ℕ → Bytes → Bool
newline_before at content =
    ltb 0 at
    && (at == length content
        && (ltb 0 (length content) && not (byte_at content (length content - 1) == newline)))

unfoldable pub newline_after : ℕ → Bytes → Bytes → Bool
newline_after at content added =
    ltb at (length content)
    && (ltb 0 (length added) && not (byte_at added (length added - 1) == newline))

-- The new bytes: before, '\n', added, '\n', after.
unfoldable pub insert_line : ℤ → Bytes → Bytes → Bytes
unfolding insert_pos newline_before newline_after
insert_line line_num content added =
    let at = insert_pos line_num content in
    let before = if newline_before at content then newline ∷ [] else [] in
    let after = if newline_after at content added then newline ∷ [] else [] in
    take at content ++ (before ++ (added ++ (after ++ drop at content)))
