-- ===== src/Text/Delete.antt =====
-- module/fs.c, DELETELINES_RedisCommand: the loop over the lines, and the new bytes of the file.
use redis_fs.Base.{
  ℕ, ◌+◌, Bool, true, false, ◌&&◌, [], ◌∷◌, ◌++◌, leb, ◌==◌, if◌then◌else◌, take, drop, Option,
  none, some,
}
use redis_fs.Base.ByteStrings.{Bytes}
use redis_fs.Text.Lines.{newline}

pub record Cut : Type 0 where
  pub current_line : ℕ
  pub line_begin : ℕ
  pub delete_start : ℕ
  pub found_start : Bool
  pub delete_end : ℕ
  pub found_end : Bool
  pub lines_deleted : ℕ

-- A line ends at offset i, before a newline or at the end; `past` is the offset behind it.
unfoldable pub cut_line : ℕ → ℕ → ℕ → ℕ → Cut → Cut
cut_line start stop i past r =
    let inside = leb start r.current_line && leb r.current_line stop in
    record {
      current_line = r.current_line + 1;
      line_begin = i + 1;
      delete_start = if r.current_line == start then r.line_begin else r.delete_start;
      found_start = if r.current_line == start then true else r.found_start;
      delete_end = if inside then past else r.delete_end;
      found_end = if inside then true else r.found_end;
      lines_deleted = if inside then r.lines_deleted + 1 else r.lines_deleted;
    }

unfoldable pub cut_loop : ℕ → ℕ → Bytes → ℕ → Cut → Cut
unfolding cut_line
cut_loop start stop [] i r = cut_line start stop i i r
cut_loop start stop (c ∷ s) i r =
    cut_loop start stop s (i + 1) (if c == newline then cut_line start stop i (i + 1) r else r)

-- The new bytes and the number of lines deleted, or nothing where no line is in the range.
unfoldable pub delete_lines : ℕ → ℕ → Bytes → Option (Bytes × ℕ)
unfolding cut_loop
delete_lines start stop content =
    let r = cut_loop start stop content 0 (record {
      current_line = 1;
      line_begin = 0;
      delete_start = 0;
      found_start = false;
      delete_end = 0;
      found_end = false;
      lines_deleted = 0;
    }) in
    if r.found_start && r.found_end
    then some (take r.delete_start content ++ drop r.delete_end content, r.lines_deleted)
    else none
