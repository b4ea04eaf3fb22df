-- ===== src/Text/Lines.antt =====
-- module/fs.c, LINES_RedisCommand: the loop that finds a range of lines.
use redis_fs.Base.{
  ℕ, ◌+◌, ◌-◌, Bool, true, false, ◌&&◌, Option, none, some, [], ◌∷◌, leb, ◌==◌, if◌then◌else◌, take,
  drop,
}
use redis_fs.Base.ByteStrings.{Bytes}

abbrev pub newline : ℕ
newline = 10

-- linenum, and the offsets line_start, result_start and result_end; `none` is NULL.
pub record Range : Type 0 where
  pub linenum : ℕ
  pub line_start : ℕ
  pub result_start : Option ℕ
  pub result_end : Option ℕ

-- `end == -1 || linenum <= end`; `none` is the end -1.
abbrev pub within : ℕ → Option ℕ → Bool
within n none = true
within n (some stop) = leb n stop

-- A line ends at offset i: what the body does before its `break`.
unfoldable pub line_ends : ℕ → Option ℕ → ℕ → Range → Range
line_ends start stop i r =
    let begin = if r.linenum == start then some r.line_start else r.result_start in
    record r {
      result_start = begin;
      result_end = if leb start r.linenum && within r.linenum stop then some i else r.result_end;
    }

-- The loop from offset i on.
unfoldable pub range_loop : ℕ → Option ℕ → Bytes → ℕ → Range → Range
unfolding line_ends
range_loop start stop [] i r = line_ends start stop i r
range_loop start stop (c ∷ s) i r =
    let q = line_ends start stop i r in
    let next =
      range_loop start stop s (i + 1)
        (if c == newline then record q { linenum = q.linenum + 1; line_start = i + 1 } else r) in
    if c == newline && (if within r.linenum stop then false else true) then q else next

-- The reply on a file that is not empty.
unfoldable pub lines_range : ℕ → Option ℕ → Bytes → Bytes
unfolding range_loop
lines_range start stop content =
    let r =
      range_loop start stop content 0
        (record { linenum = 1; line_start = 0; result_start = none; result_end = none }) in
    elim r.result_start [
      | none ↦ []
      | some a ↦ elim r.result_end [ none ↦ [] | some b ↦ take (b - a) (drop a content) ]
    ]
