-- ===== src/Text/Tail.antt =====
-- module/fs.c, TAIL_RedisCommand: the count of the lines, and the search for the first one shown.
use redis_fs.Base.{ℕ, ◌+◌, ◌-◌, ◌&&◌, ◌||◌, [], ◌∷◌, leb, ltb, ◌==◌, if◌then◌else◌, length, drop}
use redis_fs.Base.ByteStrings.{Bytes}
use redis_fs.Text.Lines.{newline}

-- `for (i = 0; i < size; i++) if (data[i] == '\n' && i < size - 1) total_lines++`
unfoldable pub count_loop : ℕ → Bytes → ℕ → ℕ → ℕ
count_loop size [] i total = total
count_loop size (c ∷ s) i total =
    count_loop size s (i + 1) (if c == newline && ltb i (size - 1) then total + 1 else total)

-- The search for the start of line `target`, from offset i on, at line `current`.
unfoldable pub start_loop : ℕ → Bytes → ℕ → ℕ → ℕ
start_loop target [] i current = 0
start_loop target (c ∷ s) i current =
    let next = start_loop target s (i + 1) (if c == newline then current + 1 else current) in
    if current == target then i else if c == newline && current + 1 == target then i + 1 else next

unfoldable pub tail : ℕ → Bytes → Bytes
unfolding count_loop start_loop
tail n content =
    if n == 0 || length content == 0
    then []
    else let total = count_loop (length content) content 0 1 in
      if leb total n then content else drop (start_loop (total - n + 1) content 0 1) content
