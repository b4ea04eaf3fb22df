-- ===== src/Text/Head.antt =====
-- module/fs.c, HEAD_RedisCommand: the loop that finds the end of line n.
use redis_fs.Base.{ℕ, ◌+◌, ◌&&◌, [], ◌∷◌, ◌==◌, if◌then◌else◌, length, take}
use redis_fs.Base.ByteStrings.{Bytes}
use redis_fs.Text.Lines.{newline}

-- The loop from offset i on, at line `current`; `size` if it runs to the end.
unfoldable pub head_loop : ℕ → ℕ → Bytes → ℕ → ℕ → ℕ
head_loop n size [] i current = size
head_loop n size (c ∷ s) i current =
    let next = head_loop n size s (i + 1) (if c == newline then current + 1 else current) in
    if c == newline && current == n then i else next

unfoldable pub head : ℕ → Bytes → Bytes
unfolding head_loop
head n content = if n == 0 then [] else take (head_loop n (length content) content 0 1) content
