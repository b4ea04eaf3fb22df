-- ===== src/Text/Resize.antt =====
-- module/fs.c, TRUNCATE_RedisCommand: the bytes, the filter and the count of a file of another length.
use redis_fs.Base.{
  ℕ, ◌-◌, [], ◌++◌, if◌then◌else◌, ltb, ◌==◌, length, take, replicate, add64, sub64,
}
use redis_fs.Base.ByteStrings.{Bytes}
use redis_fs.Bloom.{bloom_build, empty_bloom}

-- The data and the filter of a file of another length, and the count of its bytes.
unfoldable pub resized : ℕ → Bytes → Bytes
resized newlen old =
    if newlen == 0
    then []
    else if ltb newlen (length old)
    then take newlen old
    else old ++ replicate (newlen - length old) 0

unfoldable pub resized_bloom : ℕ → Bytes → Bytes → Bytes
unfolding resized
resized_bloom newlen old bloom =
    if newlen == 0
    then empty_bloom
    else if newlen == length old
    then bloom
    else bloom_build (resized newlen old)

unfoldable pub resized_total : ℕ → ℕ → ℕ → ℕ
resized_total newlen oldlen total =
    if newlen == 0
    then sub64 total oldlen
    else if ltb newlen oldlen
    then sub64 total (oldlen - newlen)
    else if newlen == oldlen
    then total
    else add64 total (newlen - oldlen)
