-- ===== src/Bloom.antt =====
-- module/fs.c, the trigram bloom filter.
pub mod Bits
pub mod Sound
pub mod Occurring
pub mod Extract
use Prim.Native.Nat.{bit_or, bit_xor}
use redis_fs.Base.{
  ℕ, zero, suc, ◌+◌, ◌*◌, ◌/◌, ◌%◌, ◌^◌, Bool, true, false, ◌&&◌, ◌||◌, [], ◌∷◌, ◌++◌, ltb, leb,
  ◌==◌, if◌then◌else◌, length, set, drop, replicate, Bytes, byte_at, codes, ◌≡◌, refl,
}

-- FS_BLOOM_BYTES and FS_BLOOM_BITS
abbrev pub bloom_bytes : ℕ
bloom_bytes = 256

abbrev pub bloom_bits : ℕ
bloom_bits = 2048

-- `h ^= a; h *= 16777619u` on `uint32_t`
unfoldable pub fnv_step : ℕ → ℕ → ℕ
fnv_step h a = (bit_xor h a * 16777619) % 2 ^ 32

-- fsBloomHash1 and fsBloomHash2
unfoldable pub bloom_hash1 : ℕ → ℕ → ℕ → ℕ
unfolding fnv_step
bloom_hash1 a b c = fnv_step (fnv_step (fnv_step 2166136261 a) b) c

unfoldable pub bloom_hash2 : ℕ → ℕ → ℕ → ℕ
unfolding fnv_step
bloom_hash2 a b c = fnv_step (fnv_step (fnv_step 84696351 a) b) c

-- fsBloomSet
unfoldable pub bloom_set : Bytes → ℕ → Bytes
bloom_set bloom hash =
    let bit = hash % bloom_bits in
    set bloom (bit / 8) (bit_or (byte_at bloom (bit / 8)) (2 ^ (bit % 8)))

-- fsBloomTest
unfoldable pub bloom_test : Bytes → ℕ → Bool
bloom_test bloom hash =
    let bit = hash % bloom_bits in (byte_at bloom (bit / 8) / 2 ^ (bit % 8)) % 2 == 1

-- fsLowerChar
unfoldable pub lower_char : ℕ → ℕ
lower_char c = if leb b'A' c && leb c b'Z' then c + 32 else c

unfoldable pub empty_bloom : Bytes
empty_bloom = replicate bloom_bytes 0

-- The two writes for one trigram.
unfoldable pub add_trigram : Bytes → ℕ → ℕ → ℕ → Bytes
unfolding bloom_set bloom_hash1 bloom_hash2
add_trigram bloom a b c = bloom_set (bloom_set bloom (bloom_hash1 a b c)) (bloom_hash2 a b c)

-- The loop over the content.
unfoldable pub add_trigrams : Bytes → Bytes → Bytes
unfolding add_trigram lower_char
add_trigrams (x ∷ y ∷ z ∷ s) bloom =
    add_trigrams (y ∷ z ∷ s) (add_trigram bloom (lower_char x) (lower_char y) (lower_char z))
add_trigrams s bloom = bloom

-- fsBloomBuild, as the filter of a content.
unfoldable pub bloom_build : Bytes → Bytes
unfolding add_trigrams empty_bloom
bloom_build content = add_trigrams content empty_bloom

-- fsBloomExtractLiteral. The runs are kept in `cur` and `buf`; `cur` holds 255 bytes at most.
pub record Runs : Type 0 where
  pub cur : Bytes
  pub best : Bytes

-- `if (curlen > bestlen) { bestlen = curlen; memcpy(buf, cur, curlen); } curlen = 0;`
unfoldable pub end_run : Runs → Runs
end_run r = record { cur = []; best = if ltb (length r.best) (length r.cur) then r.cur else r.best }

-- `if (curlen < sizeof(cur) - 1) cur[curlen++] = *p`
unfoldable pub put_char : Runs → ℕ → Runs
put_char r c = if ltb (length r.cur) 255 then record r { cur = r.cur ++ (c ∷ []) } else r

-- `while (*p && *p != ']') { if (*p == '\\' && *(p+1)) p++; p++; }`, and the ']' if it is there.
unfoldable pub to_bracket : Bytes → Bytes
to_bracket [] = []
to_bracket (c ∷ []) = []
to_bracket (c ∷ d ∷ p) =
    let escaped = to_bracket p in
    let plain = to_bracket (d ∷ p) in
    if c == b']' then d ∷ p else if c == 92 then escaped else plain

-- What the branch for '[' skips, behind the bracket.
unfoldable pub skip_class : Bytes → Bytes
unfolding to_bracket
skip_class p =
    let q = if byte_at p 0 == b'!' || byte_at p 0 == b'^' then drop 1 p else p in
    to_bracket (if byte_at q 0 == b']' then drop 1 q else q)

-- The loop over the pattern. Each round takes a byte, so the length is enough fuel.
unfoldable pub literal_loop : ℕ → Bytes → Runs → Runs
literal_loop zero p r = r
literal_loop (suc f) [] r = r
literal_loop (suc f) (c ∷ p) r =
    let wild = literal_loop f p (end_run r) in
    let class = literal_loop f (skip_class p) (end_run r) in
    let escaped = literal_loop f (drop 1 p) (put_char r (byte_at p 0)) in
    let plain = literal_loop f p (put_char r c) in
    if c == b'*' || c == b'?'
    then wild
    else if c == b'['
    then class
    else if c == 92 && ltb 0 (byte_at p 0)
    then escaped
    else plain

-- The literal, or nothing if it has fewer than three bytes.
unfoldable pub extract_literal : Bytes → Bytes
unfolding literal_loop end_run put_char skip_class
extract_literal pattern =
    let r = end_run (literal_loop (length pattern) pattern (record { cur = []; best = [] })) in
    if ltb (length r.best) 3 then [] else r.best

-- The loop of fsBloomMayMatch over the literal.
unfoldable pub test_trigrams : Bytes → Bytes → Bool
unfolding lower_char bloom_test bloom_hash1 bloom_hash2
test_trigrams (x ∷ y ∷ z ∷ s) bloom =
    let rest = test_trigrams (y ∷ z ∷ s) bloom in
    if bloom_test bloom (bloom_hash1 (lower_char x) (lower_char y) (lower_char z))
    then if bloom_test bloom (bloom_hash2 (lower_char x) (lower_char y) (lower_char z))
      then rest
      else false
    else false
test_trigrams s bloom = true

-- fsBloomMayMatch, of a file's content and filter.
unfoldable pub bloom_may_match : Bytes → Bytes → Bytes → Bool
unfolding extract_literal test_trigrams
bloom_may_match content bloom pattern =
    if ltb (length content) 3
    then true
    else let lit = extract_literal pattern in
      if ltb (length lit) 3 then true else test_trigrams lit bloom
