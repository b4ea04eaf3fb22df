-- ===== src/Tests/Filters.antt =====
-- The bloom filter and the glob matcher on concrete contents.
use redis_fs.Base.{◌≡◌, refl, true, false, ◌++◌, codes, some}
use redis_fs.Base.ByteStrings.{Bytes}
use redis_fs.Bloom.{extract_literal, lower_char, bloom_build, bloom_may_match}
use redis_fs.Glob.{glob_match, glob_match_no_case}
use redis_fs.Bloom.Sound.{bloom_may_match-bloom_build}

extract_literal-longest : extract_literal (codes "a*[x]\\*lit?ab") ≡ codes "*lit"
unfolding extract_literal
extract_literal-longest = refl

bloom_may_match-rejects :
    bloom_may_match (codes "Hello") (bloom_build (codes "Hello")) (codes "*xyz*") ≡ false
unfolding bloom_build bloom_may_match
bloom_may_match-rejects = refl

abbrev content : Bytes
content = codes "say " ++ (codes "Hello" ++ codes "!")

bloom_may_match-bloom_build_example :
    bloom_may_match content (bloom_build content) (codes "*hello?") ≡ true
unfolding extract_literal lower_char
bloom_may_match-bloom_build_example =
    bloom_may_match-bloom_build (codes "*hello?") (codes "say ") (codes "Hello") (codes "!") refl

glob_match-escape : glob_match (codes "*.t?[a-c]\\*") (codes "a.t.txb*") ≡ some true
unfolding glob_match
glob_match-escape = refl

glob_match_no_case-negated : glob_match_no_case (codes "[!x]B*C") (codes "abxxc") ≡ some true
unfolding glob_match_no_case
glob_match_no_case-negated = refl
