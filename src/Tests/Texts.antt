-- ===== src/Tests/Texts.antt =====
-- The line operations and the glob matcher at concrete texts.
use redis_fs.Base.{
  ◌≡◌, refl, Bool, true, some, ◌∷◌, codes, take, ◌+◌, ◌-◌, ◌==◌, ltb, not, ◌&&◌, if◌then◌else◌,
  length, byte_at,
}
use redis_fs.Base.ByteStrings.{Bytes}
use redis_fs.Glob.{glob_match_internal}
use redis_fs.Glob.Total.{glob_match_internal_total}
use redis_fs.Text.Lines.{newline, lines_range}
use redis_fs.Text.Head.{head}
use redis_fs.Text.Spec.{other_lines, lines_of, join_lines}
use redis_fs.Text.Wc.{wc}
use redis_fs.Text.WcCounts.{first_piece, other_pieces, non_empty_count, wc_counts}
use redis_fs.Text.HeadLines.{head-eq-take}
use redis_fs.Text.Delete.{delete_lines}

abbrev text : Bytes
text = codes "a\nbc\nd\ne"

lines_range-middle : lines_range 2 (some 3) text ≡ codes "bc\nd"
unfolding lines_range
lines_range-middle = refl

delete_lines-middle : delete_lines 2 3 text ≡ some (codes "a\ne", 2)
unfolding delete_lines
delete_lines-middle = refl

head-eq-take_example : head 2 text ≡ join_lines (take 2 (lines_of text))
head-eq-take_example = head-eq-take 2 text

glob_match_internal_total_example :
    (r : Bool) × (glob_match_internal true (codes "*[a-c]?*x") (codes "zzbyx") ≡ some r)
glob_match_internal_total_example =
    glob_match_internal_total true (codes "*[a-c]?*x") (codes "zzbyx")

wc_counts_example : wc (codes "a bc\n d") ≡ (
  length (other_lines (codes "a bc\n d"))
      + (if ltb 0 (length (codes "a bc\n d"))
            && not (byte_at (codes "a bc\n d") (length (codes "a bc\n d") - 1) == newline)
          then 1
          else 0),
  non_empty_count (first_piece (codes "a bc\n d") ∷ other_pieces (codes "a bc\n d")),
  length (codes "a bc\n d"),
)
wc_counts_example = wc_counts (codes "a bc\n d")
