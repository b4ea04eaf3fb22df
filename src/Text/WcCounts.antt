-- ===== src/Text/WcCounts.antt =====
-- WC: words as the pieces between white space.
use redis_fs.Base.{
  ℕ, ◌+◌, ◌-◌, ◌≡◌, ap, ◌∙◌, Bool, true, false, not, ◌&&◌, List, [], ◌∷◌, ◌==◌, ltb, if◌then◌else◌,
  arith, length, byte_at,
}
use redis_fs.Base.ByteStrings.{Bytes}
use redis_fs.Text.Lines.{newline}
use redis_fs.Text.Wc.{Counts, is_space, wc_byte, wc_loop, wc}
use redis_fs.Text.Spec.{other_lines}

unfoldable pub first_piece : Bytes → Bytes
first_piece [] = []
first_piece (c ∷ s) = if is_space c then [] else c ∷ first_piece s

unfoldable pub other_pieces : Bytes → List Bytes
unfolding first_piece
other_pieces [] = []
other_pieces (c ∷ s) = if is_space c then first_piece s ∷ other_pieces s else other_pieces s

abbrev pub one_if_any : Bytes → ℕ
one_if_any [] = 0
one_if_any (c ∷ s) = 1

-- How many of these are not empty.
abbrev pub non_empty_count : List Bytes → ℕ
non_empty_count [] = 0
non_empty_count (w ∷ ws) = one_if_any w + non_empty_count ws

-- The words that the loop still counts: the first piece is not one if the loop is in it already.
words_ahead : Bool → Bytes → ℕ
words_ahead true s = non_empty_count (other_pieces s)
words_ahead false s = non_empty_count (first_piece s ∷ other_pieces s)

wc_loop-words : (s : Bytes) (w : Counts) → (wc_loop s w).words ≡ w.words + words_ahead w.in_word s
unfolding wc_loop wc_byte words_ahead first_piece other_pieces
wc_loop-words [] w = ground arith
wc_loop-words (c ∷ s) w = ground (arith, wc_loop-words s (wc_byte w c))

wc_loop-lines : (s : Bytes) (w : Counts) → (wc_loop s w).lines ≡ w.lines + length (other_lines s)
unfolding wc_loop wc_byte other_lines
wc_loop-lines [] w = omega arith
wc_loop-lines (c ∷ s) w = ground (arith, wc_loop-lines s (wc_byte w c))

-- WC replies the number of newlines, and one more if there is a last line with no newline behind it;
-- the number of pieces between white space that are not empty; and the number of bytes.
pub wc_counts :
    (content : Bytes)
    → wc content ≡ (
      length (other_lines content)
          + (if ltb 0 (length content) && not (byte_at content (length content - 1) == newline)
              then 1
              else 0),
      non_empty_count (first_piece content ∷ other_pieces content),
      length content,
    )
unfolding wc words_ahead
wc_counts content =
    let start : Counts = record { lines = 0; words = 0; in_word = false } in
    let size = length content in
    let open_line = ltb 0 size && not (byte_at content (size - 1) == newline) in
    let in_loop = wc_loop content start in
    let loop_lines = wc_loop-lines content start in
    let lines : (if open_line then in_loop.lines + 1 else in_loop.lines)
        ≡ length (other_lines content) + (if open_line then 1 else 0) =
      ground arith in
    let words : in_loop.words ≡ non_empty_count (first_piece content ∷ other_pieces content) =
      omega (arith, wc_loop-words content start) in
    ap (λ l. (l, in_loop.words, size)) lines
    ∙ ap (λ n. (length (other_lines content) + (if open_line then 1 else 0), n, size)) words
