-- ===== src/Text/Grep.antt =====
-- module/fs.c, fsGrepWalk: the search of one file.
use redis_fs.Base.{
  ℕ, zero, suc, ◌+◌, Bool, true, false, ◌&&◌, ◌||◌, none, some, List, [], ◌∷◌, ◌==◌, ltb,
  if◌then◌else◌, length,
}
use redis_fs.Base.ByteStrings.{Bytes, codes}
use redis_fs.Bloom.{lower_char, extract_literal, bloom_may_match}
use redis_fs.Glob.{glob_match_internal}
use redis_fs.Text.Lines.{newline}

-- The result of fsGlobMatch or fsGlobMatchNoCase, which always give one.
unfoldable pub is_match : Bool → Bytes → Bytes → Bool
is_match nocase pattern line = elim (glob_match_internal nocase pattern line) [
  | none ↦ false
  | some b ↦ b
]

-- `memchr(data, '\0', size) != NULL`
unfoldable pub has_nul : Bytes → Bool
has_nul [] = false
has_nul (c ∷ s) = c == 0 || has_nul s

-- The comparison at one offset, which stops before the end of the data.
unfoldable pub same_letters : Bytes → Bytes → Bool
same_letters [] s = true
same_letters (c ∷ lit) [] = false
same_letters (c ∷ lit) (d ∷ s) = lower_char d == lower_char c && same_letters lit s

-- The search for a literal at each offset.
unfoldable pub has_literal : Bytes → Bytes → Bool
unfolding same_letters
has_literal lit [] = same_letters lit []
has_literal lit (c ∷ s) = same_letters lit (c ∷ s) || has_literal lit s

-- `while (pos < size && data[pos] != '\n') pos++`, and the newline is skipped.
unfoldable pub this_line : Bytes → Bytes
this_line [] = []
this_line (c ∷ s) = if c == newline then [] else c ∷ this_line s

unfoldable pub next_lines : Bytes → Bytes
next_lines [] = []
next_lines (c ∷ s) = if c == newline then s else next_lines s

-- The loop over the lines of a text file, from line `lineno` on: the lines that match, with their
-- numbers. Each round takes a byte, so the length is enough fuel.
unfoldable pub match_lines : ℕ → Bool → Bytes → Bytes → ℕ → List (ℕ × Bytes)
unfolding is_match this_line next_lines
match_lines zero nocase pattern s lineno = []
match_lines (suc f) nocase pattern [] lineno = []
match_lines (suc f) nocase pattern (c ∷ s) lineno =
    let line = this_line (c ∷ s) in
    let rest = match_lines f nocase pattern (next_lines (c ∷ s)) (lineno + 1) in
    if is_match nocase pattern line then (lineno, line) ∷ rest else rest

-- What is reported for a file that is not empty.
unfoldable pub search_file : Bool → Bytes → Bytes → List (ℕ × Bytes)
unfolding has_nul has_literal match_lines
search_file nocase pattern content =
    if has_nul content
    then (let lit = extract_literal pattern in
        if length lit == 0 || has_literal lit content
        then (0, codes "Binary file matches") ∷ []
        else [])
    else match_lines (length content) nocase pattern content 1

-- The search of a file, behind the filter.
unfoldable pub grep_file : Bool → Bytes → Bytes → Bytes → List (ℕ × Bytes)
unfolding search_file
grep_file nocase pattern content bloom =
    if ltb 0 (length content) && bloom_may_match content bloom pattern
    then search_file nocase pattern content
    else []
