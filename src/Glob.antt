-- ===== src/Glob.antt =====
-- module/path.c, the glob matcher. Patterns and texts are C strings: bytes with no NUL, and what
-- stands after the last byte reads as 0.
pub mod Total
pub mod Steps
pub mod Bracket
pub mod Later
use redis_fs.Base.{
  ℕ, zero, suc, ◌+◌, Bool, true, false, not, ◌&&◌, ◌||◌, Option, none, some, [], ◌∷◌, ltb, leb,
  ◌==◌, if◌then◌else◌, length, drop, Bytes, byte_at,
}

abbrev pub backslash : ℕ
backslash = 92

-- C's `tolower` in the "C" locale.
unfoldable pub to_lower : ℕ → ℕ
to_lower c = if leb b'A' c && leb c b'Z' then c + 32 else c

-- `if (nocase) c = tolower(c)`
unfoldable pub fold_case : Bool → ℕ → ℕ
unfolding to_lower
fold_case nocase c = if nocase then to_lower c else c

-- `while (*pattern == '*') pattern++`
unfoldable pub skip_stars : Bytes → Bytes
skip_stars [] = []
skip_stars (c ∷ p) = if c == b'*' then skip_stars p else c ∷ p

-- `if (*pattern == '\\' && *(pattern+1)) pattern++`
unfoldable pub unescape : Bytes → Bytes
unescape (c ∷ d ∷ p) = if c == backslash then d ∷ p else c ∷ d ∷ p
unescape p = p

-- `if (lo <= hi) sc >= lo && sc <= hi else sc >= hi && sc <= lo`
unfoldable pub in_range : ℕ → ℕ → ℕ → Bool
in_range lo hi sc = if leb lo hi then leb lo sc && leb sc hi else leb hi sc && leb sc lo

-- One round of the loop over a class, at a byte that is not ']': whether the item matches, and the
-- pattern after it.
unfoldable pub class_item : Bool → ℕ → Bytes → Bool × Bytes
unfolding unescape fold_case in_range
class_item nocase sc p =
    let q = unescape p in
    let lo = fold_case nocase (byte_at q 0) in
    if byte_at q 1 == b'-' && (ltb 0 (byte_at q 2) && not (byte_at q 2 == b']'))
    then (let r = unescape (drop 2 q) in
        (in_range lo (fold_case nocase (byte_at r 0)) sc, drop 1 r))
    else (sc == lo, drop 1 q)

-- The loop over the items of a class, from the flag `matched`; the pattern from the ']' on.
unfoldable pub class_loop : ℕ → Bool → ℕ → Bytes → Bool → Bool × Bytes
class_loop zero nocase sc p matched = (matched, p)
class_loop (suc f) nocase sc [] matched = (matched, [])
class_loop (suc f) nocase sc (c ∷ p) matched =
    let item = class_item nocase sc (c ∷ p) in
    let rest = class_loop f nocase sc item.1 (matched || item.0) in
    if c == b']' then (matched, c ∷ p) else rest

-- `if (*pattern == ']') pattern++`
unfoldable pub skip_bracket : Bytes → Bytes
skip_bracket [] = []
skip_bracket (c ∷ p) = if c == b']' then p else c ∷ p

unfoldable pub is_negated : Bytes → Bool
is_negated p = byte_at p 0 == b'!' || byte_at p 0 == b'^'

-- The case '[', behind the bracket: whether the byte is accepted, and the pattern after the class.
unfoldable pub match_class : Bool → ℕ → Bytes → Bool × Bytes
unfolding class_loop class_item skip_bracket is_negated fold_case
match_class nocase c p =
    let negate = is_negated p in
    let q = if negate then drop 1 p else p in
    let (matched, r) = class_loop (length q) nocase (fold_case nocase c) q false in
    (if negate then not matched else matched, skip_bracket r)

-- The pattern is used up, up to trailing stars.
unfoldable pub only_stars : Bytes → Bool
unfolding skip_stars
only_stars p = elim (skip_stars p) [ [] ↦ true | _ ↦ false ]

-- The loop of the case '*': the rest of the pattern is tried at each position of the text, and at
-- its end.
unfoldable pub try_each : (Bytes → Option Bool) → Bytes → Option Bool
try_each k [] = k []
try_each k (c ∷ s) = elim (k (c ∷ s)) [
  | none ↦ none
  | some true ↦ some true
  | some false ↦ try_each k s
]

-- The comparison that the cases '\\' and default end in.
unfoldable pub literal : Bool → ℕ → ℕ → Bool
unfolding fold_case
literal nocase pc sc = fold_case nocase pc == fold_case nocase sc

-- fsGlobMatchInternal, on fuel; `none` means that the fuel ran out.
unfoldable pub glob_loop : ℕ → Bool → Bytes → Bytes → Option Bool
glob_loop zero nocase p s = none
glob_loop (suc f) nocase [] [] = some true
glob_loop (suc f) nocase [] (sc ∷ s) = some false
glob_loop (suc f) nocase (pc ∷ p) [] = some (only_stars (pc ∷ p))
glob_loop (suc f) nocase (pc ∷ p) (sc ∷ s) =
    let any = glob_loop f nocase p s in
    let after_stars = skip_stars p in
    let star = try_each (glob_loop f nocase after_stars) (sc ∷ s) in
    let cls = match_class nocase sc p in
    let past_class = glob_loop f nocase cls.1 s in
    let escaped = glob_loop f nocase (drop 1 p) s in
    if pc == b'*'
    then elim after_stars [ [] ↦ some true | _ ↦ star ]
    else if pc == b'?'
    then any
    else if pc == b'['
    then if cls.0 then past_class else some false
    else if pc == backslash
    then elim p [ [] ↦ some false | c ∷ _ ↦ if literal nocase c sc then escaped else some false ]
    else if literal nocase pc sc
    then any
    else some false

-- A star takes one call for the rest of its pattern, so the length of the pattern is enough.
unfoldable pub glob_match_internal : Bool → Bytes → Bytes → Option Bool
unfolding glob_loop match_class only_stars try_each literal skip_stars
glob_match_internal nocase p s = glob_loop (suc (length p)) nocase p s

-- fsGlobMatch and fsGlobMatchNoCase
unfoldable pub glob_match : Bytes → Bytes → Option Bool
unfolding glob_match_internal
glob_match = glob_match_internal false

unfoldable pub glob_match_no_case : Bytes → Bytes → Option Bool
unfolding glob_match_internal
glob_match_no_case = glob_match_internal true
