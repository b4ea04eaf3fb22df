-- ===== src/Text/GrepFilter.antt =====
-- fsGrepWalk on one file: the filter of the file rejects it only if the search would find nothing.
use redis_fs.Base.{
  ℕ, zero, suc, ◌+◌, ◌≡◌, refl, sym, ap, ◌∙◌, Bool, true, false, Option, none, some, [], ◌∷◌, ◌++◌,
  arith, ◌==◌, ltb, if◌then◌else◌, Bool-cases, inl, inr, length,
}
use redis_fs.Base.ByteStrings.{Bytes, NoNul}
use redis_fs.Bloom.{lower_char, extract_literal, bloom_build, bloom_may_match}
use redis_fs.Bloom.Sound.{bloom_may_match-bloom_build}
use redis_fs.Bloom.Occurring.{
  Occurs, Ends-Occurs, Ends-nil, SameLetters, Occurs-append, Occurs-prepend,
}
use redis_fs.Bloom.Extract.{extract_literal-Occurs}
use redis_fs.Glob.{glob_match_internal}
use redis_fs.Text.Lines.{newline}
use redis_fs.Text.Grep.{
  is_match, has_nul, same_letters, has_literal, this_line, next_lines, match_lines, search_file,
  grep_file,
}

-- The filter of a content does not reject a pattern whose literal occurs in it.
may_match-Occurs :
    (pattern content : Bytes)
    → Occurs (extract_literal pattern) content
    → bloom_may_match content (bloom_build content) pattern ≡ true
may_match-Occurs pattern content (b, m, a, e, k) =
    rw e (bloom_may_match-bloom_build pattern b m a k)

same_letters-prefix :
    (lit s : Bytes) → same_letters lit s ≡ true → (m a : Bytes) × (s ≡ m ++ a) × SameLetters m lit
unfolding same_letters
same_letters-prefix [] s h = ([], s, refl, refl)
same_letters-prefix (c ∷ lit) [] h = cc h
same_letters-prefix (c ∷ lit) (d ∷ s) h =
    let (m, a, e, k) = same_letters-prefix lit s (ground arith) in
    let same : lower_char d ≡ lower_char c = ground arith in
    (d ∷ m, a, ap (λ l. d ∷ l) e, cc (same, k))

has_literal-Occurs : (lit s : Bytes) → has_literal lit s ≡ true → Occurs lit s
unfolding has_literal
has_literal-Occurs lit [] h = let (m, a, e, k) = same_letters-prefix lit [] h in ([], m, a, e, k)
has_literal-Occurs lit (c ∷ s) h = elim (Bool-cases (same_letters lit (c ∷ s))) [
  | inl q ↦ let (m, a, e, k) = same_letters-prefix lit (c ∷ s) q in ([], m, a, e, k)
  | inr q ↦ Occurs-prepend lit s (c ∷ []) (has_literal-Occurs lit s (rw q at h))
]

this_line-prefix : (s : Bytes) → (t : Bytes) × (s ≡ this_line s ++ t)
unfolding this_line
this_line-prefix [] = ([], refl)
this_line-prefix (c ∷ s) = elim (Bool-cases (c == newline)) [
  | inl e ↦ rw e (c ∷ s, refl)
  | inr e ↦ let (t, k) = this_line-prefix s in rw e (t, ap (λ l. c ∷ l) k)
]

next_lines-suffix : (s : Bytes) → (t : Bytes) × (s ≡ t ++ next_lines s)
unfolding next_lines
next_lines-suffix [] = ([], refl)
next_lines-suffix (c ∷ s) = elim (Bool-cases (c == newline)) [
  | inl e ↦ rw e (c ∷ [], refl)
  | inr e ↦ let (t, k) = next_lines-suffix s in rw e (c ∷ t, ap (λ l. c ∷ l) k)
]

is_match-some :
    (nocase : Bool) (pattern line : Bytes)
    → is_match nocase pattern line ≡ true
    → glob_match_internal nocase pattern line ≡ some true
unfolding is_match
is_match-some nocase pattern line h = split (glob_match_internal nocase pattern line) refl
  where
    split :
        (o : Option Bool)
        → glob_match_internal nocase pattern line ≡ o
        → glob_match_internal nocase pattern line ≡ some true
    split none e = cc (rw (is_match, e) at h)
    split (some b) e = e ∙ ap some (rw (is_match, e) at h)

module _ (nocase : Bool) (pattern : Bytes) (clean : NoNul pattern) where
  -- No line matches where the literal of the pattern does not occur.
  match_lines-nil :
      (f : ℕ) (s : Bytes) (n : ℕ)
      → ¬ Occurs (extract_literal pattern) s
      → match_lines f nocase pattern s n ≡ []
  unfolding match_lines
  match_lines-nil zero s n h = refl
  match_lines-nil (suc f) [] n h = refl
  match_lines-nil (suc f) (c ∷ s) n h =
      let lit = extract_literal pattern in
      let line = this_line (c ∷ s) in
      let (t, cut) = this_line-prefix (c ∷ s) in
      let (v, past) = next_lines-suffix (c ∷ s) in
      let rest =
        match_lines-nil f (next_lines (c ∷ s)) (n + 1)
          (λ o. h (rw past (Occurs-prepend lit (next_lines (c ∷ s)) v o))) in
      elim (Bool-cases (is_match nocase pattern line)) [
        | inl e ↦ absurd (
            h (
              rw cut (
                Occurs-append lit line t (
                  extract_literal-Occurs nocase pattern line clean
                    (is_match-some nocase pattern line e)))))
        | inr e ↦ rw e rest
      ]

  search_file-nil :
      (content : Bytes)
      → bloom_may_match content (bloom_build content) pattern ≡ false
      → search_file nocase pattern content ≡ []
  unfolding search_file
  search_file-nil content h =
      let lit = extract_literal pattern in
      let absent : ¬ Occurs lit content = λ o. cc (h, may_match-Occurs pattern content o) in
      let some_literal : (length lit == 0) ≡ false = has_some lit absent in
      elim (Bool-cases (has_nul content)) [
        | inl e ↦ elim (Bool-cases (has_literal lit content)) [
          | inl q ↦ absurd (absent (has_literal-Occurs lit content q))
          | inr q ↦ rw (e, some_literal, q)
        ]
        | inr e ↦ rw e (match_lines-nil (length content) content 1 absent)
      ]
    where
      has_some : (l : Bytes) → ¬ Occurs l content → (length l == 0) ≡ false
      has_some [] a = absurd (a (Ends-Occurs [] content (Ends-nil content)))
      has_some (c ∷ l) a = ground arith

  -- With the filter that fsBloomBuild makes of a file's content, fsGrepWalk reports for the file, for
  -- a pattern with no NUL and with or without NOCASE, what a search of the content alone finds.
  pub grep_file-bloom_build :
      (content : Bytes)
      → grep_file nocase pattern content (bloom_build content)
        ≡ (if ltb 0 (length content) then search_file nocase pattern content else [])
  unfolding grep_file
  grep_file-bloom_build content = elim (Bool-cases (ltb 0 (length content))) [
    | inl e ↦ elim (Bool-cases (bloom_may_match content (bloom_build content) pattern)) [
      | inl q ↦ rw (e, q)
      | inr q ↦ rw (e, q) (sym (search_file-nil content q))
    ]
    | inr e ↦ rw e
  ]
