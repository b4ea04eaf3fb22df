-- ===== src/Text/Spec.antt =====
-- A text as the list of its lines: what the line commands are about.
use redis_fs.Base.{
  ◌≡◌, refl, ap, List, [], ◌∷◌, ◌++◌, ◌==◌, if◌then◌else◌, Bool-cases, inl, inr, ==_iff,
}
use redis_fs.Base.ByteStrings.{Bytes}
use redis_fs.Text.Lines.{newline}

unfoldable pub first_line : Bytes → Bytes
first_line [] = []
first_line (c ∷ s) = if c == newline then [] else c ∷ first_line s

unfoldable pub other_lines : Bytes → List Bytes
unfolding first_line
other_lines [] = []
other_lines (c ∷ s) = if c == newline then first_line s ∷ other_lines s else other_lines s

-- The pieces between the newlines, at least one.
abbrev pub lines_of : Bytes → List Bytes
lines_of s = first_line s ∷ other_lines s

abbrev pub join_from : Bytes → List Bytes → Bytes
join_from w [] = w
join_from w (v ∷ vs) = w ++ (newline ∷ join_from v vs)

-- The lines with a newline between each and the next.
abbrev pub join_lines : List Bytes → Bytes
join_lines [] = []
join_lines (w ∷ ws) = join_from w ws

pub join_from-cons :
    (c : _) (w : Bytes) (ws : List Bytes) → join_from (c ∷ w) ws ≡ c ∷ join_from w ws
join_from-cons c w [] = refl
join_from-cons c w (v ∷ vs) = refl

pub join_lines-lines_of : (s : Bytes) → join_lines (lines_of s) ≡ s
unfolding first_line other_lines
join_lines-lines_of [] = refl
join_lines-lines_of (c ∷ s) = elim (Bool-cases (c == newline)) [
  | inl e ↦
      let q = (==_iff c newline).0 e in rw (e, q) (ap (λ t. newline ∷ t) (join_lines-lines_of s))
  | inr e ↦ rw (e, join_from-cons c (first_line s) (other_lines s), join_lines-lines_of s)
]
