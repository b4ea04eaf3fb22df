-- ===== src/Base/ByteStrings.antt =====
-- Byte strings as lists of numbers, the part of one that C's string functions see, and equality.
use Prim.Native.Nat.{ℕ}
use Prim.Native.Char.{code}
use Prim.Native.String.{String}
use mathlib.Core.Path.{◌≡◌, refl}
use mathlib.Core.Logic.{◌↔◌, ◌≢◌}
use mathlib.Core.Bool.{Bool, true, false, ◌&&◌}
use mathlib.Core.List.{List, [], ◌∷◌}
use native.Mathlib.Omega.{arith}
use redis_fs.Base.Tests.{◌==◌, if◌then◌else◌}
use redis_fs.Base.Lists.{All, get_or, length}

abbrev pub Bytes : Type 0
Bytes = List ℕ

-- The code points of a text: its bytes, if it is ASCII.
abbrev pub codes : String → Bytes
codes String.[] = []
codes (String.◌∷◌ c s) = code c ∷ codes s

-- The byte at an index; past the end, the terminating NUL of a C string.
abbrev pub byte_at : Bytes → ℕ → ℕ
byte_at s i = get_or s i 0

-- What `strlen` and the like see of a buffer: the bytes before the first NUL.
unfoldable pub c_str : Bytes → Bytes
c_str [] = []
c_str (c ∷ s) = if c == 0 then [] else c ∷ c_str s

abbrev pub NoNul : Bytes → Type 0
NoNul s = All (λ c. c ≢ 0) s

pub c_str-NoNul : (s : Bytes) → NoNul (c_str s)
unfolding c_str
c_str-NoNul [] = tt
c_str-NoNul (c ∷ s) = ground (arith, c_str-NoNul s)

pub c_str_of_NoNul : (s : Bytes) → NoNul s → c_str s ≡ s
unfolding c_str
c_str_of_NoNul [] h = refl
c_str_of_NoNul (c ∷ s) h = ground (arith, c_str_of_NoNul s h.1)

-- `len(a) == len(b) && memcmp(a, b, len(a)) == 0`
unfoldable pub bytes_eq : Bytes → Bytes → Bool
bytes_eq [] [] = true
bytes_eq [] (d ∷ t) = false
bytes_eq (c ∷ s) [] = false
bytes_eq (c ∷ s) (d ∷ t) = c == d && bytes_eq s t

pub bytes_eq_refl : (s : Bytes) → bytes_eq s s ≡ true
unfolding bytes_eq
bytes_eq_refl [] = refl
bytes_eq_refl (c ∷ s) = ground (arith, bytes_eq_refl s)

pub bytes_eq→eq : (s t : Bytes) → bytes_eq s t ≡ true → s ≡ t
unfolding bytes_eq
bytes_eq→eq [] [] h = refl
bytes_eq→eq [] (d ∷ t) h = cc
bytes_eq→eq (c ∷ s) [] h = cc
bytes_eq→eq (c ∷ s) (d ∷ t) h = ground (arith, bytes_eq→eq s t)

pub bytes_eq_iff : (s t : Bytes) → (bytes_eq s t ≡ true) ↔ (s ≡ t)
bytes_eq_iff s t = (bytes_eq→eq s t, λ e. rw e (bytes_eq_refl t))

pub bytes_eq_of_length : (s t : Bytes) → length s ≢ length t → bytes_eq s t ≡ false
unfolding bytes_eq
bytes_eq_of_length [] [] h = absurd (h refl)
bytes_eq_of_length [] (d ∷ t) h = refl
bytes_eq_of_length (c ∷ s) [] h = refl
bytes_eq_of_length (c ∷ s) (d ∷ t) h = ground (arith, bytes_eq_of_length s t)
