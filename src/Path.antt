-- ===== src/Path.antt =====
-- module/path.c, the functions on paths. A path is its list of bytes, without the final NUL.
pub mod Components
pub mod Normal
pub mod Parent
pub mod Depth
pub mod Plain
use redis_fs.Base.{
  ℕ, zero, suc, ◌-◌, ◌≡◌, Bool, true, false, ◌&&◌, Option, none, some, List, [], ◌∷◌, ◌++◌, reverse,
  ltb, leb, ◌==◌, if◌then◌else◌, length, take, drop, Bytes, byte_at, codes, refl,
}

abbrev pub slash : ℕ
slash = b'/'

abbrev pub dot : ℕ
dot = b'.'

abbrev pub root : Bytes
root = slash ∷ []

-- FS_NORMALIZE_MAX_DEPTH
abbrev pub max_depth : ℕ
max_depth = 256

-- `while (i < len && path[i] == '/') i++`, as the bytes from i on.
pub skip_slashes : Bytes → Bytes
skip_slashes [] = []
skip_slashes (c ∷ s) = if c == slash then skip_slashes s else c ∷ s

-- `while (i < len && path[i] != '/') i++`: the bytes passed over, and those left.
pub component : Bytes → Bytes
component [] = []
component (c ∷ s) = if c == slash then [] else c ∷ component s

pub after_component : Bytes → Bytes
after_component [] = []
after_component (c ∷ s) = if c == slash then c ∷ s else after_component s

-- The array `parts`, the last component first, and the flag `overflow`.
pub record Parts : Type 0 where
  pub stack : List Bytes
  pub overflow : Bool

abbrev pub pop : List Bytes → List Bytes
pop [] = []
pop (c ∷ st) = st

abbrev pub is_dot : Bytes → Bool
is_dot c = length c == 1 && byte_at c 0 == dot

abbrev pub is_dot_dot : Bytes → Bool
is_dot_dot c = length c == 2 && (byte_at c 0 == dot && byte_at c 1 == dot)

-- The body of the loop once a component has been found.
pub push : Parts → Bytes → Parts
push p c =
    if is_dot c
    then p
    else if is_dot_dot c
    then record p { stack = pop p.stack }
    else if ltb (length p.stack) max_depth
    then record p { stack = c ∷ p.stack }
    else record p { overflow = true }

-- The loop over the bytes. Each round takes at least one byte, so the length is enough fuel.
pub scan : ℕ → Bytes → Parts → Parts
scan zero s p = p
scan (suc f) s p = elim (skip_slashes s) [
  | [] ↦ p
  | c ∷ r ↦ scan f (after_component (c ∷ r)) (push p (component (c ∷ r)))
]

-- The copy into the result: '/' and the component, for each part in order.
unfoldable pub render : List Bytes → Bytes
render [] = []
render (c ∷ cs) = slash ∷ (c ++ render cs)

pub finish : Parts → Option Bytes
finish p =
    if p.overflow
    then none
    else elim p.stack [ [] ↦ some root | c ∷ st ↦ some (render (reverse (c ∷ st))) ]

-- fsNormalizePath; `none` is NULL.
unfoldable pub normalize : Bytes → Option Bytes
unfolding scan push finish render skip_slashes component after_component
normalize s = finish (scan (length s) s (record { stack = []; overflow = false }))

-- `while (last > 0 && path[last] != '/') last--`
pub last_slash : Bytes → ℕ → ℕ
last_slash p zero = zero
last_slash p (suc i) = if byte_at p (suc i) == slash then suc i else last_slash p i

-- fsParentPath
unfoldable pub parent : Bytes → Bytes
unfolding last_slash
parent p =
    if leb (length p) 1
    then root
    else let last = length p - 1 in
      let from = if byte_at p last == slash && ltb 0 last then last - 1 else last in
      let cut = last_slash p from in if cut == 0 then root else take cut p

-- `while (start > 0 && path[start-1] != '/') start--`
pub name_start : Bytes → ℕ → ℕ
name_start p zero = zero
name_start p (suc i) = if byte_at p i == slash then suc i else name_start p i

-- fsBaseName
unfoldable pub base_name : Bytes → Bytes
unfolding name_start
base_name p =
    if leb (length p) 1
    then root
    else let stop =
        if byte_at p (length p - 1) == slash && ltb 1 (length p) then length p - 1 else length p in
      let start = name_start p stop in take (stop - start) (drop start p)

-- fsJoinPath
unfoldable pub join : Bytes → Bytes → Option Bytes
unfolding normalize
join a b =
    if ltb 0 (length b) && byte_at b 0 == slash then normalize b else normalize (a ++ (slash ∷ b))

-- fsIsRoot
unfoldable pub is_root : Bytes → Bool
is_root p = length p == 1 && byte_at p 0 == slash
