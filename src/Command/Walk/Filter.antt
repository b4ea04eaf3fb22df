-- ===== src/Command/Walk/Filter.antt =====
-- GREP over a tree whose files have the filters of their contents: the filters change no reply.
use mathlib.Core.Path.{fun_ext}
use redis_fs.Base.{
  ℕ, zero, suc, ◌≡◌, refl, ap, ◌∙◌, Bool, some, List, [], ltb, if◌then◌else◌, map, Option-cases,
  inl, inr, length, c_str, c_str-NoNul,
}
use redis_fs.Base.ByteStrings.{Bytes, NoNul}
use redis_fs.Bloom.{bloom_build}
use redis_fs.Dict.{DictApi}
use redis_fs.Inode.{Inode, Payload, file, dir, symlink}
use redis_fs.Fs.{Fs, lookup}
use redis_fs.Text.Grep.{search_file, grep_file}
use redis_fs.Text.GrepFilter.{grep_file-bloom_build}
use redis_fs.Command.Walk.{hits_here, walk, grep_walk}

-- A file has the filter of its content.
abbrev pub IsFiltered : Payload → Type 0
IsFiltered (file content bloom) = bloom ≡ bloom_build content
IsFiltered _ = Unit

-- The search of a file with no regard to its filter.
unfoldable pub plain_search : Bool → Bytes → Bytes → Bytes → List (ℕ × Bytes)
plain_search nocase pattern content bloom =
    if ltb 0 (length content) then search_file nocase pattern content else []

hits_here-plain_search :
    (nocase : Bool) (pattern path : Bytes) (p : Payload)
    → NoNul pattern
    → IsFiltered p
    → hits_here (grep_file nocase pattern) path p ≡ hits_here (plain_search nocase pattern) path p
unfolding hits_here plain_search
hits_here-plain_search nocase pattern path (file content bloom) clean f =
    ap (map _)
      (ap (grep_file nocase pattern content) f ∙ grep_file-bloom_build nocase pattern clean content)
hits_here-plain_search nocase pattern path (dir cs) clean f = refl
hits_here-plain_search nocase pattern path (symlink t) clean f = refl

module _ (D : DictApi Inode) where
  -- In a filesystem where each file has the filter that fsBloomBuild makes of its content, fsGrepWalk
  -- gives the same lines as the walk that searches every file that is not empty.
  pub grep_walk-plain_search :
      (fs : Fs D) (nocase : Bool) (pattern : Bytes)
      → ((p : Bytes) (i : Inode) → lookup D fs p ≡ some i → IsFiltered i.payload)
      → (fuel : ℕ) (path : Bytes)
      → grep_walk D fuel nocase (c_str pattern) fs path
        ≡ walk D (hits_here (plain_search nocase (c_str pattern))) fuel fs path
  unfolding grep_walk walk
  grep_walk-plain_search fs nocase pattern h zero path = refl
  grep_walk-plain_search fs nocase pattern h (suc f) path =
      let here = hits_here (grep_file nocase (c_str pattern)) in
      let there = hits_here (plain_search nocase (c_str pattern)) in
      let below : walk D here f fs ≡ walk D there f fs =
        fun_ext (grep_walk-plain_search fs nocase pattern h f) in
      elim (Option-cases (lookup D fs path)) [
        | inl e ↦ rw (walk, e)
        | inr (i, e) ↦
            let same =
              hits_here-plain_search nocase (c_str pattern) path i.payload (c_str-NoNul pattern)
                (h path i e) in
            rw (walk, e, same, below)
      ]
