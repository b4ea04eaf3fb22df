-- ===== src/Command/Walk.antt =====
-- module/fs.c: the commands that walk down from a path: TREE, FIND and GREP. The walks only reply. They
-- run on fuel for the depth of their calls; `none` means that it ran out.
pub mod Filter
pub mod Ends
pub mod Finds
pub mod Found
pub mod Returns
use redis_fs.Base.{
  ℕ, zero, suc, ◌+◌, ◌%◌, ◌^◌, ℤ, Bool, true, false, ◌&&◌, Option, none, some, List, [], ◌∷◌, ◌++◌,
  if◌then◌else◌, leb, ltb, ◌==◌, length, map, c_str, bytes_eq,
}
use redis_fs.Base.Int.{pos, negsuc}
use redis_fs.Base.ByteStrings.{Bytes, codes}
use redis_fs.Dict.{DictApi}
use redis_fs.Inode.{
  Inode, InodeType, Payload, file, dir, symlink, file_type, dir_type, symlink_type, is_dir,
}
use redis_fs.Path.{root, normalize, join, base_name, is_root}
use redis_fs.Fs.{Fs, lookup}
use redis_fs.Text.Grep.{is_match, grep_file}
use redis_fs.Command.Remove.{children}
use redis_fs.Command.{
  Reply, Piece, array, text, number, stream, wrong_arity, error, Slot, Outcome, answer, refuse,
  RedisApi, is_option, wrong_type, empty_key, other_type, holds,
}

-- The results of a walk one after the other; it has run out of fuel if one of its calls has.
module _ {A : Type 0} where
  abbrev pub both : Option (List A) → Option (List A) → Option (List A)
  both none ys = none
  both (some xs) none = none
  both (some xs) (some ys) = some (xs ++ ys)

  -- The loop over the children that fsTreeReply, fsFindWalk and fsGrepWalk share: a child whose path is
  -- too deep is skipped.
  unfoldable pub each_child : (Bytes → Option (List A)) → Bytes → List Bytes → Option (List A)
  each_child rec path [] = some []
  each_child rec path (c ∷ cs) = elim (join path (c_str c)) [
    | none ↦ each_child rec path cs
    | some child ↦ both (rec (c_str child)) (each_child rec path cs)
  ]

-- The name of a leaf, with '/' behind a directory's and '@' behind a link's.
abbrev pub leaf_suffix : Payload → Bytes
leaf_suffix (file _ _) = []
leaf_suffix (dir _) = codes "/"
leaf_suffix (symlink _) = codes "@"

-- A directory is shown with a '/', and the root as "/".
unfoldable pub dir_label : Bytes → Bytes
dir_label path = if is_root path then root else base_name path ++ codes "/"

-- `typefilter`, where `none` is -1
abbrev pub type_passes : Option InodeType → Payload → Bool
type_passes none _ = true
type_passes (some file_type) (file _ _) = true
type_passes (some dir_type) (dir _) = true
type_passes (some symlink_type) (symlink _) = true
type_passes (some _) _ = false

-- What one path adds to the reply of FIND.
unfoldable pub find_here : Bytes → Option InodeType → Bytes → Payload → List Bytes
find_here pattern filter path p =
    if is_match false pattern (base_name path) && type_passes filter p then path ∷ [] else []

-- A line that GREP reports: the path, the number and the line.
abbrev pub Hit : Type 0
Hit = Bytes × ℕ × Bytes

-- What one file adds to the reply of GREP, under `search` for the search of its bytes.
unfoldable pub hits_here : (Bytes → Bytes → List (ℕ × Bytes)) → Bytes → Payload → List Hit
hits_here search path (file content bloom) = map (λ h. (path, h.0, h.1)) (search content bloom)
hits_here search path _ = []

unfoldable pub hit_pieces : List Hit → List Piece
hit_pieces [] = []
hit_pieces ((path, lineno, line) ∷ hs) =
    array 3 ∷ text path ∷ number (pos lineno) ∷ text line ∷ hit_pieces hs

-- FS_MAX_TREE_DEPTH
abbrev pub max_tree_depth : ℕ
max_tree_depth = 64

-- TYPE's argument.
unfoldable pub type_option : Bytes → Option InodeType
type_option t =
    if is_option t "file"
    then some file_type
    else if is_option t "dir"
    then some dir_type
    else if is_option t "symlink"
    then some symlink_type
    else none

-- `(int)d` as a depth: a negative one has no levels left.
unfoldable pub int_depth : ℕ → ℕ
int_depth d = if ltb (d % 2 ^ 32) (2 ^ 31) then d % 2 ^ 32 else 0

module _ (D : DictApi Inode) where
  -- The part of a walk that follows the lookup: what the path itself adds, and the children's results.
  unfoldable pub walk :
      {A : Type 0} → (Bytes → Payload → List A) → ℕ → Fs D → Bytes → Option (List A)
  unfolding each_child
  walk here zero fs path = none
  walk here (suc f) fs path = elim (lookup D fs path) [
    | none ↦ some []
    | some inode ↦
        both (some (here path inode.payload))
          (each_child (walk here f fs) path (children inode.payload))
  ]

  -- fsTreeReply; `depth` levels are left.
  unfoldable pub tree_reply : ℕ → Fs D → ℕ → Bytes → Option (List Piece)
  unfolding each_child
  tree_reply zero fs depth path = none
  tree_reply (suc f) fs depth path = elim (lookup D fs path) [
    | none ↦ some []
    | some inode ↦ elim depth [
      | zero ↦ some (text (base_name path ++ leaf_suffix inode.payload) ∷ [])
      | suc left ↦ elim inode.payload [
        | dir cs ↦
            both (some (array 2 ∷ text (dir_label path) ∷ array (length cs) ∷ []))
              (each_child (tree_reply f fs left) path cs)
        | other ↦ some (text (base_name path ++ leaf_suffix inode.payload) ∷ [])
      ]
    ]
  ]

  -- fsFindWalk
  unfoldable pub find_walk : ℕ → Bytes → Option InodeType → Fs D → Bytes → Option (List Bytes)
  unfolding walk find_here
  find_walk fuel pattern filter = walk (find_here pattern filter) fuel

  -- fsGrepWalk
  unfoldable pub grep_walk : ℕ → Bool → Bytes → Fs D → Bytes → Option (List Hit)
  unfolding walk hits_here
  grep_walk fuel nocase pattern = walk (hits_here (grep_file nocase pattern)) fuel

  -- A reply once the walk has ended.
  abbrev pub answer_with :
      {A : Type 0} → Fs D → (List A → Reply) → Option (List A) → Option (Outcome (Fs D))
  answer_with fs f none = none
  answer_with fs f (some xs) = some (answer fs (f xs))

  -- fsGetObject for reading and fsNormalizeOrReply, around a handler that walks.
  unfoldable pub walk_at :
      Slot (Fs D) → Bytes → (Fs D → Bytes → Option (Outcome (Fs D))) → Option (Outcome (Fs D))
  walk_at empty_key raw k = some (refuse empty_key (error "ERR no such filesystem key"))
  walk_at other_type raw k = some (refuse other_type wrong_type)
  walk_at (holds fs) raw k = elim (normalize raw) [
    | none ↦ some (answer fs (error "ERR path depth exceeds limit"))
    | some path ↦ k fs (c_str path)
  ]

  unfoldable pub tree_at : ℕ → ℕ → Fs D → Bytes → Option (Outcome (Fs D))
  tree_at fuel depth fs path = elim (lookup D fs path) [
    | none ↦ some (answer fs (error "ERR no such path"))
    | some _ ↦ answer_with fs stream (tree_reply fuel fs depth path)
  ]

  -- FIND and GREP reply with an array of postponed length.
  unfoldable pub find_at : ℕ → Bytes → Option InodeType → Fs D → Bytes → Option (Outcome (Fs D))
  find_at fuel pattern filter fs path =
      answer_with fs (λ ps. stream (array (length ps) ∷ map text ps))
        (find_walk fuel (c_str pattern) filter fs path)

  unfoldable pub grep_at : ℕ → Bool → Bytes → Fs D → Bytes → Option (Outcome (Fs D))
  grep_at fuel nocase pattern fs path =
      answer_with fs (λ hs. stream (array (length hs) ∷ hit_pieces hs))
        (grep_walk fuel nocase (c_str pattern) fs path)

  unfoldable pub find_typed :
      ℕ → Option InodeType → Slot (Fs D) → Bytes → Bytes → Option (Outcome (Fs D))
  find_typed fuel none slot raw pattern =
      some (refuse slot (error "ERR TYPE must be file, dir, or symlink"))
  find_typed fuel (some t) slot raw pattern = walk_at slot raw (find_at fuel pattern (some t))

  -- FIND_RedisCommand: of five arguments behind the command, the last is not read.
  unfoldable pub find : ℕ → Slot (Fs D) → List Bytes → Option (Outcome (Fs D))
  find fuel slot (raw ∷ pattern ∷ []) = walk_at slot raw (find_at fuel pattern none)
  find fuel slot (raw ∷ pattern ∷ opt ∷ []) = walk_at slot raw (find_at fuel pattern none)
  find fuel slot (raw ∷ pattern ∷ opt ∷ t ∷ []) =
      if is_option opt "type"
      then find_typed fuel (type_option t) slot raw pattern
      else some (refuse slot (error "ERR syntax error — expected TYPE <type>"))
  find fuel slot _ = some (refuse slot wrong_arity)

  -- GREP_RedisCommand
  unfoldable pub grep : ℕ → Slot (Fs D) → List Bytes → Option (Outcome (Fs D))
  grep fuel slot (raw ∷ pattern ∷ []) = walk_at slot raw (grep_at fuel false pattern)
  grep fuel slot (raw ∷ pattern ∷ opt ∷ []) =
      if is_option opt "nocase"
      then walk_at slot raw (grep_at fuel true pattern)
      else some (refuse slot (error "ERR syntax error — expected NOCASE"))
  grep fuel slot _ = some (refuse slot wrong_arity)

  module _ (api : RedisApi) where
    open api use {string_to_long_long}

    unfoldable pub tree_depth : ℕ → Option ℤ → Slot (Fs D) → Bytes → Option (Outcome (Fs D))
    tree_depth fuel (some (pos d)) slot raw = walk_at slot raw (tree_at fuel (int_depth d))
    tree_depth fuel _ slot raw =
        some (refuse slot (error "ERR DEPTH must be a non-negative integer"))

    -- TREE_RedisCommand: an option with no depth behind it is not read.
    unfoldable pub tree : ℕ → Slot (Fs D) → List Bytes → Option (Outcome (Fs D))
    tree fuel slot (raw ∷ []) = walk_at slot raw (tree_at fuel max_tree_depth)
    tree fuel slot (raw ∷ opt ∷ []) = walk_at slot raw (tree_at fuel max_tree_depth)
    tree fuel slot (raw ∷ opt ∷ d ∷ []) =
        if is_option opt "depth"
        then tree_depth fuel (string_to_long_long d) slot raw
        else some (refuse slot (error "ERR syntax error — expected DEPTH <n>"))
    tree fuel slot _ = some (refuse slot wrong_arity)
