-- ===== src/Command/Keeps/Walks.antt =====
-- TREE, FIND and GREP change nothing, so they keep any property of the filesystem.
use redis_fs.Base.{
  ℕ, ℤ, Bool, true, false, Option, none, some, List, [], ◌∷◌, Bool-cases, Option-cases, inl, inr,
  c_str,
}
use redis_fs.Base.Int.{pos, negsuc}
use redis_fs.Base.ByteStrings.{Bytes}
use redis_fs.Dict.{DictApi}
use redis_fs.Inode.{Inode, InodeType}
use redis_fs.Path.{normalize}
use redis_fs.Fs.{Fs, lookup}
use redis_fs.Command.{Reply, Slot, empty_key, other_type, holds, Outcome, is_option, RedisApi}
use redis_fs.Command.Walk.{
  answer_with, walk_at, tree_reply, tree_at, find_walk, find_at, find_typed, find, grep_walk,
  grep_at, grep, tree_depth, tree, type_option, int_depth, max_tree_depth,
}
use redis_fs.Command.Keeps.Rules.{Result}

module _ (D : DictApi Inode) (H : Slot (Fs D) → Type 0) where
  answer_with-Keeps :
      {A : Type 0} (fs : Fs D) (f : List A → Reply) (o : Option (List A))
      → H (holds fs)
      → Result D H (answer_with D fs f o)
  answer_with-Keeps fs f none c = tt
  answer_with-Keeps fs f (some xs) c = c

  walk_at-Keeps :
      (slot : Slot (Fs D)) (raw : Bytes) (k : Fs D → Bytes → Option (Outcome (Fs D)))
      → H slot
      → ((fs : Fs D) (p : Bytes) → H (holds fs) → Result D H (k fs p))
      → Result D H (walk_at D slot raw k)
  unfolding walk_at
  walk_at-Keeps empty_key raw k c h = c
  walk_at-Keeps other_type raw k c h = c
  walk_at-Keeps (holds fs) raw k c h = elim (Option-cases (normalize raw)) [
    | inl e ↦ rw (walk_at, e) c
    | inr (p, e) ↦ rw (walk_at, e) (h fs (c_str p) c)
  ]

  find_at-Keeps :
      (fuel : ℕ) (pattern : Bytes) (filter : Option InodeType) (fs : Fs D) (p : Bytes)
      → H (holds fs)
      → Result D H (find_at D fuel pattern filter fs p)
  unfolding find_at
  find_at-Keeps fuel pattern filter fs p c =
      answer_with-Keeps fs _ (find_walk D fuel (c_str pattern) filter fs p) c

  pub find-Keeps :
      (fuel : ℕ) (slot : Slot (Fs D)) (args : List Bytes)
      → H slot
      → Result D H (find D fuel slot args)
  unfolding find find_typed
  find-Keeps fuel slot [] c = c
  find-Keeps fuel slot (raw ∷ []) c = c
  find-Keeps fuel slot (raw ∷ pattern ∷ []) c =
      walk_at-Keeps slot raw _ c (find_at-Keeps fuel pattern none)
  find-Keeps fuel slot (raw ∷ pattern ∷ opt ∷ []) c =
      walk_at-Keeps slot raw _ c (find_at-Keeps fuel pattern none)
  find-Keeps fuel slot (raw ∷ pattern ∷ opt ∷ t ∷ []) c = elim (Bool-cases (is_option opt "type")) [
    | inl e ↦ rw e (typed (type_option t))
    | inr e ↦ rw e c
  ]
    where
      typed : (o : Option InodeType) → Result D H (find_typed D fuel o slot raw pattern)
      typed none = c
      typed (some x) = walk_at-Keeps slot raw _ c (find_at-Keeps fuel pattern (some x))
  find-Keeps fuel slot (raw ∷ pattern ∷ opt ∷ t ∷ a ∷ args) c = c

  grep_at-Keeps :
      (fuel : ℕ) (nocase : Bool) (pattern : Bytes) (fs : Fs D) (p : Bytes)
      → H (holds fs)
      → Result D H (grep_at D fuel nocase pattern fs p)
  unfolding grep_at
  grep_at-Keeps fuel nocase pattern fs p c =
      answer_with-Keeps fs _ (grep_walk D fuel nocase (c_str pattern) fs p) c

  pub grep-Keeps :
      (fuel : ℕ) (slot : Slot (Fs D)) (args : List Bytes)
      → H slot
      → Result D H (grep D fuel slot args)
  unfolding grep
  grep-Keeps fuel slot [] c = c
  grep-Keeps fuel slot (raw ∷ []) c = c
  grep-Keeps fuel slot (raw ∷ pattern ∷ []) c =
      walk_at-Keeps slot raw _ c (grep_at-Keeps fuel false pattern)
  grep-Keeps fuel slot (raw ∷ pattern ∷ opt ∷ []) c = elim (Bool-cases (is_option opt "nocase")) [
    | inl e ↦ rw e (walk_at-Keeps slot raw _ c (grep_at-Keeps fuel true pattern))
    | inr e ↦ rw e c
  ]
  grep-Keeps fuel slot (raw ∷ pattern ∷ opt ∷ a ∷ args) c = c

  tree_at-Keeps :
      (fuel depth : ℕ) (fs : Fs D) (p : Bytes)
      → H (holds fs)
      → Result D H (tree_at D fuel depth fs p)
  unfolding tree_at
  tree_at-Keeps fuel depth fs p c = elim (Option-cases (lookup D fs p)) [
    | inl e ↦ rw (tree_at, e) c
    | inr (i, e) ↦ rw (tree_at, e) (answer_with-Keeps fs _ (tree_reply D fuel fs depth p) c)
  ]

  pub tree-Keeps :
      (fuel : ℕ) (api : RedisApi) (slot : Slot (Fs D)) (args : List Bytes)
      → H slot
      → Result D H (tree D api fuel slot args)
  unfolding tree tree_depth
  tree-Keeps fuel api slot [] c = c
  tree-Keeps fuel api slot (raw ∷ []) c =
      walk_at-Keeps slot raw _ c (tree_at-Keeps fuel max_tree_depth)
  tree-Keeps fuel api slot (raw ∷ opt ∷ []) c =
      walk_at-Keeps slot raw _ c (tree_at-Keeps fuel max_tree_depth)
  tree-Keeps fuel api slot (raw ∷ opt ∷ d ∷ []) c = elim (Bool-cases (is_option opt "depth")) [
    | inl e ↦ rw e (with_depth (api.string_to_long_long d))
    | inr e ↦ rw e c
  ]
    where
      with_depth : (o : Option ℤ) → Result D H (tree_depth D api fuel o slot raw)
      with_depth none = c
      with_depth (some (negsuc n)) = c
      with_depth (some (pos n)) = walk_at-Keeps slot raw _ c (tree_at-Keeps fuel (int_depth n))
  tree-Keeps fuel api slot (raw ∷ opt ∷ d ∷ a ∷ args) c = c
