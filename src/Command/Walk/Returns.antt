-- ===== src/Command/Walk/Returns.antt =====
-- TREE, FIND and GREP come to an end on every filesystem whose paths are a tree, whatever their
-- arguments are: a path that is not there ends a walk at once.
use redis_fs.Base.{
  ℕ, zero, suc, ◌+◌, ◌≡◌, refl, ap, ◌≤◌, ◌<◌, Bool, true, false, Option, none, some, List, [], ◌∷◌,
  ◌++◌, All, All-append, length, length-append, arith, Option-cases, inl, inr, c_str, ℤ,
}
use redis_fs.Base.Int.{pos, negsuc}
use redis_fs.Base.ByteStrings.{Bytes}
use redis_fs.Dict.{DictApi}
use redis_fs.Inode.{Inode, InodeType, Payload, file, dir, symlink}
use redis_fs.Path.{normalize, max_depth, base_name}
use redis_fs.Path.Normal.{path_of}
use redis_fs.Path.Plain.{IsCName, path_names}
use redis_fs.Fs.{Fs, lookup}
use redis_fs.Text.Grep.{grep_file}
use redis_fs.Command.{
  Reply, text, array, Slot, empty_key, other_type, holds, Outcome, is_option, RedisApi,
}
use redis_fs.Command.Keeps.{SlotHolds}
use redis_fs.Command.Remove.{children}
use redis_fs.Command.Remove.Ends.{Returns, if-Returns}
use redis_fs.Command.Tree.Shapes.{IsTree, shape, tree-IsCPath}
use redis_fs.Command.Tree.Changes.{shapes, shape_at}
use redis_fs.Command.Tree.Deleted.{children_names}
use redis_fs.Command.Walk.{
  each_child, walk, find_here, hits_here, find_walk, grep_walk, tree_reply, answer_with, walk_at,
  tree_at, find_at, find_typed, find, grep_at, grep, tree_depth, tree, type_option, int_depth,
  max_tree_depth, dir_label, leaf_suffix,
}
use redis_fs.Command.Walk.Ends.{HasCNames, both-Returns, each_child-Ends, walk-Ends}

module _ (D : DictApi Inode) where
  -- If the key holds a filesystem, its paths are a tree.
  abbrev pub HoldsTree : Slot (Fs D) → Type 0
  HoldsTree = SlotHolds D (λ fs. IsTree (shapes D fs))

  -- A level of fsTreeReply ends if the one below it does.
  tree_level-Returns :
      (f depth : ℕ) (fs : Fs D) (path : Bytes) (inode : Inode)
      → lookup D fs path ≡ some inode
      → ((left : ℕ) → Returns (each_child (tree_reply D f fs left) path (children inode.payload)))
      → Returns (tree_reply D (suc f) fs depth path)
  unfolding tree_reply
  tree_level-Returns f zero fs path inode e below = rw (tree_reply, e) (_, refl)
  tree_level-Returns f (suc left) fs path inode e below = split inode.payload refl
    where
      split : (p : Payload) → inode.payload ≡ p → Returns (tree_reply D (suc f) fs (suc left) path)
      split (file x y) q =
          rw (tree_reply, e, q) (text (base_name path ++ leaf_suffix inode.payload) ∷ [], refl)
      split (symlink x) q =
          rw (tree_reply, e, q) (text (base_name path ++ leaf_suffix inode.payload) ∷ [], refl)
      split (dir cs) q =
          let label = array 2 ∷ text (dir_label path) ∷ array (length cs) ∷ [] in
          let rest : Returns (each_child (tree_reply D f fs left) path cs) = rw q at (below left) in
          rw (tree_reply, e, q)
            (both-Returns (some label) (each_child (tree_reply D f fs left) path cs) (label, refl)
              rest)

  tree_reply-Ends :
      (f depth : ℕ) (i : List Bytes) (fs : Fs D)
      → All IsCName i
      → length i ≤ max_depth
      → max_depth < f + length i
      → HasCNames D fs
      → Returns (tree_reply D f fs depth (path_of i))
  unfolding tree_reply
  tree_reply-Ends zero depth i fs names d enough h = absurd (omega arith)
  tree_reply-Ends (suc f) depth i fs names d enough h =
      elim (Option-cases (lookup D fs (path_of i))) [
        | inl e ↦ rw (tree_reply, e) ([], refl)
        | inr (inode, e) ↦ tree_level-Returns f depth fs (path_of i) inode e (λ left.
            each_child-Ends D (tree_reply D f fs left) i names d
              (λ w k room.
                tree_reply-Ends f left (i ++ (w ∷ [])) fs
                  (All-append IsCName i (w ∷ []) names (k, tt))
                  (omega (arith, length-append i (w ∷ [])))
                  (omega (arith, length-append i (w ∷ []))) h)
              (children inode.payload) (h (path_of i) inode e))
      ]

  -- What ends on every path of names ends on a path of a tree.
  from_tree :
      {A : Type 0} (run : Bytes → Option A) (fs : Fs D) (p : Bytes) (i : Inode)
      → IsTree (shapes D fs)
      → lookup D fs p ≡ some i
      → ((names : List Bytes)
          → All IsCName names
          → length names ≤ max_depth
          → HasCNames D fs
          → Returns (run (path_of names)))
      → Returns (run p)
  from_tree run fs p i t e ends =
      let (names, named, d, is) =
        path_names p (tree-IsCPath (shapes D fs) p (shape i.payload) t (ap shape_at e)) in
      rw is (ends names named d (λ q j k. children_names D fs q j t k))

  walk-Returns :
      {A : Type 0} (here : Bytes → Payload → List A) (fs : Fs D) (p : Bytes)
      → IsTree (shapes D fs)
      → Returns (walk D here 257 fs p)
  unfolding walk
  walk-Returns here fs p t = elim (Option-cases (lookup D fs p)) [
    | inl e ↦ rw (walk, e) ([], refl)
    | inr (i, e) ↦
        from_tree (walk D here 257 fs) fs p i t e
          (λ names named d h. walk-Ends D here 257 names fs named d (omega arith) h)
  ]

  tree_at-Returns :
      (depth : ℕ) (fs : Fs D) (p : Bytes)
      → IsTree (shapes D fs)
      → Returns (tree_at D 257 depth fs p)
  unfolding tree_at
  tree_at-Returns depth fs p t = elim (Option-cases (lookup D fs p)) [
    | inl e ↦ rw (tree_at, e) (_, refl)
    | inr (i, e) ↦
        let (pieces, ended) =
          from_tree (tree_reply D 257 fs depth) fs p i t e
            (λ names named d h. tree_reply-Ends 257 depth names fs named d (omega arith) h) in
        rw (tree_at, e, ended) (_, refl)
  ]

  answer_with-Returns :
      {A : Type 0} (fs : Fs D) (f : List A → Reply) (o : Option (List A))
      → Returns o
      → Returns (answer_with D fs f o)
  answer_with-Returns fs f o (xs, e) = rw e (_, refl)

  walk_at-Returns :
      (slot : Slot (Fs D)) (raw : Bytes) (k : Fs D → Bytes → Option (Outcome (Fs D)))
      → HoldsTree slot
      → ((fs : Fs D) (p : Bytes) → IsTree (shapes D fs) → Returns (k fs p))
      → Returns (walk_at D slot raw k)
  unfolding walk_at
  walk_at-Returns empty_key raw k t h = (_, refl)
  walk_at-Returns other_type raw k t h = (_, refl)
  walk_at-Returns (holds fs) raw k t h = elim (Option-cases (normalize raw)) [
    | inl e ↦ rw (walk_at, e) (_, refl)
    | inr (p, e) ↦ rw (walk_at, e) (h fs (c_str p) t)
  ]

  find_at-Returns :
      (pattern : Bytes) (filter : Option InodeType) (fs : Fs D) (p : Bytes)
      → IsTree (shapes D fs)
      → Returns (find_at D 257 pattern filter fs p)
  unfolding find_at find_walk
  find_at-Returns pattern filter fs p t =
      answer_with-Returns fs _ _ (walk-Returns (find_here (c_str pattern) filter) fs p t)

  grep_at-Returns :
      (nocase : Bool) (pattern : Bytes) (fs : Fs D) (p : Bytes)
      → IsTree (shapes D fs)
      → Returns (grep_at D 257 nocase pattern fs p)
  unfolding grep_at grep_walk
  grep_at-Returns nocase pattern fs p t =
      answer_with-Returns fs _ _
        (walk-Returns (hits_here (grep_file nocase (c_str pattern))) fs p t)

  -- FIND comes to an end.
  pub find-Returns :
      (slot : Slot (Fs D)) (args : List Bytes) → HoldsTree slot → Returns (find D 257 slot args)
  unfolding find find_typed
  find-Returns slot [] t = (_, refl)
  find-Returns slot (raw ∷ []) t = (_, refl)
  find-Returns slot (raw ∷ pattern ∷ []) t =
      walk_at-Returns slot raw _ t (find_at-Returns pattern none)
  find-Returns slot (raw ∷ pattern ∷ opt ∷ []) t =
      walk_at-Returns slot raw _ t (find_at-Returns pattern none)
  find-Returns slot (raw ∷ pattern ∷ opt ∷ y ∷ []) t =
      if-Returns (is_option opt "type") _ _ (typed (type_option y)) (_, refl)
    where
      typed : (o : Option InodeType) → Returns (find_typed D 257 o slot raw pattern)
      typed none = (_, refl)
      typed (some x) = walk_at-Returns slot raw _ t (find_at-Returns pattern (some x))
  find-Returns slot (raw ∷ pattern ∷ opt ∷ y ∷ a ∷ args) t = (_, refl)

  -- GREP comes to an end.
  pub grep-Returns :
      (slot : Slot (Fs D)) (args : List Bytes) → HoldsTree slot → Returns (grep D 257 slot args)
  unfolding grep
  grep-Returns slot [] t = (_, refl)
  grep-Returns slot (raw ∷ []) t = (_, refl)
  grep-Returns slot (raw ∷ pattern ∷ []) t =
      walk_at-Returns slot raw _ t (grep_at-Returns false pattern)
  grep-Returns slot (raw ∷ pattern ∷ opt ∷ []) t =
      if-Returns (is_option opt "nocase") _ _
        (walk_at-Returns slot raw _ t (grep_at-Returns true pattern)) (_, refl)
  grep-Returns slot (raw ∷ pattern ∷ opt ∷ a ∷ args) t = (_, refl)

  -- TREE comes to an end.
  pub tree-Returns :
      (api : RedisApi) (slot : Slot (Fs D)) (args : List Bytes)
      → HoldsTree slot
      → Returns (tree D api 257 slot args)
  unfolding tree tree_depth
  tree-Returns api slot [] t = (_, refl)
  tree-Returns api slot (raw ∷ []) t = walk_at-Returns slot raw _ t (tree_at-Returns max_tree_depth)
  tree-Returns api slot (raw ∷ opt ∷ []) t =
      walk_at-Returns slot raw _ t (tree_at-Returns max_tree_depth)
  tree-Returns api slot (raw ∷ opt ∷ d ∷ []) t =
      if-Returns (is_option opt "depth") _ _ (with_depth (api.string_to_long_long d)) (_, refl)
    where
      with_depth : (o : Option ℤ) → Returns (tree_depth D api 257 o slot raw)
      with_depth none = (_, refl)
      with_depth (some (negsuc n)) = (_, refl)
      with_depth (some (pos n)) = walk_at-Returns slot raw _ t (tree_at-Returns (int_depth n))
  tree-Returns api slot (raw ∷ opt ∷ d ∷ a ∷ args) t = (_, refl)
