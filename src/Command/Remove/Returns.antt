-- ===== src/Command/Remove/Returns.antt =====
-- RM comes to an end on every filesystem whose paths are a tree, whatever its arguments are: it
-- replies at once for a path that is not there.
use redis_fs.Base.{ℤ, refl, ap, Bool, true, false, List, [], ◌∷◌, Option-cases, inl, inr, c_str}
use redis_fs.Base.ByteStrings.{Bytes}
use redis_fs.Dict.{DictApi}
use redis_fs.Inode.{Inode}
use redis_fs.Path.{normalize, is_root}
use redis_fs.Fs.{Fs, lookup}
use redis_fs.Command.{Slot, empty_key, other_type, holds, is_option}
use redis_fs.Command.Remove.{children, rm_at, rm_raw, rm_slot, rm}
use redis_fs.Command.Remove.Ends.{Returns, if-Returns, rm_at-ends}
use redis_fs.Command.Tree.Shapes.{IsTree, shape, tree-IsCPath}
use redis_fs.Command.Tree.Changes.{shapes, shape_at}
use redis_fs.Command.Tree.Deleted.{children_names}
use redis_fs.Command.Walk.Returns.{HoldsTree}
use redis_fs.Command.Walk.Ends.{All-fst}

module _ (D : DictApi Inode) (now : ℤ) where
  rm_at-Returns :
      (recursive : Bool) (fs : Fs D) (p : Bytes)
      → IsTree (shapes D fs)
      → Returns (rm_at D 257 now recursive fs p)
  unfolding rm_at
  rm_at-Returns recursive fs p t = elim (Option-cases (lookup D fs p)) [
    | inl e ↦ rw (rm_at, e) (if-Returns (is_root p) _ _ (_, refl) (_, refl))
    | inr (i, e) ↦
        rm_at-ends D now recursive fs p
          (tree-IsCPath (shapes D fs) p (shape i.payload) t (ap shape_at e)).normal
          (λ q j k. All-fst (children j.payload) (children_names D fs q j t k))
  ]

  rm_slot-Returns :
      (recursive : Bool) (slot : Slot (Fs D)) (raw : Bytes)
      → HoldsTree D slot
      → Returns (rm_slot D 257 now recursive slot raw)
  unfolding rm_slot rm_raw
  rm_slot-Returns recursive empty_key raw t = (_, refl)
  rm_slot-Returns recursive other_type raw t = (_, refl)
  rm_slot-Returns recursive (holds fs) raw t = elim (Option-cases (normalize raw)) [
    | inl e ↦ rw (rm_raw, e) (_, refl)
    | inr (p, e) ↦ rw (rm_raw, e) (rm_at-Returns recursive fs (c_str p) t)
  ]

  -- RM comes to an end.
  pub rm-Returns :
      (slot : Slot (Fs D)) (args : List Bytes) → HoldsTree D slot → Returns (rm D 257 now slot args)
  unfolding rm
  rm-Returns slot [] t = (_, refl)
  rm-Returns slot (raw ∷ []) t = rm_slot-Returns false slot raw t
  rm-Returns slot (raw ∷ opt ∷ []) t =
      if-Returns (is_option opt "recursive") _ _ (rm_slot-Returns true slot raw t) (_, refl)
  rm-Returns slot (raw ∷ opt ∷ a ∷ args) t = (_, refl)
