-- ===== src/Command/Keeps/Removal.antt =====
-- RM keeps an invariant.
use redis_fs.Base.{
  All, arith, ℕ, ℤ, ◌%◌, ◌≡◌, Bool, true, false, not, ◌&&◌, some, List, [], ◌∷◌, Bool-cases,
  Option-cases, inl, inr, length, leb, ltb, u64_mod, ◌+◌, c_str,
}
use redis_fs.Base.ByteStrings.{Bytes}
use redis_fs.Dict.{DictApi}
use redis_fs.Inode.{Inode}
use redis_fs.Path.{is_root, normalize}
use redis_fs.Fs.{Fs, lookup, remove, unlink_from_parent}
use redis_fs.Command.{Slot, empty_key, other_type, holds, is_option}
use redis_fs.Command.Remove.{
  children, delete_recursive, maybe_delete_key, rm_at, rm_raw, rm_slot, rm,
}
use redis_fs.Command.Keeps.{Invariant}
use redis_fs.Command.Keeps.Rules.{Result}

module _ (D : DictApi Inode) (V : Invariant D) (now : ℤ) where
  maybe_delete_key-Holds : (fs : Fs D) → V.Held (holds fs) → V.Held (maybe_delete_key D fs)
  unfolding maybe_delete_key
  maybe_delete_key-Holds fs c =
      elim (Bool-cases (leb ((fs.file_count + fs.dir_count + fs.symlink_count) % u64_mod) 1)) [
        | inl e ↦ rw e (V.emptied fs c)
        | inr e ↦ rw e c
      ]

  rm_at-Keeps :
      (fuel : ℕ) (recursive : Bool) (fs : Fs D) (p : Bytes)
      → V.Held (holds fs)
      → V.IsPath p
      → Result D V.Held (rm_at D fuel now recursive fs p)
  unfolding rm_at
  rm_at-Keeps fuel recursive fs p c is = elim (Bool-cases (is_root p)) [
    | inl e ↦ rw e c
    | inr e ↦ elim (Option-cases (lookup D fs p)) [
      | inl l ↦ rw (rm_at, e, l) c
      | inr (i, l) ↦ elim (Bool-cases (ltb 0 (length (children i.payload)) && not recursive)) [
        | inl q ↦ rw (rm_at, e, l, q) c
        | inr q ↦ split recursive i e l q
      ]
    ]
  ]
    where
      split :
          (b : Bool) (i : Inode)
          → is_root p ≡ false
          → lookup D fs p ≡ some i
          → (ltb 0 (length (children i.payload)) && not b) ≡ false
          → Result D V.Held (rm_at D fuel now b fs p)
      split false i e l q =
          rw (rm_at, e, l, q)
            (maybe_delete_key-Holds (remove D (unlink_from_parent D now fs p) p)
              (V.removed now fs p i c is e l (ground (arith, q))))
      split true i e l q = elim (Option-cases (delete_recursive D fuel now fs p)) [
        | inl d ↦ rw (rm_at, e, l, q, d) tt
        | inr (fs', d) ↦
            rw (rm_at, e, l, q, d)
              (maybe_delete_key-Holds fs' (V.deleted fuel now fs fs' p c is e d))
      ]

  rm_slot-Keeps :
      (fuel : ℕ) (recursive : Bool) (slot : Slot (Fs D)) (raw : Bytes)
      → V.Clean raw
      → V.Held slot
      → Result D V.Held (rm_slot D fuel now recursive slot raw)
  unfolding rm_slot rm_raw
  rm_slot-Keeps fuel recursive empty_key raw m c = c
  rm_slot-Keeps fuel recursive other_type raw m c = c
  rm_slot-Keeps fuel recursive (holds fs) raw m c = elim (Option-cases (normalize raw)) [
    | inl e ↦ rw (rm_raw, e) c
    | inr (p, e) ↦ rw (rm_raw, e) (rm_at-Keeps fuel recursive fs (c_str p) c (V.named raw p m e))
  ]

  pub rm-Keeps :
      (fuel : ℕ) (slot : Slot (Fs D)) (args : List Bytes)
      → All V.Clean args
      → V.Held slot
      → Result D V.Held (rm D fuel now slot args)
  unfolding rm
  rm-Keeps fuel slot [] m c = c
  rm-Keeps fuel slot (raw ∷ []) m c = rm_slot-Keeps fuel false slot raw m.0 c
  rm-Keeps fuel slot (raw ∷ opt ∷ []) m c = elim (Bool-cases (is_option opt "recursive")) [
    | inl e ↦ rw e (rm_slot-Keeps fuel true slot raw m.0 c)
    | inr e ↦ rw e c
  ]
  rm-Keeps fuel slot (raw ∷ opt ∷ a ∷ args) m c = c
