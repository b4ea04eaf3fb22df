-- ===== src/Command/Remove/Gone.antt =====
-- RM: what it has deleted is not there any more.
use redis_fs.Base.{
  ℕ, zero, suc, ℤ, ◌≡◌, ◌∙◌, Bool, true, false, not, ◌&&◌, Option, none, some, Bool-cases,
  Option-cases, inl, inr, if◌then◌else◌, bytes_eq_refl, ltb, length,
}
use redis_fs.Base.Int.{pos}
use redis_fs.Base.ByteStrings.{Bytes}
use redis_fs.Dict.{DictApi}
use redis_fs.Inode.{Inode}
use redis_fs.Path.{is_root}
use redis_fs.Fs.{Fs, lookup, remove, unlink_from_parent}
use redis_fs.Fs.Lookup.{lookup-remove}
use redis_fs.Command.{integer, empty_key, holds, Outcome}
use redis_fs.Command.Remove.{
  children, detach, delete_children, delete_recursive, maybe_delete_key, deleted, rm_at,
}

module _ (D : DictApi Inode) (now : ℤ) where
  lookup-remove_self : (fs : Fs D) (path : Bytes) → lookup D (remove D fs path) path ≡ none
  lookup-remove_self fs path = lookup-remove D fs path path ∙ rw (bytes_eq_refl path)

  -- If fsDeleteRecursive comes to an end, there is nothing at its path.
  pub delete_recursive-gone :
      (fuel : ℕ) (fs fs' : Fs D) (path : Bytes)
      → delete_recursive D fuel now fs path ≡ some fs'
      → lookup D fs' path ≡ none
  unfolding delete_recursive detach
  delete_recursive-gone zero fs fs' path h = cc h
  delete_recursive-gone (suc fuel) fs fs' path h = elim (Option-cases (lookup D fs path)) [
    | inl e ↦ let same : fs ≡ fs' = cc (rw (delete_recursive, e) at h) in rw (← same) e
    | inr (inode, e) ↦
        elim (Option-cases
          (delete_children D (delete_recursive D fuel now) fs path (children inode.payload))) [
            | inl q ↦ cc (rw (delete_recursive, e, q) at h)
            | inr (mid, q) ↦
                let same : detach D now mid path ≡ fs' = cc (rw (delete_recursive, e, q) at h) in
                rw (← same) (lookup-remove_self _ path)
          ]
  ]

  if-holds : (b : Bool) (fs fs' : Fs D) → (if b then empty_key else holds fs) ≡ holds fs' → fs ≡ fs'
  if-holds true fs fs' h = cc h
  if-holds false fs fs' h = cc h

  deleted-gone :
      (fs fs' : Fs D) (path : Bytes) (o : Outcome (Fs D))
      → lookup D fs path ≡ none
      → Option.some (deleted D fs) ≡ some o
      → o.slot ≡ holds fs'
      → lookup D fs' path ≡ none
  unfolding maybe_delete_key
  deleted-gone fs fs' path o gone h key =
      let slot : maybe_delete_key D fs ≡ o.slot = cc h in
      let same : fs ≡ fs' = if-holds _ fs fs' (slot ∙ key) in rw (← same) gone

  -- If RM replies 1 and the key is still there, there is nothing at the path.
  pub rm_at-gone :
      (fuel : ℕ) (recursive : Bool) (fs fs' : Fs D) (path : Bytes) (o : Outcome (Fs D))
      → rm_at D fuel now recursive fs path ≡ some o
      → o.reply ≡ integer (pos 1)
      → o.slot ≡ holds fs'
      → lookup D fs' path ≡ none
  unfolding rm_at
  rm_at-gone fuel recursive fs fs' path o h one key = elim (Bool-cases (is_root path)) [
    | inl e ↦ cc (rw (rm_at, e) at h, one)
    | inr e ↦ elim (Option-cases (lookup D fs path)) [
      | inl q ↦ cc (rw (rm_at, e, q) at h, one)
      | inr (inode, q) ↦
          elim (Bool-cases (ltb 0 (length (children inode.payload)) && not recursive)) [
            | inl r ↦ cc (rw (rm_at, e, q, r) at h, one)
            | inr r ↦ delete recursive (rw (rm_at, e, q, r) at h)
          ]
    ]
  ]
    where
      delete :
          (b : Bool)
          → (if b
              then elim (delete_recursive D fuel now fs path) [
                | none ↦ none
                | some after ↦ some (deleted D after)
              ]
              else some (deleted D (remove D (unlink_from_parent D now fs path) path)))
            ≡ some o
          → lookup D fs' path ≡ none
      delete true k = elim (Option-cases (delete_recursive D fuel now fs path)) [
        | inl q ↦ cc (rw q at k)
        | inr (after, q) ↦
            deleted-gone after fs' path o (delete_recursive-gone fuel fs after path q) (rw q at k)
              key
      ]
      delete false k = deleted-gone _ fs' path o (lookup-remove_self _ path) k key
