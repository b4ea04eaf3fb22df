-- ===== src/Command/Keeps/Listing.antt =====
-- LS, STAT, TEST and READLINK keep what setting an access time keeps.
use redis_fs.Base.{
  ℤ, ◌≡◌, refl, Bool, true, false, some, List, [], ◌∷◌, Bool-cases, Option-cases, inl, inr,
}
use redis_fs.Base.ByteStrings.{Bytes}
use redis_fs.Command.{holds, Slot, is_option}
use redis_fs.Dict.{DictApi}
use redis_fs.Inode.{Inode, Payload, file, dir, symlink}
use redis_fs.Path.{root}
use redis_fs.Fs.{Fs, lookup}
use redis_fs.Command.Keeps.{Accesses}
use redis_fs.Command.Keeps.Rules.{
  Keeps, open_read-Keeps, with_path-Keeps, with_target-Keeps, with_node-Keeps,
}
use redis_fs.Command.Meta.{
  ls, ls_opened, ls_at, ls_node, stat, stat_at, test, test_at, readlink, readlink_at,
}

module _ (D : DictApi Inode) (H : Slot (Fs D) → Type 0) (accessed : Accesses D H) (now : ℤ) where
  ls_node-Keeps :
      (long : Bool) (fs : Fs D) (p : Bytes) (i : Inode)
      → H (holds fs)
      → lookup D fs p ≡ some i
      → Keeps D H (ls_node D now long fs p i)
  unfolding ls_node
  ls_node-Keeps long fs p i c e = split i.payload refl
    where
      split : (x : Payload) → i.payload ≡ x → Keeps D H (ls_node D now long fs p i)
      split (file a b) k = rw (ls_node, k) c
      split (dir cs) k = rw (ls_node, k) (accessed now fs p i c e)
      split (symlink t) k = rw (ls_node, k) c

  ls_opened-Keeps :
      (long : Bool) (slot : Slot (Fs D)) (raw : Bytes)
      → H slot
      → Keeps D H (ls_opened D now long slot raw)
  unfolding ls_opened ls_at
  ls_opened-Keeps long slot raw c = open_read-Keeps D H slot _ c (λ fs k.
      with_path-Keeps D H fs k raw _ (λ p n.
        with_target-Keeps D H fs k p _
          (λ t r. with_node-Keeps D H fs k t _ _ (λ i e. ls_node-Keeps long fs t i k e))))

  pub ls-Keeps : (slot : Slot (Fs D)) (args : List Bytes) → H slot → Keeps D H (ls D now slot args)
  unfolding ls
  ls-Keeps slot [] c = ls_opened-Keeps false slot root c
  ls-Keeps slot (raw ∷ []) c = elim (Bool-cases (is_option raw "long")) [
    | inl e ↦ rw e (ls_opened-Keeps true slot root c)
    | inr e ↦ rw e (ls_opened-Keeps false slot raw c)
  ]
  ls-Keeps slot (raw ∷ opt ∷ []) c = elim (Bool-cases (is_option opt "long")) [
    | inl e ↦ rw e (ls_opened-Keeps true slot raw c)
    | inr e ↦ rw e c
  ]
  ls-Keeps slot (raw ∷ opt ∷ a ∷ args) c = c

  stat_at-Keeps : (fs : Fs D) (p : Bytes) → H (holds fs) → Keeps D H (stat_at D fs p)
  unfolding stat_at
  stat_at-Keeps fs p c = elim (Option-cases (lookup D fs p)) [
    | inl e ↦ rw (stat_at, e) c
    | inr (i, e) ↦ rw (stat_at, e) c
  ]

  pub stat-Keeps : (slot : Slot (Fs D)) (args : List Bytes) → H slot → Keeps D H (stat D slot args)
  unfolding stat
  stat-Keeps slot [] c = c
  stat-Keeps slot (raw ∷ []) c =
      open_read-Keeps D H slot _ c
        (λ fs k. with_path-Keeps D H fs k raw _ (λ p n. stat_at-Keeps fs p k))
  stat-Keeps slot (raw ∷ a ∷ args) c = c

  test_at-Keeps : (fs : Fs D) (p : Bytes) → H (holds fs) → Keeps D H (test_at D fs p)
  unfolding test_at
  test_at-Keeps fs p c = elim (Option-cases (lookup D fs p)) [
    | inl e ↦ rw (test_at, e) c
    | inr (i, e) ↦ rw (test_at, e) c
  ]

  pub test-Keeps : (slot : Slot (Fs D)) (args : List Bytes) → H slot → Keeps D H (test D slot args)
  unfolding test
  test-Keeps slot [] c = c
  test-Keeps slot (raw ∷ []) c =
      open_read-Keeps D H slot _ c
        (λ fs k. with_path-Keeps D H fs k raw _ (λ p n. test_at-Keeps fs p k))
  test-Keeps slot (raw ∷ a ∷ args) c = c

  readlink_at-Keeps : (fs : Fs D) (p : Bytes) → H (holds fs) → Keeps D H (readlink_at D fs p)
  unfolding readlink_at
  readlink_at-Keeps fs p c = elim (Option-cases (lookup D fs p)) [
    | inl e ↦ rw (readlink_at, e) c
    | inr (i, e) ↦ split i e i.payload refl
  ]
    where
      split :
          (i : Inode)
          → lookup D fs p ≡ some i
          → (x : Payload) → i.payload ≡ x
          → Keeps D H (readlink_at D fs p)
      split i e (file a b) k = rw (readlink_at, e, k) c
      split i e (dir cs) k = rw (readlink_at, e, k) c
      split i e (symlink t) k = rw (readlink_at, e, k) c

  pub readlink-Keeps :
      (slot : Slot (Fs D)) (args : List Bytes) → H slot → Keeps D H (readlink D slot args)
  unfolding readlink
  readlink-Keeps slot [] c = c
  readlink-Keeps slot (raw ∷ []) c =
      open_read-Keeps D H slot _ c
        (λ fs k. with_path-Keeps D H fs k raw _ (λ p n. readlink_at-Keeps fs p k))
  readlink-Keeps slot (raw ∷ a ∷ args) c = c
