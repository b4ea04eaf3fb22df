-- ===== src/Command/Move/Storable/Handlers.antt =====
-- The inodes through FS.CP and FS.MV: every inode stays as the structure in C holds it.
use mathlib.Core.Path.{subst}
use redis_fs.Base.{
  ℕ, ℤ, ◌≡◌, refl, sym, ◌∙◌, Bool, true, false, Option, none, some, List, [], ◌∷◌, ◌++◌, Bool-cases,
  Option-cases, inl, inr, ◌&&◌, not, if◌then◌else◌, length, drop, c_str, bytes_eq,
}
use redis_fs.Base.ByteStrings.{Bytes}
use redis_fs.Dict.{DictApi, or_else}
use redis_fs.Inode.{Inode, is_dir}
use redis_fs.Path.{normalize, is_root, slash}
use redis_fs.Fs.{Fs, lookup, ensure_parents}
use redis_fs.Rdb.Round.{IsStorable}
use redis_fs.Command.{Slot, empty_key, other_type, holds, is_option, fresh}
use redis_fs.Command.Keeps.Rules.{
  Keeps, Result, open_write-Keeps, with_path-Keeps, with_node-Keeps, with_parents-Keeps,
}
use redis_fs.Command.Keeps.{SlotHolds}
use redis_fs.Command.Storable.{storable}
use redis_fs.Command.Storable.Store.{
  AllStorable, found, fresh-AllStorable, parents-AllStorable, linked_at-AllStorable,
  unlinked-AllStorable,
}
use redis_fs.Command.Move.{
  copy_recursive, cp_made, cp_parents, cp_at, cp_raw, cp_slot, cp, rekey, move_keys, keys_under,
  move_descendants, mv_made, mv_free, mv_at, mv, Copy, has_prefix,
}
use redis_fs.Command.Move.Storable.{CopyStorable, copy_recursive-AllStorable}

module _ (D : DictApi Inode) where
  cp_made-Storable :
      (fuel : ℕ) (now : ℤ) (src dst : Bytes) (fs : Fs D)
      → AllStorable D fs
      → Result D (SlotHolds D (AllStorable D)) (cp_made D fuel now src dst fs)
  unfolding cp_made
  cp_made-Storable fuel now src dst fs h =
      split (copy_recursive D fuel now fs src dst) refl
        (copy_recursive-AllStorable D fuel now fs src dst h)
    where
      split :
          (r : Copy (Fs D))
          → copy_recursive D fuel now fs src dst ≡ r
          → CopyStorable D (copy_recursive D fuel now fs src dst)
          → Result D (SlotHolds D (AllStorable D)) (cp_made D fuel now src dst fs)
      split none e k = rw (cp_made, e) tt
      split (some (fs', false)) e k = rw (cp_made, e) (subst (CopyStorable D) e k)
      split (some (fs', true)) e k =
          rw (cp_made, e) (linked_at-AllStorable D now fs' dst (subst (CopyStorable D) e k))

  cp_parents-Storable :
      (fuel : ℕ) (now : ℤ) (src dst : Bytes) (fs : Fs D)
      → AllStorable D fs
      → Result D (SlotHolds D (AllStorable D)) (cp_parents D fuel now src dst fs)
  unfolding cp_parents
  cp_parents-Storable fuel now src dst fs h =
      let kept = parents-AllStorable D now fs dst h in
      elim (Bool-cases (ensure_parents D now fs dst).1) [
        | inl e ↦
            rw (cp_parents, e)
              (cp_made-Storable fuel now src dst (ensure_parents D now fs dst).0 kept)
        | inr e ↦ rw (cp_parents, e) kept
      ]

  cp_at-Storable :
      (fuel : ℕ) (now : ℤ) (recursive : Bool) (fs : Fs D) (src dst : Bytes)
      → AllStorable D fs
      → Result D (SlotHolds D (AllStorable D)) (cp_at D fuel now recursive fs src dst)
  unfolding cp_at
  cp_at-Storable fuel now recursive fs src dst h = elim (Option-cases (lookup D fs src)) [
    | inl e ↦ rw (cp_at, e) h
    | inr (s, e) ↦ elim (Bool-cases (is_dir s.payload && not recursive)) [
      | inl q ↦ rw (cp_at, e, q) h
      | inr q ↦ elim (Option-cases (lookup D fs dst)) [
        | inl x ↦ rw (cp_at, e, q, x) (cp_parents-Storable fuel now src dst fs h)
        | inr (i, x) ↦ rw (cp_at, e, q, x) h
      ]
    ]
  ]

  cp_raw-Storable :
      (fuel : ℕ) (now : ℤ) (recursive : Bool) (rawsrc rawdst : Bytes) (fs : Fs D)
      → AllStorable D fs
      → Result D (SlotHolds D (AllStorable D)) (cp_raw D fuel now recursive rawsrc rawdst fs)
  unfolding cp_raw
  cp_raw-Storable fuel now recursive rawsrc rawdst fs h = elim (Option-cases (normalize rawsrc)) [
    | inl e ↦ rw (cp_raw, e) h
    | inr (src, e) ↦ elim (Option-cases (normalize rawdst)) [
      | inl q ↦ rw (cp_raw, e, q) h
      | inr (dst, q) ↦
          rw (cp_raw, e, q) (cp_at-Storable fuel now recursive fs (c_str src) (c_str dst) h)
    ]
  ]

  cp_slot-Storable :
      (fuel : ℕ) (now : ℤ) (recursive : Bool) (slot : Slot (Fs D)) (rawsrc rawdst : Bytes)
      → SlotHolds D (AllStorable D) slot
      → Result D (SlotHolds D (AllStorable D)) (cp_slot D fuel now recursive slot rawsrc rawdst)
  unfolding cp_slot
  cp_slot-Storable fuel now recursive empty_key rawsrc rawdst h =
      cp_raw-Storable fuel now recursive rawsrc rawdst (fresh D now) (fresh-AllStorable D now)
  cp_slot-Storable fuel now recursive other_type rawsrc rawdst h = tt
  cp_slot-Storable fuel now recursive (holds fs) rawsrc rawdst h =
      cp_raw-Storable fuel now recursive rawsrc rawdst fs h

  pub cp-Storable :
      (fuel : ℕ) (now : ℤ) (slot : Slot (Fs D)) (args : List Bytes)
      → SlotHolds D (AllStorable D) slot
      → Result D (SlotHolds D (AllStorable D)) (cp D fuel now slot args)
  unfolding cp
  cp-Storable fuel now slot [] h = h
  cp-Storable fuel now slot (a ∷ []) h = h
  cp-Storable fuel now slot (a ∷ b ∷ []) h = cp_slot-Storable fuel now false slot a b h
  cp-Storable fuel now slot (a ∷ b ∷ opt ∷ []) h = elim (Bool-cases (is_option opt "recursive")) [
    | inl e ↦ rw e (cp_slot-Storable fuel now true slot a b h)
    | inr e ↦ rw e h
  ]
  cp-Storable fuel now slot (a ∷ b ∷ opt ∷ c ∷ args) h = h

  -- What is found after a move was there before it.
  rekey-AllStorable :
      (fs : Fs D) (old new : Bytes) → AllStorable D fs → AllStorable D (rekey D fs old new)
  unfolding rekey lookup
  rekey-AllStorable fs old new h = elim (Option-cases (lookup D fs old)) [
    | inl e ↦ rw (rekey, e) h
    | inr (i, e) ↦
        rw (rekey, e)
          (λ q j k.
            let without = D.del fs.inodes old in
            let kept : (p : Bytes) (x : Inode) → D.get without p ≡ some x → IsStorable x =
              λ p x y. left (bytes_eq old p) (h p) x (sym (D.get-del fs.inodes old p) ∙ y) in
            found D IsStorable (bytes_eq new q) (or_else (D.get without new) i) (D.get without q)
              (either (D.get without new) i (h old i e) (kept new)) (kept q) j
              (sym (D.get-set without new q i) ∙ k))
  ]
    where
      left :
          {o : Option Inode} (b : Bool)
          → ((x : Inode) → o ≡ some x → IsStorable x)
          → (x : Inode) → (if b then none else o) ≡ some x
          → IsStorable x
      left true k x y = cc y
      left false k x y = k x y

      either :
          (o : Option Inode) (i : Inode)
          → IsStorable i
          → ((x : Inode) → o ≡ some x → IsStorable x)
          → IsStorable (or_else o i)
      either none i k l = k
      either (some d) i k l = l d refl

  move_keys-AllStorable :
      (src dst : Bytes) (ks : List Bytes) (fs : Fs D)
      → AllStorable D fs
      → AllStorable D (move_keys D src dst ks fs)
  unfolding move_keys
  move_keys-AllStorable src dst [] fs h = h
  move_keys-AllStorable src dst (k ∷ ks) fs h =
      move_keys-AllStorable src dst ks (rekey D fs k (dst ++ drop (length src) k))
        (rekey-AllStorable fs k (dst ++ drop (length src) k) h)

  mv_made-Storable :
      (now : ℤ) (src dst : Bytes) (s : Inode) (fs : Fs D)
      → AllStorable D fs
      → Keeps D (SlotHolds D (AllStorable D)) (mv_made D now src dst s fs)
  unfolding mv_made move_descendants
  mv_made-Storable now src dst s fs h = linked_at-AllStorable D now _ dst (
      unlinked-AllStorable D now _ src (
        rekey-AllStorable (if is_dir s.payload then move_descendants D src dst fs else fs) src dst
          (below (is_dir s.payload))))
    where
      below : (b : Bool) → AllStorable D (if b then move_descendants D src dst fs else fs)
      below true =
          move_keys-AllStorable src dst (keys_under D (src ++ (slash ∷ [])) (D.entries fs.inodes))
            fs h
      below false = h

  mv_free-Storable :
      (now : ℤ) (src dst : Bytes) (s : Inode) (fs : Fs D)
      → AllStorable D fs
      → Keeps D (SlotHolds D (AllStorable D)) (mv_free D now src dst s fs)
  unfolding mv_free
  mv_free-Storable now src dst s fs h = elim (Bool-cases (is_dir s.payload && has_prefix dst src)) [
    | inl e ↦ rw (mv_free, e) h
    | inr e ↦
        rw (mv_free, e)
          (with_parents-Keeps D (storable D) fs h now dst "ERR destination parent path conflict"
            (mv_made D now src dst s) tt (λ fs' h' same r. mv_made-Storable now src dst s fs' h'))
  ]

  mv_at-Storable :
      (now : ℤ) (fs : Fs D) (src dst : Bytes)
      → AllStorable D fs
      → Keeps D (SlotHolds D (AllStorable D)) (mv_at D now fs src dst)
  unfolding mv_at
  mv_at-Storable now fs src dst h = elim (Bool-cases (is_root src)) [
    | inl e ↦ rw (mv_at, e) h
    | inr e ↦
        rw (mv_at, e)
          (with_node-Keeps D (SlotHolds D (AllStorable D)) fs h src "ERR source not found" _
            (λ s there. elim (Option-cases (lookup D fs dst)) [
              | inl q ↦ rw q (mv_free-Storable now src dst s fs h)
              | inr (i, q) ↦ rw q h
            ]))
  ]

  pub mv-Storable :
      (now : ℤ) (slot : Slot (Fs D)) (args : List Bytes)
      → SlotHolds D (AllStorable D) slot
      → Keeps D (SlotHolds D (AllStorable D)) (mv D now slot args)
  unfolding mv
  mv-Storable now slot [] h = h
  mv-Storable now slot (a ∷ []) h = h
  mv-Storable now slot (a ∷ b ∷ []) h = open_write-Keeps D (storable D) now slot _ h (λ fs k.
      with_path-Keeps D (SlotHolds D (AllStorable D)) fs k a _ (λ src n.
        with_path-Keeps D (SlotHolds D (AllStorable D)) fs k b _
          (λ dst n'. mv_at-Storable now fs src dst k)))
  mv-Storable now slot (a ∷ b ∷ c ∷ args) h = h
