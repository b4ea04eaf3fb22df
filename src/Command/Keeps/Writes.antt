-- ===== src/Command/Keeps/Writes.antt =====
-- ECHO, APPEND, TOUCH and MKDIR keep an invariant.
use redis_fs.Base.{
  All, ℤ, ◌≡◌, refl, ◌∙◌, Bool, true, false, none, some, List, [], ◌∷◌, ◌&&◌, Bool-cases,
  Option-cases, inl, inr, if◌then◌else◌,
}
use redis_fs.Base.ByteStrings.{Bytes}
use redis_fs.Command.{holds, Slot, is_option, open_write, with_path}
use redis_fs.Dict.{DictApi}
use redis_fs.Inode.{Inode, InodeType, file, file_type, dir_type, is_dir}
use redis_fs.Path.{is_root}
use redis_fs.Fs.{Fs, lookup}
use redis_fs.Command.Keeps.{Invariant, same_owner}
use redis_fs.Command.Keeps.Rules.{
  Names-IsPath, Keeps, open_write-Keeps, with_path-Keeps, with_parents-Keeps, new_or_file-Keeps,
}
use redis_fs.Command.Write.{
  append_to, overwrite, echo_file, echo_at, echo_opened, echo, append_file, append_at, append,
  create_empty, touch_file, touch_at, touch, parent_is_dir, mkdir_made, mkdir_new, mkdir_at, mkdir,
}

module _ (D : DictApi Inode) (V : Invariant D) (now : ℤ) where
  echo_file-Keeps :
      (append : Bool) (content p : Bytes) (fs : Fs D)
      → V.Held (holds fs)
      → V.IsPath p
      → V.Ready fs p
      → Keeps D V.Held (echo_file D now append content p fs)
  unfolding echo_file
  echo_file-Keeps append content p fs c is r =
      new_or_file-Keeps D V.Held fs c p _ _ _ (λ e. V.created now fs p content c is r e)
        (λ i old bloom e q. split append i old bloom e q)
    where
      split :
          (b : Bool) (i : Inode) (old bloom : Bytes)
          → lookup D fs p ≡ some i
          → i.payload ≡ file old bloom
          → V.Held (
              holds
                (if b then append_to D now fs p i content else overwrite D now fs p i old content))
      split true i old bloom e q = V.appended now fs p i old bloom content c e q
      split false i old bloom e q = V.overwritten now fs p i old bloom content c e q

  echo_at-Keeps :
      (append : Bool) (content : Bytes) (fs : Fs D) (p : Bytes)
      → V.Held (holds fs)
      → V.IsPath p
      → Keeps D V.Held (echo_at D now append content fs p)
  unfolding echo_at
  echo_at-Keeps append content fs p c is = elim (Bool-cases (is_root p)) [
    | inl e ↦ rw e c
    | inr e ↦ rw e (
        with_parents-Keeps D V fs c now p _ _ is
          (λ fs' k _ r. echo_file-Keeps append content p fs' k is r))
  ]

  echo_opened-Keeps :
      (append : Bool) (raw content : Bytes) (slot : Slot (Fs D))
      → V.Clean raw
      → V.Held slot
      → Keeps D V.Held (open_write D now slot (echo_opened D now append raw content))
  unfolding echo_opened
  echo_opened-Keeps append raw content slot l c = open_write-Keeps D V now slot _ c (λ fs k.
      with_path-Keeps D V.Held fs k raw _
        (λ p n. echo_at-Keeps append content fs p k (Names-IsPath D V raw p l n)))

  -- ECHO keeps an invariant, with every argument list.
  pub echo-Keeps :
      (slot : Slot (Fs D)) (args : List Bytes)
      → All V.Clean args
      → V.Held slot
      → Keeps D V.Held (echo D now slot args)
  unfolding echo
  echo-Keeps slot [] l c = c
  echo-Keeps slot (raw ∷ []) l c = c
  echo-Keeps slot (raw ∷ content ∷ []) l c = echo_opened-Keeps false raw content slot l.0 c
  echo-Keeps slot (raw ∷ content ∷ opt ∷ []) l c = elim (Bool-cases (is_option opt "append")) [
    | inl e ↦ rw e (echo_opened-Keeps true raw content slot l.0 c)
    | inr e ↦ rw e c
  ]
  echo-Keeps slot (raw ∷ content ∷ opt ∷ a ∷ args) l c = c

  append_file-Keeps :
      (content p : Bytes) (fs : Fs D)
      → V.Held (holds fs)
      → V.IsPath p
      → V.Ready fs p
      → Keeps D V.Held (append_file D now content p fs)
  unfolding append_file
  append_file-Keeps content p fs c is r =
      new_or_file-Keeps D V.Held fs c p _ _ _ (λ e. V.created now fs p content c is r e)
        (λ i old bloom e q. V.appended now fs p i old bloom content c e q)

  append_at-Keeps :
      (content : Bytes) (fs : Fs D) (p : Bytes)
      → V.Held (holds fs)
      → V.IsPath p
      → Keeps D V.Held (append_at D now content fs p)
  unfolding append_at
  append_at-Keeps content fs p c is = elim (Bool-cases (is_root p)) [
    | inl e ↦ rw e c
    | inr e ↦ rw e (
        with_parents-Keeps D V fs c now p _ _ is
          (λ fs' k _ r. append_file-Keeps content p fs' k is r))
  ]

  pub append-Keeps :
      (slot : Slot (Fs D)) (args : List Bytes)
      → All V.Clean args
      → V.Held slot
      → Keeps D V.Held (append D now slot args)
  unfolding append
  append-Keeps slot [] l c = c
  append-Keeps slot (raw ∷ []) l c = c
  append-Keeps slot (raw ∷ content ∷ []) l c = open_write-Keeps D V now slot _ c (λ fs k.
      with_path-Keeps D V.Held fs k raw _
        (λ p n. append_at-Keeps content fs p k (Names-IsPath D V raw p l.0 n)))
  append-Keeps slot (raw ∷ content ∷ a ∷ args) l c = c

  create_empty-Holds :
      (t : InodeType) (p : Bytes) (fs : Fs D)
      → V.Held (holds fs)
      → V.IsPath p
      → V.Ready fs p
      → lookup D fs p ≡ none
      → V.Held (holds (create_empty D now t p fs))
  unfolding create_empty
  create_empty-Holds t p fs c is r h = V.made now t fs p c is r h

  touch_file-Holds :
      (p : Bytes) (fs : Fs D)
      → V.Held (holds fs)
      → V.IsPath p
      → V.Ready fs p
      → V.Held (holds (touch_file D now p fs))
  unfolding touch_file
  touch_file-Holds p fs c is r = elim (Option-cases (lookup D fs p)) [
    | inl e ↦ rw (e, touch_file) (create_empty-Holds file_type p fs c is r e)
    | inr (i, e) ↦
        rw (e, touch_file)
          (V.written fs p (record i { mtime = now; atime = now }) i c e refl (same_owner i))
  ]

  touch_at-Keeps :
      (fs : Fs D) (p : Bytes)
      → V.Held (holds fs)
      → V.IsPath p
      → Keeps D V.Held (touch_at D now fs p)
  unfolding touch_at
  touch_at-Keeps fs p c is =
      with_parents-Keeps D V fs c now p _ _ is (λ fs' k _ r. touch_file-Holds p fs' k is r)

  pub touch-Keeps :
      (slot : Slot (Fs D)) (args : List Bytes)
      → All V.Clean args
      → V.Held slot
      → Keeps D V.Held (touch D now slot args)
  unfolding touch
  touch-Keeps slot [] l c = c
  touch-Keeps slot (raw ∷ []) l c = open_write-Keeps D V now slot _ c (λ fs k.
      with_path-Keeps D V.Held fs k raw _
        (λ p n. touch_at-Keeps fs p k (Names-IsPath D V raw p l.0 n)))
  touch-Keeps slot (raw ∷ a ∷ args) l c = c

  mkdir_new-Keeps :
      (parents : Bool) (fs : Fs D) (p : Bytes)
      → V.Held (holds fs)
      → V.IsPath p
      → lookup D fs p ≡ none
      → Keeps D V.Held (mkdir_new D now parents fs p)
  unfolding mkdir_new mkdir_made
  mkdir_new-Keeps true fs p c is h =
      with_parents-Keeps D V fs c now p _ _ is
        (λ fs' k e r. create_empty-Holds dir_type p fs' k is r (e ∙ h))
  mkdir_new-Keeps false fs p c is h = elim (Bool-cases (parent_is_dir D fs p)) [
    | inl e ↦ rw e (create_empty-Holds dir_type p fs c is (V.dir_ready fs p c e) h)
    | inr e ↦ rw e c
  ]

  mkdir_at-Keeps :
      (parents : Bool) (fs : Fs D) (p : Bytes)
      → V.Held (holds fs)
      → V.IsPath p
      → Keeps D V.Held (mkdir_at D now parents fs p)
  unfolding mkdir_at
  mkdir_at-Keeps parents fs p c is = elim (Option-cases (lookup D fs p)) [
    | inl e ↦ rw (e, mkdir_at) (mkdir_new-Keeps parents fs p c is e)
    | inr (i, e) ↦ elim (Bool-cases (is_dir i.payload && parents)) [
      | inl q ↦ rw (e, mkdir_at, q) c
      | inr q ↦ rw (e, mkdir_at, q) c
    ]
  ]

  mkdir_opened-Keeps :
      (parents : Bool) (raw : Bytes) (slot : Slot (Fs D))
      → V.Clean raw
      → V.Held slot
      → Keeps D V.Held
          (open_write D now slot (λ fs. with_path D fs raw (mkdir_at D now parents fs)))
  mkdir_opened-Keeps parents raw slot l c = open_write-Keeps D V now slot _ c (λ fs k.
      with_path-Keeps D V.Held fs k raw _
        (λ p n. mkdir_at-Keeps parents fs p k (Names-IsPath D V raw p l n)))

  pub mkdir-Keeps :
      (slot : Slot (Fs D)) (args : List Bytes)
      → All V.Clean args
      → V.Held slot
      → Keeps D V.Held (mkdir D now slot args)
  unfolding mkdir
  mkdir-Keeps slot [] l c = c
  mkdir-Keeps slot (raw ∷ []) l c = mkdir_opened-Keeps false raw slot l.0 c
  mkdir-Keeps slot (raw ∷ opt ∷ []) l c = elim (Bool-cases (is_option opt "parents")) [
    | inl e ↦ rw e (mkdir_opened-Keeps true raw slot l.0 c)
    | inr e ↦ rw e c
  ]
  mkdir-Keeps slot (raw ∷ opt ∷ a ∷ args) l c = c
