-- ===== src/Command/Keeps/Edits.antt =====
-- REPLACE, INSERT and DELETELINES keep an invariant.
use redis_fs.Base.{
  All, ℕ, zero, suc, ℤ, ◌≡◌, refl, ◌∙◌, false, Option, none, some, List, [], ◌∷◌, Bool-cases,
  Option-cases, inl, inr, length, ltb, ◌==◌,
}
use redis_fs.Base.Int.{pos, negsuc}
use redis_fs.Base.ByteStrings.{Bytes}
use redis_fs.Command.{holds, Slot, RedisApi, with_path_unchecked, with_resolved}
use redis_fs.Dict.{DictApi}
use redis_fs.Inode.{Inode, file}
use redis_fs.Fs.{Fs, lookup}
use redis_fs.Text.Replace.{Options, replace}
use redis_fs.Text.Delete.{delete_lines}
use redis_fs.Command.Write.{overwrite}
use redis_fs.Command.Edit.{
  Flags, flags, bad_flags, no_flags, parse_flags, rewrite, replace_in, replace_file,
  replace_command, insert_file, insert_new, insert_at, insert_opened, insert_command, delete_in,
  delete_opened, delete_command,
}
use redis_fs.Command.Keeps.{Invariant}
use redis_fs.Command.Keeps.Rules.{
  Names-IsPath, Resolves-IsPath, Keeps, open_write-Keeps, with_path_unchecked-Keeps,
  with_resolved-Keeps, with_file-Keeps, with_parents-Keeps,
}

module _ (D : DictApi Inode) (V : Invariant D) (api : RedisApi) (now : ℤ) where
  rewrite-Holds :
      (fs : Fs D) (p : Bytes) (i : Inode) (old bloom content : Bytes)
      → V.Held (holds fs)
      → lookup D fs p ≡ some i
      → i.payload ≡ file old bloom
      → V.Held (holds (rewrite D api now fs p i old content))
  unfolding rewrite overwrite
  rewrite-Holds fs p i old bloom content c h e = V.overwritten now fs p i old bloom content c h e

  replace_in-Keeps :
      (o : Options) (old new : Bytes) (fs : Fs D) (p : Bytes) (i : Inode) (content bloom : Bytes)
      → V.Held (holds fs)
      → lookup D fs p ≡ some i
      → i.payload ≡ file content bloom
      → Keeps D V.Held (replace_in D api now o old new fs p i content)
  unfolding replace_in
  replace_in-Keeps o old new fs p i content bloom c h e =
      elim (Bool-cases (ltb 0 (replace o old new content).1)) [
        | inl q ↦ rw q (rewrite-Holds fs p i content bloom (replace o old new content).0 c h e)
        | inr q ↦ rw q c
      ]

  replace_file-Keeps :
      (old new : Bytes) (args : List Bytes) (fs : Fs D) (p : Bytes) (i : Inode)
      (content bloom : Bytes)
      → V.Held (holds fs)
      → lookup D fs p ≡ some i
      → i.payload ≡ file content bloom
      → Keeps D V.Held (replace_file D api now old new args fs p i content)
  unfolding replace_file
  replace_file-Keeps old new args fs p i content bloom c h e = elim (Bool-cases (length old == 0)) [
    | inl q ↦ rw q c
    | inr q ↦ split q (parse_flags D api args no_flags) refl
  ]
    where
      split :
          (length old == 0) ≡ false
          → (r : Flags) → parse_flags D api args no_flags ≡ r
          → Keeps D V.Held (replace_file D api now old new args fs p i content)
      split q (flags o) x =
          rw (replace_file, q, x) (replace_in-Keeps o old new fs p i content bloom c h e)
      split q (bad_flags r) x = rw (replace_file, q, x) c

  pub replace_command-Keeps :
      (slot : Slot (Fs D)) (args : List Bytes)
      → V.Held slot
      → Keeps D V.Held (replace_command D api now slot args)
  unfolding replace_command
  replace_command-Keeps slot [] c = c
  replace_command-Keeps slot (raw ∷ []) c = c
  replace_command-Keeps slot (raw ∷ old ∷ []) c = c
  replace_command-Keeps slot (raw ∷ old ∷ new ∷ args) c = open_write-Keeps D V now slot _ c (λ fs k.
      with_path_unchecked-Keeps D V.Held fs k raw _ (λ p n.
        with_resolved-Keeps D V.Held fs k p _ (λ t r.
          with_file-Keeps D V.Held fs k t _
            (λ i content bloom e q. replace_file-Keeps old new args fs t i content bloom k e q))))

  insert_file-Keeps :
      (line_num : ℤ) (added p : Bytes) (fs : Fs D)
      → V.Held (holds fs)
      → Keeps D V.Held (insert_file D api now line_num added p fs)
  unfolding insert_file
  insert_file-Keeps line_num added p fs c =
      with_file-Keeps D V.Held fs c p _
        (λ i content bloom e q. rewrite-Holds fs p i content bloom _ c e q)

  insert_new-Holds :
      (p : Bytes) (fs : Fs D)
      → V.Held (holds fs)
      → V.IsPath p
      → V.Ready fs p
      → lookup D fs p ≡ none
      → V.Held (holds (insert_new D api now p fs))
  unfolding insert_new
  insert_new-Holds p fs c is r h = V.file_made now fs p c is r h

  insert_at-Keeps :
      (line_num : ℤ) (added : Bytes) (fs : Fs D) (p : Bytes)
      → V.Held (holds fs)
      → V.IsPath p
      → Keeps D V.Held (insert_at D api now line_num added fs p)
  unfolding insert_at
  insert_at-Keeps line_num added fs p c is = elim (Option-cases (lookup D fs p)) [
    | inl e ↦
        rw (e, insert_at)
          (with_parents-Keeps D V fs c now p _ _ is (λ fs' k q r.
            insert_file-Keeps line_num added p (insert_new D api now p fs')
              (insert_new-Holds p fs' k is r (q ∙ e))))
    | inr (i, e) ↦ rw (e, insert_at) (insert_file-Keeps line_num added p fs c)
  ]

  insert_resolved-Keeps :
      (line_num : ℤ) (added raw : Bytes) (fs : Fs D)
      → V.Clean raw
      → V.Held (holds fs)
      → Keeps D V.Held (
          with_path_unchecked D fs raw
            (λ path. with_resolved D fs path (insert_at D api now line_num added fs)))
  insert_resolved-Keeps line_num added raw fs l c =
      with_path_unchecked-Keeps D V.Held fs c raw _ (λ p n.
        with_resolved-Keeps D V.Held fs c p _ (λ t r.
          insert_at-Keeps line_num added fs t c
            (Resolves-IsPath D V fs p t (Names-IsPath D V raw p l n) r)))

  insert_opened-Keeps :
      (line_num : Option ℤ) (added raw : Bytes) (fs : Fs D)
      → V.Clean raw
      → V.Held (holds fs)
      → Keeps D V.Held (insert_opened D api now line_num added raw fs)
  unfolding insert_opened
  insert_opened-Keeps none added raw fs l c = c
  insert_opened-Keeps (some (negsuc (suc n))) added raw fs l c = c
  insert_opened-Keeps (some (negsuc zero)) added raw fs l c =
      insert_resolved-Keeps (negsuc 0) added raw fs l c
  insert_opened-Keeps (some (pos n)) added raw fs l c =
      insert_resolved-Keeps (pos n) added raw fs l c

  pub insert_command-Keeps :
      (slot : Slot (Fs D)) (args : List Bytes)
      → All V.Clean args
      → V.Held slot
      → Keeps D V.Held (insert_command D api now slot args)
  unfolding insert_command
  insert_command-Keeps slot (raw ∷ line ∷ added ∷ []) l c =
      open_write-Keeps D V now slot _ c (λ fs k. insert_opened-Keeps _ added raw fs l.0 k)
  insert_command-Keeps slot _ l c = c

  delete_in-Keeps :
      (start stop : ℕ) (fs : Fs D) (p : Bytes) (i : Inode) (content bloom : Bytes)
      → V.Held (holds fs)
      → lookup D fs p ≡ some i
      → i.payload ≡ file content bloom
      → Keeps D V.Held (delete_in D api now start stop fs p i content)
  unfolding delete_in
  delete_in-Keeps start stop fs p i content bloom c h e = elim (Bool-cases (length content == 0)) [
    | inl q ↦ rw q c
    | inr q ↦ elim (Option-cases (delete_lines start stop content)) [
      | inl x ↦ rw (delete_in, q, x) c
      | inr ((result, n), x) ↦
          rw (delete_in, q, x) (rewrite-Holds fs p i content bloom result c h e)
    ]
  ]

  delete_opened-Keeps :
      (start stop : Option ℤ) (raw : Bytes) (fs : Fs D)
      → V.Held (holds fs)
      → Keeps D V.Held (delete_opened D api now start stop raw fs)
  unfolding delete_opened
  delete_opened-Keeps (some (pos (suc a))) (some (pos b)) raw fs c =
      elim (Bool-cases (ltb b (suc a))) [
        | inl e ↦ rw e c
        | inr e ↦ rw e (
            with_path_unchecked-Keeps D V.Held fs c raw _ (λ p n.
              with_resolved-Keeps D V.Held fs c p _ (λ t r.
                with_file-Keeps D V.Held fs c t _
                  (λ i content bloom h q. delete_in-Keeps (suc a) b fs t i content bloom c h q))))
      ]
  delete_opened-Keeps (some (pos (suc a))) (some (negsuc n)) raw fs c = c
  delete_opened-Keeps none stop raw fs c = c
  delete_opened-Keeps (some start) none raw fs c = c
  delete_opened-Keeps (some (pos zero)) (some stop) raw fs c = c
  delete_opened-Keeps (some (negsuc n)) (some stop) raw fs c = c

  pub delete_command-Keeps :
      (slot : Slot (Fs D)) (args : List Bytes)
      → V.Held slot
      → Keeps D V.Held (delete_command D api now slot args)
  unfolding delete_command
  delete_command-Keeps slot (raw ∷ start ∷ stop ∷ []) c =
      open_write-Keeps D V now slot _ c (λ fs k. delete_opened-Keeps _ _ raw fs k)
  delete_command-Keeps slot _ c = c
