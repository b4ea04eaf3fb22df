-- ===== src/Command/Keeps/Reads.antt =====
-- INFO, CAT, LINES, HEAD, TAIL and WC keep what setting an access time keeps.
use redis_fs.Base.{ℕ, ℤ, ◌≡◌, refl, Option, none, some, List, [], ◌∷◌, c_str}
use redis_fs.Base.Int.{pos, negsuc}
use redis_fs.Base.ByteStrings.{Bytes}
use redis_fs.Command.{holds, Reply, bulk, Slot, RedisApi}
use redis_fs.Dict.{DictApi}
use redis_fs.Inode.{Inode}
use redis_fs.Fs.{Fs, Resolved, resolved, symlink_loop, path_depth, lookup, resolve_path}
use redis_fs.Command.Read.{
  info, read_at, cat_file, cat_at, cat, read_file, read_unchecked, lines, count_then, head_command,
  tail_command, wc_command,
}
use redis_fs.Command.Keeps.{Accesses}
use redis_fs.Command.Keeps.Rules.{
  Keeps, open_read-Keeps, with_path-Keeps, with_path_unchecked-Keeps, with_resolved-Keeps,
  with_file-Keeps,
}

module _ (D : DictApi Inode) (H : Slot (Fs D) → Type 0) (accessed : Accesses D H) (now : ℤ) where
  read_at-Holds :
      (fs : Fs D) (p : Bytes) (i : Inode) (r : Reply)
      → H (holds fs)
      → lookup D fs p ≡ some i
      → Keeps D H (read_at D now fs p i r)
  unfolding read_at
  read_at-Holds fs p i r c e = accessed now fs p i c e

  pub info-Keeps : (slot : Slot (Fs D)) (args : List Bytes) → H slot → Keeps D H (info D slot args)
  unfolding info
  info-Keeps slot [] c = open_read-Keeps D H slot _ c (λ fs k. k)
  info-Keeps slot (a ∷ args) c = c

  cat_file-Keeps : (fs : Fs D) (p : Bytes) → H (holds fs) → Keeps D H (cat_file D now fs p)
  unfolding cat_file
  cat_file-Keeps fs p c =
      with_file-Keeps D H fs c p _ (λ i content bloom e _. read_at-Holds fs p i (bulk content) c e)

  cat_at-Keeps : (fs : Fs D) (p : Bytes) → H (holds fs) → Keeps D H (cat_at D now fs p)
  unfolding cat_at
  cat_at-Keeps fs p c = split (resolve_path D fs p) refl
    where
      split : (r : Resolved) → resolve_path D fs p ≡ r → Keeps D H (cat_at D now fs p)
      split (resolved t) e = rw (e, cat_at) (cat_file-Keeps fs (c_str t) c)
      split symlink_loop e = rw (e, cat_at) c
      split path_depth e = rw (e, cat_at) c

  pub cat-Keeps :
      (slot : Slot (Fs D)) (args : List Bytes) → H slot → Keeps D H (cat D now slot args)
  unfolding cat
  cat-Keeps slot [] c = c
  cat-Keeps slot (raw ∷ []) c =
      open_read-Keeps D H slot _ c
        (λ fs k. with_path-Keeps D H fs k raw _ (λ p n. cat_at-Keeps fs p k))
  cat-Keeps slot (raw ∷ a ∷ args) c = c

  read_unchecked-Keeps :
      (f : Bytes → Reply) (fs : Fs D) (raw : Bytes)
      → H (holds fs)
      → Keeps D H (read_unchecked D now f fs raw)
  unfolding read_unchecked read_file
  read_unchecked-Keeps f fs raw c = with_path_unchecked-Keeps D H fs c raw _ (λ p n.
      with_resolved-Keeps D H fs c p _ (λ t r.
        with_file-Keeps D H fs c t _ (λ i content bloom e _. read_at-Holds fs t i (f content) c e)))

  pub wc_command-Keeps :
      (slot : Slot (Fs D)) (args : List Bytes) → H slot → Keeps D H (wc_command D now slot args)
  unfolding wc_command
  wc_command-Keeps slot [] c = c
  wc_command-Keeps slot (raw ∷ []) c =
      open_read-Keeps D H slot _ c (λ fs k. read_unchecked-Keeps _ fs raw k)
  wc_command-Keeps slot (raw ∷ a ∷ args) c = c

  module _ (api : RedisApi) where
    pub lines-Keeps :
        (slot : Slot (Fs D)) (args : List Bytes) → H slot → Keeps D H (lines D api now slot args)
    unfolding lines
    lines-Keeps slot [] c = c
    lines-Keeps slot (raw ∷ []) c =
        open_read-Keeps D H slot _ c (λ fs k. read_unchecked-Keeps _ fs raw k)
    lines-Keeps slot (raw ∷ a ∷ []) c =
        open_read-Keeps D H slot _ c (λ fs k. read_unchecked-Keeps _ fs raw k)
    lines-Keeps slot (raw ∷ a ∷ b ∷ []) c =
        open_read-Keeps D H slot _ c (λ fs k. read_unchecked-Keeps _ fs raw k)
    lines-Keeps slot (raw ∷ a ∷ b ∷ x ∷ args) c = c

    count_then-Keeps :
        (f : ℕ → Bytes → Bytes) (n : Option ℤ) (raw : Bytes) (fs : Fs D)
        → H (holds fs)
        → Keeps D H (count_then D api now f n raw fs)
    unfolding count_then
    count_then-Keeps f none raw fs c = c
    count_then-Keeps f (some (negsuc n)) raw fs c = c
    count_then-Keeps f (some (pos n)) raw fs c = read_unchecked-Keeps _ fs raw c

    pub head_command-Keeps :
        (slot : Slot (Fs D)) (args : List Bytes)
        → H slot
        → Keeps D H (head_command D api now slot args)
    unfolding head_command
    head_command-Keeps slot [] c = c
    head_command-Keeps slot (raw ∷ []) c =
        open_read-Keeps D H slot _ c (λ fs k. count_then-Keeps _ _ raw fs k)
    head_command-Keeps slot (raw ∷ n ∷ []) c =
        open_read-Keeps D H slot _ c (λ fs k. count_then-Keeps _ _ raw fs k)
    head_command-Keeps slot (raw ∷ n ∷ a ∷ args) c = c

    pub tail_command-Keeps :
        (slot : Slot (Fs D)) (args : List Bytes)
        → H slot
        → Keeps D H (tail_command D api now slot args)
    unfolding tail_command
    tail_command-Keeps slot [] c = c
    tail_command-Keeps slot (raw ∷ []) c =
        open_read-Keeps D H slot _ c (λ fs k. count_then-Keeps _ _ raw fs k)
    tail_command-Keeps slot (raw ∷ n ∷ []) c =
        open_read-Keeps D H slot _ c (λ fs k. count_then-Keeps _ _ raw fs k)
    tail_command-Keeps slot (raw ∷ n ∷ a ∷ args) c = c
