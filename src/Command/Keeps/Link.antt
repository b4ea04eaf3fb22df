-- ===== src/Command/Keeps/Link.antt =====
-- LN and TRUNCATE keep an invariant.
use redis_fs.Base.{
  All, ℤ, ◌≡◌, refl, ◌∙◌, Option, none, some, List, [], ◌∷◌, Bool-cases, Option-cases, inl, inr,
}
use redis_fs.Base.Int.{pos, negsuc}
use redis_fs.Base.ByteStrings.{Bytes}
use redis_fs.Command.{holds, Slot, RedisApi}
use redis_fs.Dict.{DictApi}
use redis_fs.Inode.{Inode, Payload, file, dir, symlink}
use redis_fs.Path.{is_root}
use redis_fs.Fs.{Fs, lookup}
use redis_fs.Command.Link.{
  new_link, ln_made, ln_at, ln, truncate_to, truncate_node, truncate_at, truncate,
}
use redis_fs.Command.Keeps.{Invariant}
use redis_fs.Command.Keeps.Rules.{
  Names-IsPath, Keeps, open_write-Keeps, with_path-Keeps, with_parents-Keeps, with_target-Keeps,
  with_node-Keeps,
}

module _ (D : DictApi Inode) (V : Invariant D) where
  ln_at-Keeps :
      (now : ℤ) (target : Bytes) (fs : Fs D) (p : Bytes)
      → V.Held (holds fs)
      → V.IsPath p
      → Keeps D V.Held (ln_at D now target fs p)
  unfolding ln_at ln_made new_link
  ln_at-Keeps now target fs p c is = elim (Bool-cases (is_root p)) [
    | inl e ↦ rw e c
    | inr e ↦ elim (Option-cases (lookup D fs p)) [
      | inr (i, q) ↦ rw (ln_at, e, q) c
      | inl q ↦
          rw (ln_at, e, q)
            (with_parents-Keeps D V fs c now p _ _ is
              (λ fs' k same r. V.link_made now target fs' p k is r (same ∙ q)))
    ]
  ]

  pub ln-Keeps :
      (now : ℤ) (slot : Slot (Fs D)) (args : List Bytes)
      → All V.Clean args
      → V.Held slot
      → Keeps D V.Held (ln D now slot args)
  unfolding ln
  ln-Keeps now slot [] l c = c
  ln-Keeps now slot (a ∷ []) l c = c
  ln-Keeps now slot (target ∷ raw ∷ []) l c = open_write-Keeps D V now slot _ c (λ fs k.
      with_path-Keeps D V.Held fs k raw _
        (λ p n. ln_at-Keeps now target fs p k (Names-IsPath D V raw p l.1.0 n)))
  ln-Keeps now slot (a ∷ b ∷ d ∷ args) l c = c

  truncate_node-Keeps :
      (now : ℤ) (n : Option ℤ) (fs : Fs D) (p : Bytes) (i : Inode)
      → V.Held (holds fs)
      → lookup D fs p ≡ some i
      → Keeps D V.Held (truncate_node D now n fs p i)
  unfolding truncate_node truncate_to
  truncate_node-Keeps now n fs p i c e = split i.payload refl
    where
      resize_to :
          (n : Option ℤ) (old bloom : Bytes)
          → i.payload ≡ file old bloom
          → Keeps D V.Held (truncate_to D now n fs p i old bloom)
      resize_to none old bloom k = c
      resize_to (some (negsuc m)) old bloom k = c
      resize_to (some (pos m)) old bloom k = V.resized now m fs p i old bloom c e k

      split : (x : Payload) → i.payload ≡ x → Keeps D V.Held (truncate_node D now n fs p i)
      split (file old bloom) k = rw (truncate_node, k) (resize_to n old bloom k)
      split (dir cs) k = rw (truncate_node, k) c
      split (symlink t) k = rw (truncate_node, k) c

  pub truncate-Keeps :
      (now : ℤ) (api : RedisApi) (slot : Slot (Fs D)) (args : List Bytes)
      → V.Held slot
      → Keeps D V.Held (truncate D api now slot args)
  unfolding truncate truncate_at
  truncate-Keeps now api slot [] c = c
  truncate-Keeps now api slot (a ∷ []) c = c
  truncate-Keeps now api slot (raw ∷ n ∷ []) c = open_write-Keeps D V now slot _ c (λ fs k.
      with_path-Keeps D V.Held fs k raw _ (λ p m. with_target-Keeps D V.Held fs k p _ (λ t r.
        with_node-Keeps D V.Held fs k t _ _
          (λ i e. truncate_node-Keeps now (api.string_to_long_long n) fs t i k e))))
  truncate-Keeps now api slot (a ∷ b ∷ d ∷ args) c = c
