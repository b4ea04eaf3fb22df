-- ===== src/Command/Keeps/Meta.antt =====
-- CHMOD, CHOWN and UTIMENS keep an invariant.
use redis_fs.Base.{
  ℤ, ◌≡◌, refl, Option, none, some, List, [], ◌∷◌, Bool-cases, Option-cases, inl, inr, ltb, ltb→lt,
  ◌^◌, ◌∙◌, bytes_eq_refl,
}
use redis_fs.Base.Int.{pos, negsuc}
use redis_fs.Base.ByteStrings.{Bytes}
use redis_fs.Command.{holds, Slot, RedisApi, Outcome, open_write, with_path, with_node}
use redis_fs.Dict.{DictApi}
use redis_fs.Inode.{Inode}
use redis_fs.Fs.{Fs, lookup, write_inode}
use redis_fs.Command.Keeps.{Invariant, same_owner}
use redis_fs.Command.Keeps.Rules.{Keeps, with_path-Keeps, open_write-Keeps, with_node-Keeps}
use redis_fs.Mode.{parse_mode}
use redis_fs.Mode.Round.{parse_mode-lt}
use redis_fs.Fs.Lookup.{lookup-write_inode}
use redis_fs.Command.Meta.{
  chmod, chmod_at, chmod_node, chown, chown_at, chown_node, chown_group, utimens, utimens_at,
  utimens_node, unless_omitted,
}

module _ (D : DictApi Inode) (V : Invariant D) where
  module _ (fs : Fs D) (p : Bytes) (i : Inode) (c : V.Held (holds fs))
      (e : lookup D fs p ≡ some i) where
    chmod_node-Keeps : (modestr : Bytes) → Keeps D V.Held (chmod_node D modestr fs p i)
    unfolding chmod_node
    chmod_node-Keeps modestr = elim (Option-cases (parse_mode modestr)) [
      | inl q ↦ rw (chmod_node, q) c
      | inr (m, q) ↦
          rw (chmod_node, q)
            (V.written fs p (record i { mode = m }) i c e refl
              (inr (parse_mode-lt modestr m q), inl refl, inl refl))
    ]

    module _ (api : RedisApi) where
      open api use {string_to_long_long}

      chown_group-Keeps : (gid : Option Bytes) → Keeps D V.Held (chown_group D api gid fs p i)
      unfolding chown_group
      chown_group-Keeps none = c
      chown_group-Keeps (some gid) = split (string_to_long_long gid) refl
        where
          split :
              (n : Option ℤ)
              → string_to_long_long gid ≡ n
              → Keeps D V.Held (chown_group D api (some gid) fs p i)
          split none q = rw (chown_group, q) c
          split (some (negsuc n)) q = rw (chown_group, q) c
          split (some (pos g)) q = elim (Bool-cases (ltb g (2 ^ 32))) [
            | inl r ↦
                rw (chown_group, q, r)
                  (V.written fs p (record i { gid = g }) i c e refl
                    (inl refl, inl refl, inr (ltb→lt g (2 ^ 32) r)))
            | inr r ↦ rw (chown_group, q, r) c
          ]

      utimens_node-Keeps :
          (atime_ms mtime_ms : Bytes) → Keeps D V.Held (utimens_node D api atime_ms mtime_ms fs p i)
      unfolding utimens_node
      utimens_node-Keeps atime_ms mtime_ms = elim (Option-cases (string_to_long_long atime_ms)) [
        | inl q ↦ rw (utimens_node, q) c
        | inr (a, q) ↦ elim (Option-cases (string_to_long_long mtime_ms)) [
          | inl r ↦ rw (utimens_node, q, r) c
          | inr (m, r) ↦
              rw (utimens_node, q, r)
                (V.written fs p
                  (record i { atime = unless_omitted a i.atime; mtime = unless_omitted m i.mtime })
                  i c e refl (same_owner i))
        ]
      ]

  -- The commands that open their key for writing and change the inode at the path.
  on_node-Keeps :
      (now : ℤ) (slot : Slot (Fs D)) (raw : Bytes) (k : Fs D → Bytes → Inode → Outcome (Fs D))
      → V.Held slot
      → ((fs : Fs D) (p : Bytes) (i : Inode)
          → V.Held (holds fs)
          → lookup D fs p ≡ some i
          → Keeps D V.Held (k fs p i))
      → Keeps D V.Held (
          open_write D now slot (λ fs.
            with_path D fs raw (λ p. with_node D fs p "ERR no such file or directory" (k fs p))))
  on_node-Keeps now slot raw k c h = open_write-Keeps D V now slot _ c (λ fs d.
      with_path-Keeps D V.Held fs d raw _
        (λ p n. with_node-Keeps D V.Held fs d p _ _ (λ i e. h fs p i d e)))

  pub chmod-Keeps :
      (now : ℤ) (slot : Slot (Fs D)) (args : List Bytes)
      → V.Held slot
      → Keeps D V.Held (chmod D now slot args)
  unfolding chmod chmod_at
  chmod-Keeps now slot [] c = c
  chmod-Keeps now slot (a ∷ []) c = c
  chmod-Keeps now slot (raw ∷ m ∷ []) c =
      on_node-Keeps now slot raw _ c (λ fs p i d e. chmod_node-Keeps fs p i d e m)
  chmod-Keeps now slot (a ∷ b ∷ d ∷ args) c = c

  module _ (api : RedisApi) where
    open api use {string_to_long_long}

    chown_node-Keeps :
        (uid : Bytes) (gid : Option Bytes) (fs : Fs D) (p : Bytes) (i : Inode)
        → V.Held (holds fs)
        → lookup D fs p ≡ some i
        → Keeps D V.Held (chown_node D api uid gid fs p i)
    unfolding chown_node
    chown_node-Keeps uid gid fs p i c e = split (string_to_long_long uid) refl
      where
        split :
            (n : Option ℤ)
            → string_to_long_long uid ≡ n
            → Keeps D V.Held (chown_node D api uid gid fs p i)
        split none q = rw (chown_node, q) c
        split (some (negsuc n)) q = rw (chown_node, q) c
        split (some (pos u)) q = elim (Bool-cases (ltb u (2 ^ 32))) [
          | inl r ↦
              let owned : Inode = record i { uid = u } in
              rw (chown_node, q, r)
                (chown_group-Keeps (write_inode D fs p owned) p owned
                  (V.written fs p owned i c e refl (inl refl, inr (ltb→lt u (2 ^ 32) r), inl refl))
                  (lookup-write_inode D fs p p owned ∙ rw (bytes_eq_refl p)) api gid)
          | inr r ↦ rw (chown_node, q, r) c
        ]

    pub chown-Keeps :
        (now : ℤ) (slot : Slot (Fs D)) (args : List Bytes)
        → V.Held slot
        → Keeps D V.Held (chown D api now slot args)
    unfolding chown chown_at
    chown-Keeps now slot [] c = c
    chown-Keeps now slot (a ∷ []) c = c
    chown-Keeps now slot (raw ∷ u ∷ []) c =
        on_node-Keeps now slot raw _ c (λ fs p i d e. chown_node-Keeps u none fs p i d e)
    chown-Keeps now slot (raw ∷ u ∷ g ∷ []) c =
        on_node-Keeps now slot raw _ c (λ fs p i d e. chown_node-Keeps u (some g) fs p i d e)
    chown-Keeps now slot (a ∷ b ∷ d ∷ f ∷ args) c = c

    pub utimens-Keeps :
        (now : ℤ) (slot : Slot (Fs D)) (args : List Bytes)
        → V.Held slot
        → Keeps D V.Held (utimens D api now slot args)
    unfolding utimens utimens_at
    utimens-Keeps now slot [] c = c
    utimens-Keeps now slot (a ∷ []) c = c
    utimens-Keeps now slot (a ∷ b ∷ []) c = c
    utimens-Keeps now slot (raw ∷ at ∷ mt ∷ []) c =
        on_node-Keeps now slot raw _ c (λ fs p i d e. utimens_node-Keeps fs p i d e api at mt)
    utimens-Keeps now slot (a ∷ b ∷ d ∷ f ∷ args) c = c
