-- ===== src/Command/Link/Reads.antt =====
-- LN and READLINK: the target of a new link is read back.
use redis_fs.Base.{
  ℤ, ◌≡◌, refl, sym, ap, ◌∙◌, none, some, [], ◌∷◌, Bool-cases, Option-cases, inl, inr, c_str,
  c_str_of_NoNul, c_str-NoNul, bytes_eq_refl,
}
use redis_fs.Base.ByteStrings.{Bytes}
use redis_fs.Dict.{DictApi}
use redis_fs.Inode.{Inode, symlink}
use redis_fs.Path.{normalize, is_root}
use redis_fs.Fs.{Fs, lookup, insert, ensure_parents}
use redis_fs.Fs.Parents.{lookup-ensure_parents}
use redis_fs.Fs.Leaves.{leaf, not_dir-some, leaf-link_to_parent_at, leaf-insert}
use redis_fs.Command.{
  simple, bulk, Slot, empty_key, other_type, holds, Outcome, open_write, open_read, with_path,
  fresh,
}
use redis_fs.Command.Contents.{ok, with_path-ok, with_parents-ok}
use redis_fs.Command.Link.{new_link, ln_made, ln_at, ln}
use redis_fs.Command.Meta.{readlink_at, readlink}

module _ (D : DictApi Inode) where
  -- The filesystem that an outcome leaves has a link with this target at `path`.
  abbrev Links : Outcome (Fs D) → Bytes → Bytes → Type 0
  Links o path target =
      (fs : Fs D) × (o.slot ≡ holds fs)
      × (i : Inode) × (lookup D fs path ≡ some i)
      × (i.payload ≡ symlink (c_str target))

  ln_made-Links :
      (now : ℤ) (target path : Bytes) (fs : Fs D)
      → lookup D fs path ≡ none
      → Links (ln_made D now target path fs) path target
  unfolding ln_made new_link leaf
  ln_made-Links now target path fs gone =
      let i = new_link D now target in
      let after = insert D fs path i in
      let here =
        leaf-link_to_parent_at D now after path path
        ∙ leaf-insert D fs path path i gone refl
        ∙ rw (bytes_eq_refl path) in
      (_, refl, i, (not_dir-some _ i here).0, refl)

  ln_at-Links :
      (now : ℤ) (target : Bytes) (fs : Fs D) (path : Bytes)
      → (ln_at D now target fs path).reply ≡ ok
      → Links (ln_at D now target fs path) path target
  unfolding ln_at
  ln_at-Links now target fs path h = elim (Bool-cases (is_root path)) [
    | inl e ↦ cc (rw (ln_at, e) at h)
    | inr e ↦ elim (Option-cases (lookup D fs path)) [
      | inl gone ↦
          let mid = (ensure_parents D now fs path).0 in
          let past =
            with_parents-ok D now fs path "ERR parent path conflict" (ln_made D now target path)
              (rw (ln_at, e, gone) at h) in
          rw (ln_at, e, gone, past)
            (ln_made-Links now target path mid (lookup-ensure_parents D now fs path ∙ gone))
      | inr (i, there) ↦ cc (rw (ln_at, e, there) at h)
    ]
  ]

  ln_raw-Links :
      (now : ℤ) (target raw : Bytes) (fs : Fs D)
      → (with_path D fs raw (ln_at D now target fs)).reply ≡ ok
      → (p : Bytes) × (normalize raw ≡ some p)
        × Links (with_path D fs raw (ln_at D now target fs)) (c_str p) target
  ln_raw-Links now target raw fs h =
      let (p, e, past) = with_path-ok D fs raw (ln_at D now target fs) h in
      (p, e, rw past (ln_at-Links now target fs (c_str p) (ap (λ o. o.reply) (sym past) ∙ h)))

  ln-Links :
      (now : ℤ) (slot : Slot (Fs D)) (target raw : Bytes)
      → (ln D now slot (target ∷ raw ∷ [])).reply ≡ ok
      → (p : Bytes) × (normalize raw ≡ some p)
        × Links (ln D now slot (target ∷ raw ∷ [])) (c_str p) target
  unfolding ln open_write
  ln-Links now empty_key target raw h = ln_raw-Links now target raw (fresh D now) h
  ln-Links now other_type target raw h = cc h
  ln-Links now (holds fs) target raw h = ln_raw-Links now target raw fs h

  -- If LN replies OK, READLINK on the same path replies the target that LN was given, up to its
  -- first NUL.
  pub readlink-ln :
      (now : ℤ) (slot : Slot (Fs D)) (target raw : Bytes)
      → (ln D now slot (target ∷ raw ∷ [])).reply ≡ simple "OK"
      → (readlink D (ln D now slot (target ∷ raw ∷ [])).slot (raw ∷ [])).reply ≡ bulk (c_str target)
  unfolding readlink open_read with_path readlink_at
  readlink-ln now slot target raw h =
      let (p, e, left) = ln-Links now slot target raw h in
      let (fs, here, i, there, is) = left in
      let cut : c_str (c_str target) ≡ c_str target =
        c_str_of_NoNul (c_str target) (c_str-NoNul target) in
      rw here (rw (with_path, e, readlink_at, there, is, cut))
