-- ===== src/Command/Contents.antt =====
-- ECHO and CAT: what is written is read back.
use redis_fs.Base.{
  ℤ, ◌≡◌, refl, sym, ap, ◌∙◌, false, none, some, [], ◌∷◌, arith, Bool-cases, Option-cases, inl, inr,
  c_str, c_str-NoNul, c_str_of_NoNul, bytes_eq, bytes_eq_refl, bytes_eq_of_length, String,
}
use redis_fs.Base.ByteStrings.{Bytes}
use redis_fs.Bloom.{bloom_build}
use redis_fs.Dict.{DictApi}
use redis_fs.Inode.{
  Inode, Payload, file, dir, symlink, file_set_data, inode_create, is_symlink, dir_add_child,
}
use redis_fs.Path.{slash, normalize, is_root, parent, base_name}
use redis_fs.Path.Normal.{normalize-IsNormal, normal-slash}
use redis_fs.Path.Parent.{length-parent_cases}
use redis_fs.Fs.{Fs, lookup, link_to_parent_at, ensure_parents, resolved, resolve_path}
use redis_fs.Fs.Lookup.{lookup-insert, lookup-write_inode, lookup-update_parent_ne}
use redis_fs.Fs.Resolve.{resolve_path_here}
use redis_fs.Command.{
  Reply, simple, bulk, Slot, empty_key, other_type, holds, Outcome, open_write, open_read,
  with_path, with_parents, new_or_file, with_file, fresh,
}
use redis_fs.Command.Write.{create, new_file, overwrite, echo_file, echo_at, echo_opened, echo}
use redis_fs.Command.Read.{read_at, cat_file, cat_at, cat}

abbrev pub ok : Reply
ok = simple "OK"

pub parent-ne :
    (s : Bytes) → is_root (slash ∷ s) ≡ false → bytes_eq (parent (slash ∷ s)) (slash ∷ s) ≡ false
unfolding is_root
parent-ne s h =
    bytes_eq_of_length (parent (slash ∷ s)) (slash ∷ s)
      (λ e. ground (arith, length-parent_cases (slash ∷ s)))

module _ (D : DictApi Inode) where
  -- The file at `path` has these bytes.
  abbrev pub Stores : Fs D → Bytes → Bytes → Type 0
  Stores fs path content =
      (i : Inode) × (lookup D fs path ≡ some i) × (i.payload ≡ file content (bloom_build content))

  create-Stores :
      (now : ℤ) (fs : Fs D) (path content : Bytes)
      → bytes_eq (parent path) path ≡ false
      → lookup D fs path ≡ none
      → Stores (create D now fs path (new_file D now content) content) path content
  unfolding create link_to_parent_at new_file file_set_data inode_create lookup
  create-Stores now fs path content ne e = (
    new_file D now content,
    lookup-update_parent_ne D _ path path
          (λ d. record (dir_add_child d (base_name path)) { mtime = now }) ne
        ∙ lookup-insert D fs path path (new_file D now content)
        ∙ rw (bytes_eq_refl path, e),
    refl,
  )

  overwrite-Stores :
      (now : ℤ) (fs : Fs D) (path : Bytes) (i : Inode) (old bloom content : Bytes)
      → i.payload ≡ file old bloom
      → Stores (overwrite D now fs path i old content) path content
  unfolding overwrite lookup file_set_data
  overwrite-Stores now fs path i old bloom content e = (
    record (file_set_data i content) { mtime = now },
    lookup-write_inode D fs path path (record (file_set_data i content) { mtime = now })
        ∙ rw (bytes_eq_refl path),
    rw (file_set_data, e),
  )

  -- A handler that replies OK has gone on past its checks.
  pub with_path-ok :
      (fs : Fs D) (raw : Bytes) (k : Bytes → Outcome (Fs D))
      → (with_path D fs raw k).reply ≡ ok
      → (p : Bytes) × (normalize raw ≡ some p) × (with_path D fs raw k ≡ k (c_str p))
  unfolding with_path
  with_path-ok fs raw k h = elim (Option-cases (normalize raw)) [
    | inl e ↦ cc (rw (e, with_path) at h)
    | inr (p, e) ↦ (p, e, rw (with_path, e))
  ]

  pub with_parents-ok :
      (now : ℤ) (fs : Fs D) (path : Bytes) (message : String) (k : Fs D → Outcome (Fs D))
      → (with_parents D now fs path message k).reply ≡ ok
      → with_parents D now fs path message k ≡ k (ensure_parents D now fs path).0
  unfolding with_parents
  with_parents-ok now fs path message k h = elim (Bool-cases (ensure_parents D now fs path).1) [
    | inl e ↦ rw e
    | inr e ↦ cc (rw e at h)
  ]

  -- The filesystem that an outcome leaves stores these bytes at `path`.
  abbrev Leaves : Outcome (Fs D) → Bytes → Bytes → Type 0
  Leaves o path content = (fs : Fs D) × (o.slot ≡ holds fs) × Stores fs path content

  echo_file-Leaves :
      (now : ℤ) (content path : Bytes) (fs : Fs D)
      → bytes_eq (parent path) path ≡ false
      → (echo_file D now false content path fs).reply ≡ ok
      → Leaves (echo_file D now false content path fs) path content
  unfolding echo_file new_or_file
  echo_file-Leaves now content path fs ne h = elim (Option-cases (lookup D fs path)) [
    | inl e ↦
        rw (e, echo_file, new_or_file)
          (
            create D now fs path (new_file D now content) content,
            refl,
            create-Stores now fs path content ne e,
          )
    | inr (i, e) ↦ old i e i.payload refl
  ]
    where
      old :
          (i : Inode)
          → lookup D fs path ≡ some i
          → (x : Payload) → i.payload ≡ x
          → Leaves (echo_file D now false content path fs) path content
      old i e (file was bloom) k =
          rw (echo_file, new_or_file, e, k)
            (
              overwrite D now fs path i was content,
              refl,
              overwrite-Stores now fs path i was bloom content k,
            )
      old i e (dir cs) k = cc (rw (echo_file, new_or_file, e, k) at h)
      old i e (symlink target) k = cc (rw (echo_file, new_or_file, e, k) at h)

  echo_at-Leaves :
      (now : ℤ) (content : Bytes) (fs : Fs D) (s : Bytes)
      → (echo_at D now false content fs (slash ∷ s)).reply ≡ ok
      → Leaves (echo_at D now false content fs (slash ∷ s)) (slash ∷ s) content
  unfolding echo_at
  echo_at-Leaves now content fs s h = elim (Bool-cases (is_root (slash ∷ s))) [
    | inl e ↦ cc (rw (echo_at, e) at h)
    | inr e ↦
        let k = echo_file D now false content (slash ∷ s) in
        let message : String = "ERR parent path conflict — a non-directory exists in the path" in
        let past = with_parents-ok now fs (slash ∷ s) message k (rw e at h) in
        rw (e, past)
          (echo_file-Leaves now content (slash ∷ s) (ensure_parents D now fs (slash ∷ s)).0
            (parent-ne s e) (ap (λ o. o.reply) (sym past) ∙ rw e at h))
  ]

  -- ECHO on a filesystem.
  echo_opened-Leaves :
      (now : ℤ) (raw content : Bytes) (fs : Fs D)
      → (echo_opened D now false raw content fs).reply ≡ ok
      → (p : Bytes) × (normalize raw ≡ some p)
        × Leaves (echo_opened D now false raw content fs) (c_str p) content
  unfolding echo_opened c_str
  echo_opened-Leaves now raw content fs h =
      let (p, e, past) = with_path-ok fs raw (echo_at D now false content fs) h in
      let fine = ap (λ o. o.reply) (sym past) ∙ h in
      (p, e, rw past (absolute p (normal-slash p (normalize-IsNormal raw p e)) fine))
    where
      absolute :
          (p : Bytes)
          → (s : Bytes) × (p ≡ slash ∷ s)
          → (echo_at D now false content fs (c_str p)).reply ≡ ok
          → Leaves (echo_at D now false content fs (c_str p)) (c_str p) content
      absolute p (s, e) = rw (e, c_str) (echo_at-Leaves now content fs (c_str s))

  echo-Leaves :
      (now : ℤ) (slot : Slot (Fs D)) (raw content : Bytes)
      → (echo D now slot (raw ∷ content ∷ [])).reply ≡ ok
      → (p : Bytes) × (normalize raw ≡ some p)
        × Leaves (echo D now slot (raw ∷ content ∷ [])) (c_str p) content
  unfolding echo open_write
  echo-Leaves now empty_key raw content h = echo_opened-Leaves now raw content (fresh D now) h
  echo-Leaves now other_type raw content h = cc h
  echo-Leaves now (holds fs) raw content h = echo_opened-Leaves now raw content fs h

  cat_of_Stores :
      (later : ℤ) (fs : Fs D) (raw p content : Bytes)
      → normalize raw ≡ some p
      → Stores fs (c_str p) content
      → (cat D later (holds fs) (raw ∷ [])).reply ≡ bulk content
  unfolding cat open_read with_path cat_at cat_file with_file read_at
  cat_of_Stores later fs raw p content e (i, here, k) =
      let cut : c_str (c_str p) ≡ c_str p = c_str_of_NoNul (c_str p) (c_str-NoNul p) in
      let target : resolve_path D fs (c_str p) ≡ resolved (c_str (c_str p)) =
        resolve_path_here D fs (c_str p) i (rw cut here) (ap is_symlink k) in
      rw (cat, open_read, with_path, e, cat_at, target, cut, cut, cat_file, with_file, here, k)

  -- If ECHO replies OK, CAT on the same path replies the bytes that ECHO was given.
  pub cat-echo :
      (now later : ℤ) (slot : Slot (Fs D)) (raw content : Bytes)
      → (echo D now slot (raw ∷ content ∷ [])).reply ≡ simple "OK"
      → (cat D later (echo D now slot (raw ∷ content ∷ [])).slot (raw ∷ [])).reply ≡ bulk content
  cat-echo now later slot raw content h =
      let (p, e, left) = echo-Leaves now slot raw content h in
      let (fs, here, stores) = left in rw here (cat_of_Stores later fs raw p content e stores)
