-- ===== src/Command/Keeps/Rules.antt =====
-- The rules by which the parts that the handlers share keep a property of the filesystem.
use redis_fs.Base.{
  ℤ, ◌≡◌, refl, Option, none, some, Bool-cases, String, Option-cases, inl, inr, c_str,
}
use redis_fs.Base.ByteStrings.{Bytes}
use redis_fs.Dict.{DictApi}
use redis_fs.Inode.{Inode, Payload, file, dir, symlink}
use redis_fs.Path.{normalize}
use redis_fs.Fs.{
  Fs, Resolved, resolved, symlink_loop, path_depth, lookup, resolve_path, ensure_parents,
}
use redis_fs.Command.{
  Slot, empty_key, other_type, holds, Outcome, fresh, open_write, open_read, with_path,
  with_path_unchecked, with_resolved, with_target, with_node, with_file, with_parents, new_or_file,
}
use redis_fs.Fs.Parents.{lookup-ensure_parents}
use redis_fs.Command.Keeps.{Invariant}

-- The path that a handler takes from its argument.
abbrev pub Names : Bytes → Bytes → Type 0
Names raw p = (q : Bytes) × (normalize raw ≡ some q) × (p ≡ c_str q)

-- The path that a handler takes behind the links of another.
abbrev pub Resolves : (D : DictApi Inode) → Fs D → Bytes → Bytes → Type 0
Resolves D fs path p = (q : Bytes) × (resolve_path D fs path ≡ resolved q) × (p ≡ c_str q)

module _ (D : DictApi Inode) (H : Slot (Fs D) → Type 0) where
  abbrev pub Keeps : Outcome (Fs D) → Type 0
  Keeps o = H o.slot

  -- The same, of a handler that has not run out of fuel.
  abbrev pub Result : Option (Outcome (Fs D)) → Type 0
  Result none = Unit
  Result (some o) = Keeps o

  pub open_read-Keeps :
      (slot : Slot (Fs D)) (k : Fs D → Outcome (Fs D))
      → H slot
      → ((fs : Fs D) → H (holds fs) → Keeps (k fs))
      → Keeps (open_read D slot k)
  unfolding open_read
  open_read-Keeps empty_key k c h = c
  open_read-Keeps other_type k c h = c
  open_read-Keeps (holds fs) k c h = h fs c

  module _ (fs : Fs D) (c : H (holds fs)) where
    pub with_path-Keeps :
        (raw : Bytes) (k : Bytes → Outcome (Fs D))
        → ((p : Bytes) → Names raw p → Keeps (k p))
        → Keeps (with_path D fs raw k)
    unfolding with_path
    with_path-Keeps raw k h = elim (Option-cases (normalize raw)) [
      | inl e ↦ rw (e, with_path) c
      | inr (p, e) ↦ rw (e, with_path) (h (c_str p) (p, e, refl))
    ]

    pub with_path_unchecked-Keeps :
        (raw : Bytes) (k : Bytes → Outcome (Fs D))
        → ((p : Bytes) → Names raw p → Keeps (k p))
        → Keeps (with_path_unchecked D fs raw k)
    unfolding with_path_unchecked
    with_path_unchecked-Keeps raw k h = elim (Option-cases (normalize raw)) [
      | inl e ↦ rw (e, with_path_unchecked) c
      | inr (p, e) ↦ rw (e, with_path_unchecked) (h (c_str p) (p, e, refl))
    ]

    pub with_resolved-Keeps :
        (path : Bytes) (k : Bytes → Outcome (Fs D))
        → ((p : Bytes) → Resolves D fs path p → Keeps (k p))
        → Keeps (with_resolved D fs path k)
    unfolding with_resolved
    with_resolved-Keeps path k h = split (resolve_path D fs path) refl
      where
        split : (r : Resolved) → resolve_path D fs path ≡ r → Keeps (with_resolved D fs path k)
        split (resolved p) e = rw (e, with_resolved) (h (c_str p) (p, e, refl))
        split symlink_loop e = rw (e, with_resolved) c
        split path_depth e = rw (e, with_resolved) c

    pub with_target-Keeps :
        (path : Bytes) (k : Bytes → Outcome (Fs D))
        → ((p : Bytes) → Resolves D fs path p → Keeps (k p))
        → Keeps (with_target D fs path k)
    unfolding with_target
    with_target-Keeps path k h = split (resolve_path D fs path) refl
      where
        split : (r : Resolved) → resolve_path D fs path ≡ r → Keeps (with_target D fs path k)
        split (resolved p) e = rw (e, with_target) (h (c_str p) (p, e, refl))
        split symlink_loop e = rw (e, with_target) c
        split path_depth e = rw (e, with_target) c

    pub with_node-Keeps :
        (path : Bytes) (message : String) (k : Inode → Outcome (Fs D))
        → ((i : Inode) → lookup D fs path ≡ some i → Keeps (k i))
        → Keeps (with_node D fs path message k)
    unfolding with_node
    with_node-Keeps path message k h = elim (Option-cases (lookup D fs path)) [
      | inl e ↦ rw (e, with_node) c
      | inr (i, e) ↦ rw (e, with_node) (h i e)
    ]

    pub with_file-Keeps :
        (path : Bytes) (k : Inode → Bytes → Outcome (Fs D))
        → ((i : Inode) (content bloom : Bytes)
            → lookup D fs path ≡ some i
            → i.payload ≡ file content bloom
            → Keeps (k i content))
        → Keeps (with_file D fs path k)
    unfolding with_file
    with_file-Keeps path k h = elim (Option-cases (lookup D fs path)) [
      | inl e ↦ rw (e, with_file) c
      | inr (i, e) ↦ split i e i.payload refl
    ]
      where
        split :
            (i : Inode)
            → lookup D fs path ≡ some i
            → (q : Payload) → i.payload ≡ q
            → Keeps (with_file D fs path k)
        split i e (file x y) q = rw (e, with_file, q) (h i x y e q)
        split i e (dir x) q = rw (e, with_file, q) c
        split i e (symlink x) q = rw (e, with_file, q) c

    pub new_or_file-Keeps :
        (path : Bytes) (message : String) (new : Outcome (Fs D))
        (k : Inode → Bytes → Outcome (Fs D))
        → (lookup D fs path ≡ none → Keeps new)
        → ((i : Inode) (content bloom : Bytes)
            → lookup D fs path ≡ some i
            → i.payload ≡ file content bloom
            → Keeps (k i content))
        → Keeps (new_or_file D fs path message new k)
    unfolding new_or_file
    new_or_file-Keeps path message new k h g = elim (Option-cases (lookup D fs path)) [
      | inl e ↦ rw (e, new_or_file) (h e)
      | inr (i, e) ↦ split i e i.payload refl
    ]
      where
        split :
            (i : Inode)
            → lookup D fs path ≡ some i
            → (q : Payload) → i.payload ≡ q
            → Keeps (new_or_file D fs path message new k)
        split i e (file x y) q = rw (e, new_or_file, q) (g i x y e q)
        split i e (dir x) q = rw (e, new_or_file, q) c
        split i e (symlink x) q = rw (e, new_or_file, q) c

module _ (D : DictApi Inode) (V : Invariant D) where
  pub Names-IsPath : (raw p : Bytes) → V.Clean raw → Names raw p → V.IsPath p
  Names-IsPath raw p c (q, e, same) = rw same (V.named raw q c e)

  pub Resolves-IsPath :
      (fs : Fs D) (path p : Bytes) → V.IsPath path → Resolves D fs path p → V.IsPath p
  Resolves-IsPath fs path p c (q, e, same) = rw same (V.target fs path q c e)

  pub open_write-Keeps :
      (now : ℤ) (slot : Slot (Fs D)) (k : Fs D → Outcome (Fs D))
      → V.Held slot
      → ((fs : Fs D) → V.Held (holds fs) → Keeps D V.Held (k fs))
      → Keeps D V.Held (open_write D now slot k)
  unfolding open_write
  open_write-Keeps now empty_key k c h = h (fresh D now) (V.begun now c)
  open_write-Keeps now other_type k c h = c
  open_write-Keeps now (holds fs) k c h = h fs c

  pub with_parents-Keeps :
      (fs : Fs D) (c : V.Held (holds fs)) (now : ℤ) (path : Bytes) (message : String)
      (k : Fs D → Outcome (Fs D))
      → V.IsPath path
      → ((fs' : Fs D)
          → V.Held (holds fs')
          → lookup D fs' path ≡ lookup D fs path
          → V.Ready fs' path
          → Keeps D V.Held (k fs'))
      → Keeps D V.Held (with_parents D now fs path message k)
  unfolding with_parents
  with_parents-Keeps fs c now path message k is h =
      let kept = V.parents now fs path c is in
      let same = lookup-ensure_parents D now fs path in
      elim (Bool-cases (ensure_parents D now fs path).1) [
        | inl e ↦
            rw (e, with_parents)
              (h (ensure_parents D now fs path).0 kept same (V.parents_ready now fs path c is e))
        | inr e ↦ rw (e, with_parents) kept
      ]
