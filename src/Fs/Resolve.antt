-- ===== src/Fs/Resolve.antt =====
-- fsResolvePath: what it returns is no symbolic link, and a path that is none is returned.
use redis_fs.Base.{
  ℕ, zero, suc, ◌≡◌, refl, ap, sym, ◌∙◌, false, none, some, Option-cases, inl, inr, ◌⊎◌, c_str,
}
use redis_fs.Base.ByteStrings.{Bytes}
use redis_fs.Dict.{DictApi}
use redis_fs.Inode.{Inode, Payload, file, dir, symlink, is_symlink}
use redis_fs.Fs.{Fs, resolved, path_depth, lookup, follow, resolve_loop, resolve_path}

resolved-injective : (p q : Bytes) → resolved p ≡ resolved q → p ≡ q
resolved-injective p q e = cc e

link_cases : (x : Payload) → ((target : Bytes) × (x ≡ symlink target)) ⊎ (is_symlink x ≡ false)
link_cases (file a b) = inr refl
link_cases (dir a) = inr refl
link_cases (symlink target) = inl (target, refl)

module _ (D : DictApi Inode) (fs : Fs D) where
  -- A round at a path where there is no link.
  pub resolve_loop_here :
      (f : ℕ) (p : Bytes) (inode : Inode)
      → lookup D fs p ≡ some inode
      → is_symlink inode.payload ≡ false
      → resolve_loop D (suc f) fs p ≡ resolved p
  unfolding resolve_loop
  resolve_loop_here f p inode e no_link = split inode.payload refl
    where
      split : (x : Payload) → inode.payload ≡ x → resolve_loop D (suc f) fs p ≡ resolved p
      split (file a b) k = rw (resolve_loop, e, k)
      split (dir a) k = rw (resolve_loop, e, k)
      split (symlink target) k = cc (no_link, ap is_symlink k)

  resolve_loop-none :
      (f : ℕ) (p : Bytes) → lookup D fs p ≡ none → resolve_loop D (suc f) fs p ≡ resolved p
  unfolding resolve_loop
  resolve_loop-none f p e = rw (resolve_loop, e)

  -- A round at a link.
  resolve_loop_link :
      (f : ℕ) (p target : Bytes) (inode : Inode)
      → lookup D fs p ≡ some inode
      → inode.payload ≡ symlink target
      → resolve_loop D (suc f) fs p ≡ (elim (follow D p target) [
        | none ↦ path_depth
        | some next ↦ resolve_loop D f fs (c_str next)
      ])
  unfolding resolve_loop
  resolve_loop_link f p target inode e k = rw (resolve_loop, e, k)

  resolve_loop-no_link :
      (f : ℕ) (p q : Bytes) (inode : Inode)
      → resolve_loop D f fs p ≡ resolved q
      → lookup D fs q ≡ some inode
      → is_symlink inode.payload ≡ false
  unfolding resolve_loop
  resolve_loop-no_link zero p q inode h found = cc h
  resolve_loop-no_link (suc f) p q inode h found = elim (Option-cases (lookup D fs p)) [
    | inl e ↦
        let same : p ≡ q = resolved-injective p q (sym (resolve_loop-none f p e) ∙ h) in
        cc (rw same at e, found)
    | inr (here, e) ↦ elim (link_cases here.payload) [
      | inl (target, k) ↦
          let step = sym (resolve_loop_link f p target here e k) ∙ h in
          elim (Option-cases (follow D p target)) [
            | inl n ↦ cc (rw n at step)
            | inr (next, n) ↦ resolve_loop-no_link f (c_str next) q inode (rw n at step) found
          ]
      | inr no_link ↦
          let same : p ≡ q =
            resolved-injective p q (sym (resolve_loop_here f p here e no_link) ∙ h) in
          let at_q : some here ≡ some inode = sym (rw same at e) ∙ found in cc (at_q, no_link)
    ]
  ]

  -- What fsResolvePath returns is not a symbolic link: at that path there is nothing, a file or a
  -- directory.
  pub resolve_path-no_link :
      (p q : Bytes) (inode : Inode)
      → resolve_path D fs p ≡ resolved q
      → lookup D fs q ≡ some inode
      → is_symlink inode.payload ≡ false
  unfolding resolve_path
  resolve_path-no_link p q inode = resolve_loop-no_link 40 (c_str p) q inode

  -- A path at which there is no link is returned as it is, cut at its first NUL.
  pub resolve_path_here :
      (p : Bytes) (inode : Inode)
      → lookup D fs (c_str p) ≡ some inode
      → is_symlink inode.payload ≡ false
      → resolve_path D fs p ≡ resolved (c_str p)
  unfolding resolve_path
  resolve_path_here p inode = resolve_loop_here 39 (c_str p) inode
