-- ===== src/Command/Tree/Deleted.antt =====
-- fsDeleteRecursive keeps a tree: it takes away what is below its path before the path itself.
use mathlib.Core.Path.{subst}
use mathlib.Core.Option.{some-injective}
use redis_fs.Base.{
  ℕ, zero, suc, ℤ, ◌≡◌, refl, sym, ap, ◌∙◌, true, false, Option, none, some, List, [], ◌∷◌, All,
  Bool-cases, Option-cases, inl, inr, bytes_eq, bytes_eq→eq, ltb, length, arith,
}
use redis_fs.Base.ByteStrings.{Bytes}
use redis_fs.Dict.{DictApi}
use redis_fs.Inode.{Inode, Payload, file, dir, symlink, has_name}
use redis_fs.Path.{parent, base_name, join, is_root}
use redis_fs.Path.Plain.{IsCPath, IsCName, join-IsChild, parent-IsCPath}
use redis_fs.Fs.{Fs, lookup, remove, unlink_from_parent}
use redis_fs.Command.Remove.{children, detach, delete_children, delete_recursive}
use redis_fs.Command.Tree.Shapes.{Shape, branch, shape, IsTree, branch-injective}
use redis_fs.Command.Tree.Changes.{shapes, shape_at, Shrinks, unlinked-IsTree}

pub branch-children : (x : Payload) (cs : List Bytes) → shape x ≡ branch cs → children x ≡ cs
branch-children (file a b) cs e = cc e
branch-children (dir ds) cs e = branch-injective e
branch-children (symlink t) cs e = cc e

module _ (D : DictApi Inode) where
  pub children_names :
      (fs : Fs D) (p : Bytes) (i : Inode)
      → IsTree (shapes D fs)
      → lookup D fs p ≡ some i
      → All IsCName (children i.payload)
  children_names fs p i t e = split i.payload refl
    where
      split : (x : Payload) → i.payload ≡ x → All IsCName (children i.payload)
      split (file a b) k = rw k tt
      split (dir cs) k = rw k (t.names p cs (ap shape_at e ∙ ap (λ x. some (shape x)) k)).0
      split (symlink a) k = rw k tt

  -- What a deletion at `q` has done.
  abbrev Deleted : Fs D → Fs D → Bytes → Type 0
  Deleted fs fs' q = IsTree (shapes D fs') × Shrinks D fs fs' × (shapes D fs' q ≡ none)

  still_gone :
      (fs fs' : Fs D) (q : Bytes) → Shrinks D fs fs' → shapes D fs q ≡ none → shapes D fs' q ≡ none
  still_gone fs fs' q less e = elim (Option-cases (shapes D fs' q)) [
    | inl k ↦ k
    | inr (u, k) ↦ let (v, m) = less q u k in cc (m, e)
  ]

  -- The loop over the children, if the call for a child deletes it.
  delete_children-IsTree :
      (rec : Fs D → Bytes → Option (Fs D))
      → ((fs fs' : Fs D) (q : Bytes)
          → rec fs q ≡ some fs'
          → IsTree (shapes D fs)
          → IsCPath q
          → is_root q ≡ false
          → Deleted fs fs' q)
      → (cs : List Bytes) (fs fs' : Fs D) (p : Bytes) → delete_children D rec fs p cs ≡ some fs'
      → IsTree (shapes D fs)
      → IsCPath p
      → All IsCName cs
      → IsTree (shapes D fs')
        × Shrinks D fs fs'
        × ((c q : Bytes) → has_name cs c ≡ true → join p c ≡ some q → shapes D fs' q ≡ none)
  unfolding delete_children has_name
  delete_children-IsTree rec h [] fs fs' p e t path names =
      subst
        (λ x.
          IsTree (shapes D x)
          × Shrinks D fs x
          × ((c q : Bytes) → has_name [] c ≡ true → join p c ≡ some q → shapes D x q ≡ none))
        (some-injective fs fs' e) (t, (λ q u k. (u, k)), λ c q k j. cc k)
  delete_children-IsTree rec h (x ∷ cs) fs fs' p e t path names = elim (Option-cases (join p x)) [
    | inl j ↦
        let (after, less, all) =
          delete_children-IsTree rec h cs fs fs' p (rw (j, delete_children) at e) t path names.1 in
        (
          after,
          less,
          (λ c q k m. elim (Bool-cases (bytes_eq x c)) [
            | inl same ↦ cc (ap (join p) (bytes_eq→eq x c same), j, m)
            | inr other ↦ all c q (rw other at k) m
          ]),
        )
    | inr (child, j) ↦ elim (Option-cases (rec fs child)) [
      | inl r ↦ cc (rw (delete_children, j, r) at e)
      | inr (mid, r) ↦
          let is = join-IsChild p x child path names.0 j in
          let (t', less', gone') = h fs mid child r t is.is_path is.below in
          let (after, less, all) =
            delete_children-IsTree rec h cs mid fs' p (rw (delete_children, j, r) at e) t' path
              names.1 in
          (
            after,
            (λ q u k. let (v, m) = less q u k in less' q v m),
            (λ c q k m. elim (Bool-cases (bytes_eq x c)) [
              | inl same ↦
                  let at : child ≡ q =
                    some-injective child q (sym j ∙ ap (join p) (bytes_eq→eq x c same) ∙ m) in
                  still_gone mid fs' q less (sym (ap (shapes D mid) at) ∙ gone')
              | inr other ↦ all c q (rw other at k) m
            ]),
          )
    ]
  ]

  -- Once the children of `p` are gone, nothing is below `p`.
  alone :
      (fs mid : Fs D) (p : Bytes) (i : Inode)
      → IsTree (shapes D fs)
      → lookup D fs p ≡ some i
      → Shrinks D fs mid
      → ((c q : Bytes)
          → has_name (children i.payload) c ≡ true
          → join p c ≡ some q
          → shapes D mid q ≡ none)
      → (q : Bytes) (u : Shape) → shapes D mid q ≡ some u
      → is_root q ≡ false
      → bytes_eq p (parent q) ≡ false
  alone fs mid p i t e less all q u k nr = elim (Bool-cases (bytes_eq p (parent q))) [
    | inr m ↦ m
    | inl m ↦
        let same = bytes_eq→eq p (parent q) m in
        let (v, was) = less q u k in
        let (path, (cs, at_dir, listed)) = t.above q v was nr in
        let (_, _, joins) = parent-IsCPath q path nr in
        let here : some (shape i.payload) ≡ some (branch cs) =
          sym (ap shape_at e) ∙ ap (shapes D fs) same ∙ at_dir in
        let is = branch-children i.payload cs (some-injective (shape i.payload) (branch cs) here) in
        cc (all (base_name q) q (rw is listed) (rw same joins), k)
  ]

  pub delete_recursive-IsTree :
      (fuel : ℕ) (now : ℤ) (fs fs' : Fs D) (p : Bytes)
      → delete_recursive D fuel now fs p ≡ some fs'
      → IsTree (shapes D fs)
      → IsCPath p
      → is_root p ≡ false
      → Deleted fs fs' p
  unfolding delete_recursive detach
  delete_recursive-IsTree zero now fs fs' p e t path nr = cc e
  delete_recursive-IsTree (suc f) now fs fs' p e t path nr = elim (Option-cases (lookup D fs p)) [
    | inl l ↦
        subst (λ x. Deleted fs x p) (some-injective fs fs' (rw (delete_recursive, l) at e))
          (t, (λ q u k. (u, k)), ap shape_at l)
    | inr (i, l) ↦
        elim (Option-cases
          (delete_children D (delete_recursive D f now) fs p (children i.payload))) [
            | inl r ↦ cc (rw (delete_recursive, l, r) at e)
            | inr (mid, r) ↦
                let (t', less, all) =
                  delete_children-IsTree (delete_recursive D f now)
                    (λ a b q. delete_recursive-IsTree f now a b q) (children i.payload) fs mid p r t
                    path (children_names fs p i t l) in
                let (after, less', gone) =
                  unlinked-IsTree D now mid p t' path nr (alone fs mid p i t l less all) in
                let same : remove D (unlink_from_parent D now mid p) p ≡ fs' =
                  some-injective (remove D (unlink_from_parent D now mid p) p) fs'
                    (rw (delete_recursive, l, r, nr) at e) in
                subst (λ x. Deleted fs x p) same
                  (after, (λ q u k. let (v, m) = less' q u k in less q v m), gone)
          ]
  ]

  no_children-alone :
      (fs : Fs D) (p : Bytes) (i : Inode)
      → IsTree (shapes D fs)
      → lookup D fs p ≡ some i
      → ltb 0 (length (children i.payload)) ≡ false
      → (q : Bytes) (u : Shape) → shapes D fs q ≡ some u
      → is_root q ≡ false
      → bytes_eq p (parent q) ≡ false
  unfolding has_name
  no_children-alone fs p i t e none_there =
      alone fs fs p i t e (λ q u k. (u, k)) (λ c q k j. nothing (children i.payload) none_there c k)
    where
      nothing :
          {A : Type 0} (cs : List Bytes)
          → ltb 0 (length cs) ≡ false
          → (c : Bytes) → has_name cs c ≡ true
          → A
      nothing [] h c k = cc k
      nothing (x ∷ cs) h c k = absurd (ground (arith, h))

  -- An inode that lists nothing is taken away.
  pub removed_empty-IsTree :
      (now : ℤ) (fs : Fs D) (p : Bytes) (i : Inode)
      → IsTree (shapes D fs)
      → IsCPath p
      → is_root p ≡ false
      → lookup D fs p ≡ some i
      → ltb 0 (length (children i.payload)) ≡ false
      → IsTree (shapes D (remove D (unlink_from_parent D now fs p) p))
  removed_empty-IsTree now fs p i t path nr e l =
      (unlinked-IsTree D now fs p t path nr (no_children-alone fs p i t e l)).0
