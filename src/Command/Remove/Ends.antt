-- ===== src/Command/Remove/Ends.antt =====
-- fsDeleteRecursive comes to an end: a path has at most 256 names, and a child has one more than its
-- directory.
use mathlib.Core.Option.{some-injective}
use redis_fs.Base.{
  ℕ, zero, suc, ℤ, ◌+◌, ◌≡◌, refl, sym, ◌∙◌, ◌≤◌, ◌<◌, Bool, true, false, not, ◌&&◌, Option, some,
  List, [], ◌∷◌, ◌++◌, All, All-append, length, length-append, arith, Bool-cases, Option-cases, inl,
  inr, if◌then◌else◌, bytes_eq, ltb,
}
use redis_fs.Base.ByteStrings.{Bytes}
use redis_fs.Dict.{DictApi}
use redis_fs.Inode.{Inode, Payload, file, dir, symlink, remove_name, dir_remove_child}
use redis_fs.Path.{join, is_root, parent, base_name, max_depth}
use redis_fs.Path.Normal.{IsName, IsNormal, path_of}
use redis_fs.Path.Depth.{join-name_inverse}
use redis_fs.Fs.{Fs, lookup, remove, unlink_from_parent, write_inode}
use redis_fs.Fs.Lookup.{lookup-remove, lookup-write_inode, update_parent_cases}
use redis_fs.Command.{Outcome}
use redis_fs.Command.Remove.{children, detach, delete_children, delete_recursive, rm_at}
use redis_fs.Command.Remove.Keeps.{delete_recursive-keeps}

All-remove_name : (cs : List Bytes) (n : Bytes) → All IsName cs → All IsName (remove_name cs n)
unfolding remove_name
All-remove_name [] n h = tt
All-remove_name (c ∷ cs) n h = elim (Bool-cases (bytes_eq c n)) [
  | inl e ↦ rw e h.1
  | inr e ↦ rw e (h.0, All-remove_name cs n h.1)
]

-- The fuel has not run out.
abbrev pub Returns : {A : Type 0} → Option A → Type 0
Returns {A} o = (a : A) × (o ≡ some a)

pub if-Returns :
    {A : Type 0} (b : Bool) (x y : Option A) → Returns x → Returns y → Returns (if b then x else y)
if-Returns true x y h k = h
if-Returns false x y h k = k

module _ (D : DictApi Inode) (now : ℤ) where
  -- The children of every directory have names.
  abbrev pub HasNames : Fs D → Type 0
  HasNames fs = (p : Bytes) (i : Inode) → lookup D fs p ≡ some i → All IsName (children i.payload)

  remove-HasNames : (fs : Fs D) (p : Bytes) → HasNames fs → HasNames (remove D fs p)
  remove-HasNames fs p h j i e = elim (Bool-cases (bytes_eq p j)) [
    | inl q ↦ cc (rw q at (lookup-remove D fs p j), e)
    | inr q ↦ h j i (sym (rw q at (lookup-remove D fs p j)) ∙ e)
  ]

  children-dir_remove_child :
      (d : Inode) (n : Bytes)
      → All IsName (children d.payload)
      → All IsName (children (dir_remove_child d n).0.payload)
  unfolding dir_remove_child
  children-dir_remove_child d n h = split d.payload refl
    where
      split : (x : Payload) → d.payload ≡ x → All IsName (children (dir_remove_child d n).0.payload)
      split (file a b) k = rw (dir_remove_child, k) h
      split (dir cs) k = rw (dir_remove_child, k) (All-remove_name cs n (rw k at h))
      split (symlink t) k = rw (dir_remove_child, k) h

  write_inode-HasNames :
      (fs : Fs D) (p : Bytes) (i : Inode)
      → HasNames fs
      → All IsName (children i.payload)
      → HasNames (write_inode D fs p i)
  write_inode-HasNames fs p i h k j o e = elim (Bool-cases (bytes_eq p j)) [
    | inl q ↦
        let same : some i ≡ some o = sym (rw q at (lookup-write_inode D fs p j i)) ∙ e in
        rw (some-injective i o same) at k
    | inr q ↦ h j o (sym (rw q at (lookup-write_inode D fs p j i)) ∙ e)
  ]

  unlink_from_parent-HasNames :
      (fs : Fs D) (p : Bytes) → HasNames fs → HasNames (unlink_from_parent D now fs p)
  unfolding unlink_from_parent
  unlink_from_parent-HasNames fs p h =
      elim (update_parent_cases D fs p
        (λ d. record ((dir_remove_child d (base_name p)).0) { mtime = now })) [
          | inl e ↦ rw e h
          | inr (d, there, is, e) ↦ rw e (
              write_inode-HasNames fs (parent p)
                (record ((dir_remove_child d (base_name p)).0) { mtime = now }) h
                (children-dir_remove_child d (base_name p) (h (parent p) d there)))
        ]

  detach-HasNames : (fs : Fs D) (p : Bytes) → HasNames fs → HasNames (detach D now fs p)
  unfolding detach
  detach-HasNames fs p h = elim (Bool-cases (is_root p)) [
    | inl e ↦ rw (detach, e) (remove-HasNames fs p h)
    | inr e ↦
        rw (detach, e)
          (remove-HasNames (unlink_from_parent D now fs p) p (unlink_from_parent-HasNames fs p h))
  ]

  -- The loop over the children ends if the call for each child does.
  delete_children-Ends :
      (f : ℕ) (i : List Bytes)
      → All IsName i
      → length i ≤ max_depth
      → ((fs : Fs D) (w : Bytes)
          → HasNames fs
          → IsName w
          → suc (length i) ≤ max_depth
          → Returns (delete_recursive D f now fs (path_of (i ++ (w ∷ [])))))
      → (cs : List Bytes) (fs : Fs D) → HasNames fs
      → All IsName cs
      → Returns (delete_children D (delete_recursive D f now) fs (path_of i) cs)
  unfolding delete_children
  delete_children-Ends f i names d rec [] fs h k = (fs, refl)
  delete_children-Ends f i names d rec (w ∷ cs) fs h k = elim (Option-cases (join (path_of i) w)) [
    | inl e ↦ rw (delete_children, e) (delete_children-Ends f i names d rec cs fs h k.1)
    | inr (child, e) ↦
        let (is, room) = join-name_inverse i w child names k.0 d e in
        let (mid, ended) = rec fs w h k.0 room in
        let here : delete_recursive D f now fs child ≡ some mid = rw is ended in
        let kept = delete_recursive-keeps D now HasNames detach-HasNames f fs mid child here h in
        rw (delete_children, e, here) (delete_children-Ends f i names d rec cs mid kept k.1)
  ]

  delete_recursive-Ends :
      (f : ℕ) (i : List Bytes) (fs : Fs D)
      → All IsName i
      → length i ≤ max_depth
      → max_depth < f + length i
      → HasNames fs
      → Returns (delete_recursive D f now fs (path_of i))
  unfolding delete_recursive
  delete_recursive-Ends zero i fs names d enough h = absurd (omega arith)
  delete_recursive-Ends (suc f) i fs names d enough h =
      elim (Option-cases (lookup D fs (path_of i))) [
        | inl e ↦ rw (delete_recursive, e) (fs, refl)
        | inr (inode, e) ↦
            let (mid, ended) =
              delete_children-Ends f i names d
                (λ fs w k n room.
                  delete_recursive-Ends f (i ++ (w ∷ [])) fs
                    (All-append IsName i (w ∷ []) names (n, tt))
                    (omega (arith, length-append i (w ∷ [])))
                    (omega (arith, length-append i (w ∷ []))) k)
                (children inode.payload) fs h (h (path_of i) inode e) in
            rw (delete_recursive, e, ended) (detach D now mid (path_of i), refl)
      ]

  -- RM comes to an end on every normal path, if the children of every directory have names: calls of
  -- fsDeleteRecursive 257 deep are enough.
  pub rm_at-ends :
      (recursive : Bool) (fs : Fs D) (path : Bytes)
      → IsNormal path
      → HasNames fs
      → (o : Outcome (Fs D)) × (rm_at D 257 now recursive fs path ≡ some o)
  unfolding rm_at
  rm_at-ends recursive fs path n h =
      let (after, ended) =
        delete_recursive-Ends 257 n.names fs n.are_names n.depth (omega arith) h in
      let here : delete_recursive D 257 now fs path ≡ some after = rw (sym n.path) at ended in
      elim (Option-cases (lookup D fs path)) [
        | inl e ↦ rw (rm_at, e) (if-Returns (is_root path) _ _ (_, refl) (_, refl))
        | inr (inode, e) ↦
            rw (rm_at, e, here)
              (if-Returns (is_root path) _ _ (_, refl)
                (if-Returns (ltb 0 (length (children inode.payload)) && not recursive) _ _ (_, refl)
                  (if-Returns recursive _ _ (_, refl) (_, refl))))
      ]
