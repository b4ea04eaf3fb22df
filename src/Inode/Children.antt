-- ===== src/Inode/Children.antt =====
-- fsDirAddChild, fsDirRemoveChild and fsDirHasChild: a directory as a set of names.
use redis_fs.Base.{
  ◌≡◌, refl, ap, sym, ◌∙◌, true, false, ◌||◌, List, [], ◌∷◌, ◌++◌, arith, Bool-cases, inl, inr,
  c_str_of_NoNul, NoNul, bytes_eq, bytes_eq_refl, bytes_eq→eq,
}
use redis_fs.Base.ByteStrings.{Bytes}
use redis_fs.Inode.{
  Inode, Payload, file, dir, symlink, is_dir, has_name, add_name, remove_name, dir_add_child,
  dir_remove_child, dir_has_child,
}

pub has_name-append_self : (cs : List Bytes) (n : Bytes) → has_name (cs ++ (n ∷ [])) n ≡ true
unfolding has_name
has_name-append_self [] n = rw (bytes_eq_refl n)
has_name-append_self (c ∷ cs) n = ground (arith, has_name-append_self cs n)

pub has_name-append :
    (cs : List Bytes) (n m : Bytes) → has_name (cs ++ (n ∷ [])) m ≡ (has_name cs m || bytes_eq n m)
unfolding has_name
has_name-append [] n m = ground arith
has_name-append (c ∷ cs) n m = ground (arith, has_name-append cs n m)

remove_name-append :
    (cs : List Bytes) (n : Bytes) → has_name cs n ≡ false → remove_name (cs ++ (n ∷ [])) n ≡ cs
unfolding has_name remove_name
remove_name-append [] n h = rw (bytes_eq_refl n)
remove_name-append (c ∷ cs) n h = elim (Bool-cases (bytes_eq c n)) [
  | inl e ↦ cc (rw (has_name, e) at h)
  | inr e ↦ rw (remove_name, e, remove_name-append cs n (rw (has_name, e) at h))
]

pub has_name-add_name :
    (cs : List Bytes) (name other : Bytes)
    → NoNul name
    → has_name (add_name cs name) other ≡ (has_name cs other || bytes_eq name other)
unfolding add_name
has_name-add_name cs name other plain = elim (Bool-cases (has_name cs name)) [
  | inl e ↦ rw e (elim (Bool-cases (bytes_eq name other)) [
    | inl q ↦
        let same : name ≡ other = bytes_eq→eq name other q in
        let there : has_name cs other ≡ true = rw same at e in ground arith
    | inr q ↦ ground arith
  ])
  | inr e ↦ rw (e, c_str_of_NoNul name plain) (has_name-append cs name other)
]

add_name_new :
    (cs : List Bytes) (name : Bytes)
    → NoNul name
    → has_name cs name ≡ false
    → add_name cs name ≡ cs ++ (name ∷ [])
unfolding add_name
add_name_new cs name plain new = rw (new, c_str_of_NoNul name plain)

dir_cases : (x : Payload) → is_dir x ≡ true → (cs : List Bytes) × (x ≡ dir cs)
dir_cases (file a b) h = cc h
dir_cases (dir cs) h = (cs, refl)
dir_cases (symlink t) h = cc h

module _ (d : Inode) (name : Bytes) (plain : NoNul name) (is : is_dir d.payload ≡ true) where
  -- In a directory with a name added that has no NUL, there are that name and the names it had.
  pub dir_has_child-dir_add_child :
      (other : Bytes)
      → dir_has_child (dir_add_child d name) other ≡ (dir_has_child d other || bytes_eq name other)
  unfolding dir_has_child dir_add_child
  dir_has_child-dir_add_child other =
      let (cs, k) = dir_cases d.payload is in
      rw (dir_add_child, dir_has_child, k) (has_name-add_name cs name other plain)

  -- A name without a NUL that was not in a directory is found once it is added, and removing it
  -- restores the directory.
  pub dir_remove_child-dir_add_child :
      dir_has_child d name ≡ false → dir_remove_child (dir_add_child d name) name ≡ (d, true)
  unfolding dir_has_child dir_add_child dir_remove_child
  dir_remove_child-dir_add_child new =
      let (cs, k) = dir_cases d.payload is in
      let absent : has_name cs name ≡ false = rw (dir_has_child, k) at new in
      let added : dir_add_child d name ≡ record d { payload = dir (cs ++ (name ∷ [])) } =
        rw (dir_add_child, k, add_name_new cs name plain absent) in
      let back : record d { payload = dir cs } ≡ d = ap (λ x. record d { payload = x }) (sym k) in
      let names = remove_name-append cs name absent in
      ap (λ x. dir_remove_child x name) added
      ∙ ap (λ l. (record d { payload = dir l }, has_name (cs ++ (name ∷ [])) name)) names
      ∙ ap (λ b. (record d { payload = dir cs }, b)) (has_name-append_self cs name)
      ∙ ap (λ x. (x, true)) back
