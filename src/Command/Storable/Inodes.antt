-- ===== src/Command/Storable/Inodes.antt =====
-- Inodes as the structure in C holds them, under the changes that the commands make to one.
use mathlib.Core.List.{append-nil}
use redis_fs.Base.{
  ℕ, ℤ, ◌≡◌, ◌<◌, ◌^◌, ◌-◌, refl, sym, ap, ◌∙◌, true, false, List, [], ◌∷◌, ◌++◌, arith, Bool-cases,
  inl, inr, ◌⊎◌, length, bytes_eq, ltb, ◌==◌, All, All-append, c_str,
}
use redis_fs.Base.ByteStrings.{Bytes, NoNul, c_str-NoNul}
use redis_fs.Bloom.{bloom_build, empty_bloom}
use redis_fs.Inode.{
  Inode, InodeType, Payload, file, dir, symlink, file_type, dir_type, symlink_type, inode_create,
  file_set_data, file_append_data, dir_add_child, dir_remove_child, add_name, has_name, remove_name,
}
use redis_fs.Rdb.Round.{IsPlain, IsStorable}
use redis_fs.Text.Resize.{resized, resized_bloom}
use redis_fs.Command.Keeps.{FitsAs}

-- The same attributes, with another payload.
pub with_payload : (j i : Inode) → FitsAs j i → IsStorable i → IsPlain j.payload → IsStorable j
with_payload j i f h k = record {
  mode = fits (2 ^ 16) j.mode i.mode f.0 h.mode;
  uid = fits (2 ^ 32) j.uid i.uid f.1 h.uid;
  gid = fits (2 ^ 32) j.gid i.gid f.2 h.gid;
  plain = k;
}
  where
    fits : (n a b : ℕ) → (a ≡ b) ⊎ (a < n) → b < n → a < n
    fits n a b (inl e) l = rw e l
    fits n a b (inr m) l = m

remove_name-NoNul : (cs : List Bytes) (n : Bytes) → All NoNul cs → All NoNul (remove_name cs n)
unfolding remove_name
remove_name-NoNul [] n h = tt
remove_name-NoNul (c ∷ cs) n h = elim (Bool-cases (bytes_eq c n)) [
  | inl e ↦ rw e h.1
  | inr e ↦ rw e (h.0, remove_name-NoNul cs n h.1)
]

add_name-NoNul : (cs : List Bytes) (n : Bytes) → All NoNul cs → All NoNul (add_name cs n)
unfolding add_name
add_name-NoNul cs n h = elim (Bool-cases (has_name cs n)) [
  | inl e ↦ rw e h
  | inr e ↦ rw e (All-append NoNul cs (c_str n ∷ []) h (c_str-NoNul n, tt))
]

abbrev pub same : (i : Inode) → FitsAs i i
same i = (inl refl, inl refl, inl refl)

pub dir_add_child-IsStorable :
    (d : Inode) (n : Bytes) → IsStorable d → IsStorable (dir_add_child d n)
unfolding dir_add_child
dir_add_child-IsStorable d n h = split d.payload refl
  where
    split : (x : Payload) → d.payload ≡ x → IsStorable (dir_add_child d n)
    split (file a b) k = rw (dir_add_child, k) h
    split (dir cs) k =
        rw (dir_add_child, k)
          (with_payload (record d { payload = dir (add_name cs n) }) d (same d) h
            (add_name-NoNul cs n (rw k at h.plain)))
    split (symlink t) k = rw (dir_add_child, k) h

pub dir_remove_child-IsStorable :
    (d : Inode) (n : Bytes) → IsStorable d → IsStorable (dir_remove_child d n).0
unfolding dir_remove_child
dir_remove_child-IsStorable d n h = split d.payload refl
  where
    split : (x : Payload) → d.payload ≡ x → IsStorable (dir_remove_child d n).0
    split (file a b) k = rw (dir_remove_child, k) h
    split (dir cs) k =
        rw (dir_remove_child, k)
          (with_payload (record d { payload = dir (remove_name cs n) }) d (same d) h
            (remove_name-NoNul cs n (rw k at h.plain)))
    split (symlink t) k = rw (dir_remove_child, k) h

pub at_time-IsStorable :
    (now : ℤ) (i : Inode) → IsStorable i → IsStorable (record i { mtime = now })
at_time-IsStorable now i h = with_payload (record i { mtime = now }) i (same i) h h.plain

pub inode_create-IsStorable : (now : ℤ) (t : InodeType) → IsStorable (inode_create now t 0)
unfolding inode_create bloom_build
inode_create-IsStorable now file_type = record {
  mode = omega arith;
  uid = omega arith;
  gid = omega arith;
  plain = refl;
}
inode_create-IsStorable now dir_type = record {
  mode = omega arith;
  uid = omega arith;
  gid = omega arith;
  plain = tt;
}
inode_create-IsStorable now symlink_type = record {
  mode = omega arith;
  uid = omega arith;
  gid = omega arith;
  plain = tt;
}

pub file_set_data-IsStorable :
    (i : Inode) (old bloom content : Bytes)
    → i.payload ≡ file old bloom
    → IsStorable i
    → IsStorable (file_set_data i content)
unfolding file_set_data
file_set_data-IsStorable i old bloom content e h =
    rw (file_set_data, e)
      (with_payload (record i { payload = file content (bloom_build content) }) i (same i) h refl)

pub file_append_data-IsStorable :
    (i : Inode) (old bloom content : Bytes)
    → i.payload ≡ file old bloom
    → IsStorable i
    → IsStorable (file_append_data i content)
unfolding file_append_data
file_append_data-IsStorable i old bloom content e h = elim (Bool-cases (length content == 0)) [
  | inl q ↦ rw (file_append_data, e, q) h
  | inr q ↦
      let all = old ++ content in
      rw (file_append_data, e, q)
        (with_payload (record i { payload = file all (bloom_build all) }) i (same i) h refl)
]

resized_same : (n : ℕ) (old : Bytes) → (n == length old) ≡ true → resized n old ≡ old
unfolding resized
resized_same n [] e = ground arith
resized_same n (c ∷ old) e =
    let none_left : n - length (c ∷ old) ≡ 0 = ground arith in
    let some_left : (n == 0) ≡ false = ground arith in
    let long : ltb n (length (c ∷ old)) ≡ false = ground arith in
    rw (some_left, long, none_left) (append-nil (c ∷ old))

bloom_build-nil : bloom_build [] ≡ empty_bloom
unfolding bloom_build
bloom_build-nil = refl

-- The filter that TRUNCATE leaves is that of the new content.
pub resized_bloom_lem :
    (n : ℕ) (old bloom : Bytes)
    → bloom ≡ bloom_build old
    → resized_bloom n old bloom ≡ bloom_build (resized n old)
unfolding resized_bloom
resized_bloom_lem n old bloom h = elim (Bool-cases (n == 0)) [
  | inl z ↦ rw z (sym bloom_build-nil)
  | inr z ↦ elim (Bool-cases (n == length old)) [
    | inl e ↦ rw (z, e) (h ∙ ap bloom_build (sym (rw z at (resized_same n old e))))
    | inr e ↦ rw (z, e)
  ]
]
