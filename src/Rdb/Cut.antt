-- ===== src/Rdb/Cut.antt =====
-- FSRdbLoad of what FSRdbSave has written, cut short.
use redis_fs.Base.{
  ℕ, zero, suc, ◌%◌, ◌^◌, ◌<◌, ◌≡◌, refl, ap, Bool, true, false, Option, none, some, List, [], ◌∷◌,
  ◌++◌, ltb, if◌then◌else◌, length, All, c_str, u64_mod, add64, Option-cases, inl, inr,
}
use redis_fs.Base.ByteStrings.{Bytes}
use redis_fs.Dict.{DictApi}
use redis_fs.Inode.{Inode}
use redis_fs.Fs.{Fs, object_create}
use redis_fs.Fs.Counts.{IsCounted}
use redis_fs.Rdb.{
  Item, unsigned, signed, buffer, ◌>>=◌, load_unsigned, load_signed, load_buffer, load_children,
  load_file, load_dir, load_symlink, load_payload, load_entry, load_into, load_loop, save_entries,
  rdb_save, rdb_load,
}
use redis_fs.Rdb.Round.{IsStorable, load_entry-save, count-entries}

-- A reader that takes values from the front does the same with more behind them.
abbrev Extends : {A : Type 0} → (List Item → Option (A × List Item)) → Type 0
Extends {A} f =
    (io ext rest : List Item) (a : A)
    → f io ≡ some (a, rest)
    → f (io ++ ext) ≡ some (a, rest ++ ext)

abbrev bind :
    {A B : Type 0}
    → (List Item → Option (A × List Item))
    → (A → List Item → Option (B × List Item))
    → List Item
    → Option (B × List Item)
bind f g io = f io >>= (λ p. g p.0 p.1)

bind-Extends :
    {A B : Type 0} (f : List Item → Option (A × List Item))
    (g : A → List Item → Option (B × List Item))
    → Extends f
    → ((a : A) → Extends (g a))
    → Extends (bind f g)
bind-Extends f g hf hg io ext rest b e = elim (Option-cases (f io)) [
  | inl q ↦ cc (rw q at e)
  | inr ((a, mid), q) ↦ rw (hf io ext mid a q) (hg a mid ext rest b (rw q at e))
]

done-Extends : {A : Type 0} (a : A) → Extends (λ io. some (a, io))
done-Extends a io ext rest b e = cc e

load_unsigned-Extends : Extends load_unsigned
load_unsigned-Extends [] ext rest a e = cc e
load_unsigned-Extends (unsigned n ∷ io) ext rest a e = cc e
load_unsigned-Extends (signed n ∷ io) ext rest a e = cc e
load_unsigned-Extends (buffer n ∷ io) ext rest a e = cc e

load_signed-Extends : Extends load_signed
load_signed-Extends [] ext rest a e = cc e
load_signed-Extends (unsigned n ∷ io) ext rest a e = cc e
load_signed-Extends (signed n ∷ io) ext rest a e = cc e
load_signed-Extends (buffer n ∷ io) ext rest a e = cc e

load_buffer-Extends : Extends load_buffer
load_buffer-Extends [] ext rest a e = cc e
load_buffer-Extends (unsigned n ∷ io) ext rest a e = cc e
load_buffer-Extends (signed n ∷ io) ext rest a e = cc e
load_buffer-Extends (buffer n ∷ io) ext rest a e = cc e

load_children-Extends : (n : ℕ) → Extends (load_children n)
unfolding load_children
load_children-Extends zero = done-Extends []
load_children-Extends (suc n) =
    bind-Extends load_buffer (λ c. bind (load_children n) (λ cs io. some (c_str c ∷ cs, io)))
      load_buffer-Extends
      (λ c.
        bind-Extends (load_children n) (λ cs io. some (c_str c ∷ cs, io)) (load_children-Extends n)
          (λ cs. done-Extends (c_str c ∷ cs)))

if-Extends :
    {A : Type 0} (b : Bool) (f g : List Item → Option (A × List Item))
    → Extends f
    → Extends g
    → Extends (λ io. if b then f io else g io)
if-Extends true f g hf hg = hf
if-Extends false f g hf hg = hg

load_file-Extends : Extends load_file
unfolding load_file
load_file-Extends = bind-Extends load_unsigned _ load_unsigned-Extends (λ size.
    bind-Extends (λ io. if ltb 0 size then load_buffer io else some ([], io)) _
      (if-Extends (ltb 0 size) load_buffer (λ io. some ([], io)) load_buffer-Extends
        (done-Extends []))
      (λ content. done-Extends _))

load_dir-Extends : Extends load_dir
unfolding load_dir
load_dir-Extends =
    bind-Extends load_unsigned _ load_unsigned-Extends
      (λ n. bind-Extends (load_children n) _ (load_children-Extends n) (λ cs. done-Extends _))

load_symlink-Extends : Extends load_symlink
unfolding load_symlink
load_symlink-Extends = bind-Extends load_buffer _ load_buffer-Extends (λ target. done-Extends _)

load_payload-Extends : (n : ℕ) → Extends (load_payload n)
unfolding load_payload
load_payload-Extends zero = load_file-Extends
load_payload-Extends (suc zero) = load_dir-Extends
load_payload-Extends (suc (suc zero)) = load_symlink-Extends
load_payload-Extends (suc (suc (suc n))) = λ io ext rest a e. cc e

load_entry-Extends : Extends load_entry
unfolding load_entry
load_entry-Extends = bind-Extends load_buffer _ load_buffer-Extends (λ path.
    bind-Extends load_unsigned _ load_unsigned-Extends (λ type.
      bind-Extends load_unsigned _ load_unsigned-Extends (λ mode.
        bind-Extends load_unsigned _ load_unsigned-Extends (λ uid.
          bind-Extends load_unsigned _ load_unsigned-Extends (λ gid.
            bind-Extends load_signed _ load_signed-Extends (λ ctime.
              bind-Extends load_signed _ load_signed-Extends (λ mtime.
                bind-Extends load_signed _ load_signed-Extends (λ atime.
                  bind-Extends (load_payload (type % 2 ^ 8)) _ (load_payload-Extends (type % 2 ^ 8))
                    (λ payload. done-Extends _)))))))))

-- What the loop of FSRdbLoad leaves of the values, if it does not fail.
rest_of : ℕ → List Item → Option (Unit {0} × List Item)
unfolding load_entry
rest_of zero io = some (tt, io)
rest_of (suc n) io = bind load_entry (λ entry. rest_of n) io

rest_of-Extends : (n : ℕ) → Extends (rest_of n)
unfolding rest_of
rest_of-Extends zero = done-Extends tt
rest_of-Extends (suc n) =
    bind-Extends load_entry (λ entry. rest_of n) load_entry-Extends (λ entry. rest_of-Extends n)

-- Of what was saved, it leaves nothing.
rest_of-save_entries :
    (l : List (Bytes × Inode))
    → All (λ e. IsStorable e.1) l
    → rest_of (length l) (save_entries l) ≡ some (tt, [])
unfolding rest_of save_entries
rest_of-save_entries [] h = refl
rest_of-save_entries ((path, i) ∷ l) h =
    rw (load_entry-save path i l h.0) (rest_of-save_entries l h.1)

append-not_nil : (io : List Item) (x : Item) (ext : List Item) → ¬ (io ++ (x ∷ ext) ≡ [])
append-not_nil [] x ext e = cc e
append-not_nil (y ∷ io) x ext e = cc e

-- The loop cannot end on less than was saved.
rest_of-cut :
    (l : List (Bytes × Inode)) (pre : List Item) (x : Item) (ext : List Item)
    → All (λ e. IsStorable e.1) l
    → save_entries l ≡ pre ++ (x ∷ ext)
    → rest_of (length l) pre ≡ none
rest_of-cut l pre x ext h cut = elim (Option-cases (rest_of (length l) pre)) [
  | inl e ↦ e
  | inr ((a, rest), e) ↦
      let whole = rest_of-Extends (length l) pre (x ∷ ext) rest a e in
      let all = rest_of-save_entries l h in
      absurd (append-not_nil rest x ext (cc (whole, all, ap (rest_of (length l)) cut)))
]

module _ (D : DictApi Inode) where
  load_loop-rest_of :
      (n : ℕ) (io : List Item) (fs : Fs D) → rest_of n io ≡ none → load_loop D n io fs ≡ none
  unfolding load_loop rest_of
  load_loop-rest_of zero io fs h = cc h
  load_loop-rest_of (suc n) io fs h = elim (Option-cases (load_entry io)) [
    | inl e ↦ rw (load_loop, e)
    | inr ((entry, io'), e) ↦
        rw (load_loop, e) (load_loop-rest_of n io' (load_into D fs entry) (rw e at h))
  ]

  -- What FSRdbSave writes of a filesystem whose counters are right, with fewer than 2^64 inodes that are
  -- each as the structure in C holds it, is refused by FSRdbLoad if it is cut short anywhere.
  pub rdb_load-cut :
      (fs : Fs D)
      → IsCounted D fs
      → All (λ e. IsStorable e.1) (D.entries fs.inodes)
      → length (D.entries fs.inodes) < u64_mod
      → (pre : List Item) (x : Item) (ext : List Item) → rdb_save D fs ≡ pre ++ (x ∷ ext)
      → rdb_load D pre 0 ≡ none
  unfolding rdb_load rdb_save
  rdb_load-cut fs counted storable few [] x ext e = refl
  rdb_load-cut fs counted storable few (y ∷ pre) x ext e =
      let first : unsigned (add64 (add64 fs.file_count fs.dir_count) fs.symlink_count) ≡ y = cc e in
      let cut : save_entries (D.entries fs.inodes) ≡ pre ++ (x ∷ ext) = cc e in
      let count = count-entries D fs counted few in
      let stuck =
        load_loop-rest_of (length (D.entries fs.inodes)) pre (object_create D)
          (rest_of-cut (D.entries fs.inodes) pre x ext storable cut) in
      rw (← first, count) stuck
