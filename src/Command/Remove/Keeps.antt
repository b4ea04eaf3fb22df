-- ===== src/Command/Remove/Keeps.antt =====
-- What one removal keeps, fsDeleteRecursive keeps.
use mathlib.Core.Path.{subst}
use mathlib.Core.Option.{some-injective}
use redis_fs.Base.{ℕ, zero, suc, ℤ, ◌≡◌, Option, some, List, [], ◌∷◌, Option-cases, inl, inr}
use redis_fs.Base.ByteStrings.{Bytes}
use redis_fs.Dict.{DictApi}
use redis_fs.Inode.{Inode}
use redis_fs.Path.{join}
use redis_fs.Fs.{Fs, lookup}
use redis_fs.Command.Remove.{children, detach, delete_children, delete_recursive}

module _ (D : DictApi Inode) (now : ℤ) (P : Fs D → Type 0)
    (step : (fs : Fs D) (p : Bytes) → P fs → P (detach D now fs p)) where
  delete_children-keeps :
      (rec : Fs D → Bytes → Option (Fs D))
      → ((fs fs' : Fs D) (p : Bytes) → rec fs p ≡ some fs' → P fs → P fs')
      → (cs : List Bytes) (fs fs' : Fs D) (p : Bytes) → delete_children D rec fs p cs ≡ some fs'
      → P fs
      → P fs'
  unfolding delete_children
  delete_children-keeps rec h [] fs fs' p e c = subst P (some-injective fs fs' e) c
  delete_children-keeps rec h (x ∷ cs) fs fs' p e c = elim (Option-cases (join p x)) [
    | inl j ↦ delete_children-keeps rec h cs fs fs' p (rw (j, delete_children) at e) c
    | inr (child, j) ↦ elim (Option-cases (rec fs child)) [
      | inl r ↦ cc (rw (delete_children, j, r) at e)
      | inr (mid, r) ↦
          delete_children-keeps rec h cs mid fs' p (rw (delete_children, j, r) at e)
            (h fs mid child r c)
    ]
  ]

  pub delete_recursive-keeps :
      (fuel : ℕ) (fs fs' : Fs D) (p : Bytes)
      → delete_recursive D fuel now fs p ≡ some fs'
      → P fs
      → P fs'
  unfolding delete_recursive
  delete_recursive-keeps zero fs fs' p e c = cc
  delete_recursive-keeps (suc f) fs fs' p e c = elim (Option-cases (lookup D fs p)) [
    | inl l ↦ subst P (some-injective fs fs' (rw (delete_recursive, l) at e)) c
    | inr (i, l) ↦
        elim (Option-cases
          (delete_children D (delete_recursive D f now) fs p (children i.payload))) [
            | inl r ↦ cc (rw (delete_recursive, l, r) at e)
            | inr (mid, r) ↦
                subst P (some-injective (detach D now mid p) fs' (rw (delete_recursive, l, r) at e))
                  (step mid p (
                    delete_children-keeps (delete_recursive D f now) (delete_recursive-keeps f)
                      (children i.payload) fs mid p r c))
          ]
  ]
