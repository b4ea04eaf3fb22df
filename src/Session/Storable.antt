-- ===== src/Session/Storable.antt =====
-- A key under a sequence of FS.* commands, CP and MV too: its inodes, and with them what GREP finds.
-- What a saved key becomes is about a sequence without these two.
use redis_fs.Base.{
  ℕ, ℤ, ◌≡◌, ◌<◌, sym, ◌∙◌, Bool, some, List, [], ◌∷◌, Bool-cases, inl, inr, All, length, u64_mod,
  c_str, bytes_eq, bytes_eq_iff, bytes_eq_refl,
}
use redis_fs.Base.ByteStrings.{Bytes}
use redis_fs.Dict.{DictApi, find, Distinct}
use redis_fs.Inode.{Inode, Payload, file, dir, symlink}
use redis_fs.Fs.{Fs, lookup}
use redis_fs.Rdb.{rdb_save, rdb_load}
use redis_fs.Rdb.Round.{IsPlain, IsStorable, Same, rdb_load-rdb_save}
use redis_fs.Command.{holds, RedisApi, Slot, empty_key, Outcome}
use redis_fs.Command.Move
use redis_fs.Command.Move.Storable.Handlers.{cp-Storable, mv-Storable}
use redis_fs.Command.Keeps.{SlotHolds}
use redis_fs.Command.Storable.{storable}
use redis_fs.Command.Storable.Store.{AllStorable}
use redis_fs.Command.Walk.{hits_here, walk, grep_walk}
use redis_fs.Command.Walk.Filter.{IsFiltered, plain_search, grep_walk-plain_search}
use redis_fs.Session.{
  All-any, AllArgs-any, args_of, Reach, Step, Step-Keeps, Reach-Keeps, Reach-IsCounted,
}

IsPlain-IsFiltered : (p : Payload) → IsPlain p → IsFiltered p
IsPlain-IsFiltered (file content bloom) h = h
IsPlain-IsFiltered (dir cs) h = tt
IsPlain-IsFiltered (symlink t) h = tt

-- What holds of all that is found in a list without repetitions holds of all that is in it.
find-All :
    (P : Inode → Type 0) (l : List (Bytes × Inode))
    → Distinct l
    → ((k : Bytes) (i : Inode) → find k l ≡ some i → P i)
    → All (λ e. P e.1) l
unfolding find
find-All P [] d h = tt
find-All P ((k, i) ∷ l) d h = (
  h k i (rw (bytes_eq_refl k)),
  find-All P l d.1 (λ j o e. elim (Bool-cases (bytes_eq k j)) [
    | inl q ↦ cc (d.0, e, (bytes_eq_iff k j).0 q)
    | inr q ↦ h j o (rw q e)
  ]),
)

module _ (D : DictApi Inode) (api : RedisApi) where
  -- What any command leaves under its key.
  pub data AnyStep (s : Slot (Fs D)) : Slot (Fs D) → Type 0 where
    step : {t : Slot (Fs D)} → Step D api s t → AnyStep s t
    cp :
        (fuel : ℕ) (now : ℤ) (args : List Bytes) (o : Outcome (Fs D))
        → Move.cp D fuel now s args ≡ some o
        → AnyStep s o.slot
    mv : (now : ℤ) (args : List Bytes) → AnyStep s (Move.mv D now s args).slot

  -- What a key holds after any commands.
  pub data History : Slot (Fs D) → Type 0 where
    start : History empty_key
    next : {s t : Slot (Fs D)} → History s → AnyStep s t → History t

  AnyStep-Storable :
      {s t : Slot (Fs D)}
      → AnyStep s t
      → SlotHolds D (AllStorable D) s
      → SlotHolds D (AllStorable D) t
  AnyStep-Storable (step st) c = Step-Keeps D api (storable D) st (All-any (args_of D api st)) c
  AnyStep-Storable {s} (cp fuel now args o e) c = rw e at (cp-Storable D fuel now s args c)
  AnyStep-Storable {s} (mv now args) c = mv-Storable D now s args c

  History-Storable : (s : Slot (Fs D)) → History s → SlotHolds D (AllStorable D) s
  History-Storable empty_key start = tt
  History-Storable s (next r st) = AnyStep-Storable st (History-Storable _ r)

  -- After any commands on a key that was empty, every inode is as the structure in C holds it: the mode
  -- is below 2^16, the owner and the group are below 2^32, names of children and targets of links have no
  -- NUL, and the filter of a file is that of its content.
  pub History-IsStorable :
      (fs : Fs D)
      → History (holds fs)
      → (p : Bytes) (i : Inode) → lookup D fs p ≡ some i
      → IsStorable i
  History-IsStorable fs r = History-Storable (holds fs) r

  -- After any commands on a key that was empty, fsGrepWalk gives the same lines as the walk that
  -- searches every file that is not empty, with no regard to the filters, for every pattern that is cut
  -- at its first NUL.
  pub grep_walk-History :
      (fs : Fs D)
      → History (holds fs)
      → (nocase : Bool) (pattern : Bytes) (fuel : ℕ) (path : Bytes)
      → grep_walk D fuel nocase (c_str pattern) fs path
        ≡ walk D (hits_here (plain_search nocase (c_str pattern))) fuel fs path
  grep_walk-History fs r nocase pattern =
      grep_walk-plain_search D fs nocase pattern
        (λ p i e. IsPlain-IsFiltered i.payload (History-IsStorable fs r p i e).plain)

  -- After any commands other than CP and MV on a key that was empty, if there are fewer than 2^64 inodes,
  -- what FSRdbSave writes is loaded again by FSRdbLoad: the same inodes at the same paths, and the same
  -- counters.
  pub rdb_load-Reach :
      (fs : Fs D)
      → Reach D api (holds fs)
      → length (D.entries fs.inodes) < u64_mod
      → (other : Fs D) × (rdb_load D (rdb_save D fs) 0 ≡ some other) × Same D fs other
  unfolding lookup
  rdb_load-Reach fs r few =
      let stored = Reach-Keeps D api (storable D) (holds fs) r (AllArgs-any D api r) tt in
      rdb_load-rdb_save D fs (Reach-IsCounted D api fs r)
        (find-All IsStorable (D.entries fs.inodes) (D.entries-Distinct fs.inodes)
          (λ k i e. stored k i (sym (D.find-entries fs.inodes k) ∙ e)))
        few
