-- ===== src/Session/Readonly.antt =====
-- The commands that are registered as readonly: what they leave under the key.
use redis_fs.Base.{
  ℤ, ◌≡◌, refl, true, Option, none, some, Bool-cases, inl, inr, bytes_eq, bytes_eq_iff,
}
use redis_fs.Base.Int.{pos}
use redis_fs.Base.ByteStrings.{Bytes}
use redis_fs.Dict.{DictApi}
use redis_fs.Inode.{Inode}
use redis_fs.Fs.{Fs, lookup, write_inode}
use redis_fs.Fs.Lookup.{lookup-write_inode}
use redis_fs.Command.{Slot, empty_key, other_type, holds, RedisApi}
use redis_fs.Command.Table.{Handler, registration, has_readonly}
use redis_fs.Command.Keeps.{Accesses}
use redis_fs.Command.Keeps.Reads.{
  info-Keeps, cat-Keeps, lines-Keeps, head_command-Keeps, tail_command-Keeps, wc_command-Keeps,
}
use redis_fs.Command.Keeps.Listing.{ls-Keeps, stat-Keeps, test-Keeps, readlink-Keeps}
use redis_fs.Command.Keeps.Walks.{tree-Keeps, find-Keeps, grep-Keeps}
use redis_fs.Session.{Step}
use redis_fs.Session.Storable.{AnyStep}

-- An inode, if there is one, with no regard to its access time.
abbrev pub unaccessed : Option Inode → Option Inode
unaccessed none = none
unaccessed (some i) = some (record i { atime = pos 0 })

module _ (D : DictApi Inode) where
  -- The same counters, and the same inodes but for their access times.
  pub record IsReadFrom (fs₀ fs : Fs D) : Type 0 where
    pub files : fs.file_count ≡ fs₀.file_count
    pub dirs : fs.dir_count ≡ fs₀.dir_count
    pub symlinks : fs.symlink_count ≡ fs₀.symlink_count
    pub size : fs.total_data_size ≡ fs₀.total_data_size
    pub inodes : (p : Bytes) → unaccessed (lookup D fs p) ≡ unaccessed (lookup D fs₀ p)

  -- The key holds what it held, but for access times.
  abbrev pub IsUnwritten : Slot (Fs D) → Slot (Fs D) → Type 0
  IsUnwritten (holds fs₀) (holds fs) = IsReadFrom fs₀ fs
  IsUnwritten s t = t ≡ s

  IsUnwritten-refl : (s : Slot (Fs D)) → IsUnwritten s s
  IsUnwritten-refl empty_key = refl
  IsUnwritten-refl other_type = refl
  IsUnwritten-refl (holds fs) = record {
    files = refl;
    dirs = refl;
    symlinks = refl;
    size = refl;
    inodes = λ p. refl;
  }

  accessed_inode :
      (now : ℤ) (fs₀ fs : Fs D) (p : Bytes) (i : Inode)
      → IsReadFrom fs₀ fs
      → lookup D fs p ≡ some i
      → IsReadFrom fs₀ (write_inode D fs p (record i { atime = now }))
  unfolding write_inode
  accessed_inode now fs₀ fs p i h e = record {
    files = h.files;
    dirs = h.dirs;
    symlinks = h.symlinks;
    size = h.size;
    inodes = λ q. elim (Bool-cases (bytes_eq p q)) [
      | inl b ↦
          rw (lookup-write_inode D fs p q (record i { atime = now }), b)
            (cc (h.inodes q, e, (bytes_eq_iff p q).0 b))
      | inr b ↦ rw (lookup-write_inode D fs p q (record i { atime = now }), b) (h.inodes q)
    ];
  }

  accessed_slot : (s : Slot (Fs D)) → Accesses D (IsUnwritten s)
  accessed_slot empty_key now fs p i h e = cc h
  accessed_slot other_type now fs p i h e = cc h
  accessed_slot (holds fs₀) now fs p i h e = accessed_inode now fs₀ fs p i h e

module _ (D : DictApi Inode) (api : RedisApi) where
  -- The handler that a command runs.
  abbrev pub handler_of : {s t : Slot (Fs D)} → AnyStep D api s t → Handler
  handler_of (AnyStep.step (Step.info _)) = Handler.info_command
  handler_of (AnyStep.step (Step.echo _ _)) = Handler.echo_command
  handler_of (AnyStep.step (Step.append _ _)) = Handler.append_command
  handler_of (AnyStep.step (Step.touch _ _)) = Handler.touch_command
  handler_of (AnyStep.step (Step.mkdir _ _)) = Handler.mkdir_command
  handler_of (AnyStep.step (Step.replace _ _)) = Handler.replace_command
  handler_of (AnyStep.step (Step.insert _ _)) = Handler.insert_command
  handler_of (AnyStep.step (Step.delete _ _)) = Handler.deletelines_command
  handler_of (AnyStep.step (Step.cat _ _)) = Handler.cat_command
  handler_of (AnyStep.step (Step.lines _ _)) = Handler.lines_command
  handler_of (AnyStep.step (Step.head _ _)) = Handler.head_command
  handler_of (AnyStep.step (Step.tail _ _)) = Handler.tail_command
  handler_of (AnyStep.step (Step.wc _ _)) = Handler.wc_command
  handler_of (AnyStep.step (Step.rm _ _ _ _ _)) = Handler.rm_command
  handler_of (AnyStep.step (Step.ls _ _)) = Handler.ls_command
  handler_of (AnyStep.step (Step.stat _)) = Handler.stat_command
  handler_of (AnyStep.step (Step.test _)) = Handler.test_command
  handler_of (AnyStep.step (Step.readlink _)) = Handler.readlink_command
  handler_of (AnyStep.step (Step.chmod _ _)) = Handler.chmod_command
  handler_of (AnyStep.step (Step.chown _ _)) = Handler.chown_command
  handler_of (AnyStep.step (Step.utimens _ _)) = Handler.utimens_command
  handler_of (AnyStep.step (Step.ln _ _)) = Handler.ln_command
  handler_of (AnyStep.step (Step.truncate _ _)) = Handler.truncate_command
  handler_of (AnyStep.step (Step.tree _ _ _ _)) = Handler.tree_command
  handler_of (AnyStep.step (Step.find _ _ _ _)) = Handler.find_command
  handler_of (AnyStep.step (Step.grep _ _ _ _)) = Handler.grep_command
  handler_of (AnyStep.cp _ _ _ _ _) = Handler.cp_command
  handler_of (AnyStep.mv _ _) = Handler.mv_command

  -- A command that is registered as readonly leaves under the key what was there, but for access times:
  -- the same counters, and the same inodes at the same paths with the same attributes, content, children
  -- and targets.
  pub AnyStep-IsUnwritten :
      {s t : Slot (Fs D)} (st : AnyStep D api s t)
      → has_readonly (registration (handler_of st)).1 ≡ true
      → IsUnwritten D s t
  AnyStep-IsUnwritten {s} (AnyStep.step (Step.info args)) r =
      info-Keeps D (IsUnwritten D s) (accessed_slot D s) (pos 0) s args (IsUnwritten-refl D s)
  AnyStep-IsUnwritten {s} (AnyStep.step (Step.echo now args)) r = cc r
  AnyStep-IsUnwritten {s} (AnyStep.step (Step.append now args)) r = cc r
  AnyStep-IsUnwritten {s} (AnyStep.step (Step.touch now args)) r = cc r
  AnyStep-IsUnwritten {s} (AnyStep.step (Step.mkdir now args)) r = cc r
  AnyStep-IsUnwritten {s} (AnyStep.step (Step.replace now args)) r = cc r
  AnyStep-IsUnwritten {s} (AnyStep.step (Step.insert now args)) r = cc r
  AnyStep-IsUnwritten {s} (AnyStep.step (Step.delete now args)) r = cc r
  AnyStep-IsUnwritten {s} (AnyStep.step (Step.cat now args)) r =
      cat-Keeps D (IsUnwritten D s) (accessed_slot D s) now s args (IsUnwritten-refl D s)
  AnyStep-IsUnwritten {s} (AnyStep.step (Step.lines now args)) r =
      lines-Keeps D (IsUnwritten D s) (accessed_slot D s) now api s args (IsUnwritten-refl D s)
  AnyStep-IsUnwritten {s} (AnyStep.step (Step.head now args)) r =
      head_command-Keeps D (IsUnwritten D s) (accessed_slot D s) now api s args
        (IsUnwritten-refl D s)
  AnyStep-IsUnwritten {s} (AnyStep.step (Step.tail now args)) r =
      tail_command-Keeps D (IsUnwritten D s) (accessed_slot D s) now api s args
        (IsUnwritten-refl D s)
  AnyStep-IsUnwritten {s} (AnyStep.step (Step.wc now args)) r =
      wc_command-Keeps D (IsUnwritten D s) (accessed_slot D s) now s args (IsUnwritten-refl D s)
  AnyStep-IsUnwritten {s} (AnyStep.step (Step.rm fuel now args o e)) r = cc r
  AnyStep-IsUnwritten {s} (AnyStep.step (Step.ls now args)) r =
      ls-Keeps D (IsUnwritten D s) (accessed_slot D s) now s args (IsUnwritten-refl D s)
  AnyStep-IsUnwritten {s} (AnyStep.step (Step.stat args)) r =
      stat-Keeps D (IsUnwritten D s) (accessed_slot D s) (pos 0) s args (IsUnwritten-refl D s)
  AnyStep-IsUnwritten {s} (AnyStep.step (Step.test args)) r =
      test-Keeps D (IsUnwritten D s) (accessed_slot D s) (pos 0) s args (IsUnwritten-refl D s)
  AnyStep-IsUnwritten {s} (AnyStep.step (Step.readlink args)) r =
      readlink-Keeps D (IsUnwritten D s) (accessed_slot D s) (pos 0) s args (IsUnwritten-refl D s)
  AnyStep-IsUnwritten {s} (AnyStep.step (Step.chmod now args)) r = cc r
  AnyStep-IsUnwritten {s} (AnyStep.step (Step.chown now args)) r = cc r
  AnyStep-IsUnwritten {s} (AnyStep.step (Step.utimens now args)) r = cc r
  AnyStep-IsUnwritten {s} (AnyStep.step (Step.ln now args)) r = cc r
  AnyStep-IsUnwritten {s} (AnyStep.step (Step.truncate now args)) r = cc r
  AnyStep-IsUnwritten {s} (AnyStep.step (Step.tree fuel args o e)) r =
      rw e at (tree-Keeps D (IsUnwritten D s) fuel api s args (IsUnwritten-refl D s))
  AnyStep-IsUnwritten {s} (AnyStep.step (Step.find fuel args o e)) r =
      rw e at (find-Keeps D (IsUnwritten D s) fuel s args (IsUnwritten-refl D s))
  AnyStep-IsUnwritten {s} (AnyStep.step (Step.grep fuel args o e)) r =
      rw e at (grep-Keeps D (IsUnwritten D s) fuel s args (IsUnwritten-refl D s))
  AnyStep-IsUnwritten {s} (AnyStep.cp fuel now args o e) r = cc r
  AnyStep-IsUnwritten {s} (AnyStep.mv now args) r = cc r
