-- ===== src/Session.antt =====
-- A key under a sequence of FS.* commands other than FS.CP and FS.MV, each with arguments of any number
-- and content, at any time. Redis runs one command at a time. Session/Storable has the two as well.
pub mod Storable
pub mod Tree
pub mod Returns
pub mod Foreign
pub mod Readonly
use redis_fs.Base.{
  All, ℕ, ℤ, ◌≡◌, some, List, [], ◌∷◌, ◌%◌, arith, u64_mod, add64, to_long_long, ◌+◌,
}
use redis_fs.Base.ByteStrings.{Bytes}
use redis_fs.Dict.{DictApi}
use redis_fs.Dict.Total.{sum}
use redis_fs.Inode.{Inode}
use redis_fs.Fs.{Fs}
use redis_fs.Fs.Counts.{one_file, one_dir, one_symlink, bytes_of, IsCounted}
use redis_fs.Command.{pairs, Slot, empty_key, holds, Outcome, RedisApi}
use redis_fs.Command.Write
use redis_fs.Command.Edit
use redis_fs.Command.Read
use redis_fs.Command.Remove
use redis_fs.Command.Meta
use redis_fs.Command.Link
use redis_fs.Command.Walk
use redis_fs.Command.Keeps.{Invariant, accessed, SlotHolds}
use redis_fs.Command.Counts.{counts}
use redis_fs.Command.Keeps.Writes.{echo-Keeps, append-Keeps, touch-Keeps, mkdir-Keeps}
use redis_fs.Command.Keeps.Edits.{replace_command-Keeps, insert_command-Keeps, delete_command-Keeps}
use redis_fs.Command.Keeps.Reads.{
  info-Keeps, cat-Keeps, lines-Keeps, head_command-Keeps, tail_command-Keeps, wc_command-Keeps,
}
use redis_fs.Command.Keeps.Removal.{rm-Keeps}
use redis_fs.Command.Keeps.Listing.{ls-Keeps, stat-Keeps, test-Keeps, readlink-Keeps}
use redis_fs.Command.Keeps.Meta.{chmod-Keeps, chown-Keeps, utimens-Keeps}
use redis_fs.Command.Keeps.Link.{ln-Keeps, truncate-Keeps}
use redis_fs.Command.Keeps.Walks.{tree-Keeps, find-Keeps, grep-Keeps}

pub All-any : (args : List Bytes) → All (λ b. Unit {0}) args
All-any [] = tt
All-any (a ∷ args) = (tt, All-any args)

module _ (D : DictApi Inode) (api : RedisApi) where
  -- What a command leaves under its key.
  pub data Step (s : Slot (Fs D)) : Slot (Fs D) → Type 0 where
    info : (args : List Bytes) → Step s (Read.info D s args).slot
    echo : (now : ℤ) (args : List Bytes) → Step s (Write.echo D now s args).slot
    append : (now : ℤ) (args : List Bytes) → Step s (Write.append D now s args).slot
    touch : (now : ℤ) (args : List Bytes) → Step s (Write.touch D now s args).slot
    mkdir : (now : ℤ) (args : List Bytes) → Step s (Write.mkdir D now s args).slot
    replace : (now : ℤ) (args : List Bytes) → Step s (Edit.replace_command D api now s args).slot
    insert : (now : ℤ) (args : List Bytes) → Step s (Edit.insert_command D api now s args).slot
    delete : (now : ℤ) (args : List Bytes) → Step s (Edit.delete_command D api now s args).slot
    cat : (now : ℤ) (args : List Bytes) → Step s (Read.cat D now s args).slot
    lines : (now : ℤ) (args : List Bytes) → Step s (Read.lines D api now s args).slot
    head : (now : ℤ) (args : List Bytes) → Step s (Read.head_command D api now s args).slot
    tail : (now : ℤ) (args : List Bytes) → Step s (Read.tail_command D api now s args).slot
    wc : (now : ℤ) (args : List Bytes) → Step s (Read.wc_command D now s args).slot
    rm :
        (fuel : ℕ) (now : ℤ) (args : List Bytes) (o : Outcome (Fs D))
        → Remove.rm D fuel now s args ≡ some o
        → Step s o.slot
    ls : (now : ℤ) (args : List Bytes) → Step s (Meta.ls D now s args).slot
    stat : (args : List Bytes) → Step s (Meta.stat D s args).slot
    test : (args : List Bytes) → Step s (Meta.test D s args).slot
    readlink : (args : List Bytes) → Step s (Meta.readlink D s args).slot
    chmod : (now : ℤ) (args : List Bytes) → Step s (Meta.chmod D now s args).slot
    chown : (now : ℤ) (args : List Bytes) → Step s (Meta.chown D api now s args).slot
    utimens : (now : ℤ) (args : List Bytes) → Step s (Meta.utimens D api now s args).slot
    ln : (now : ℤ) (args : List Bytes) → Step s (Link.ln D now s args).slot
    truncate : (now : ℤ) (args : List Bytes) → Step s (Link.truncate D api now s args).slot
    tree :
        (fuel : ℕ) (args : List Bytes) (o : Outcome (Fs D))
        → Walk.tree D api fuel s args ≡ some o
        → Step s o.slot
    find :
        (fuel : ℕ) (args : List Bytes) (o : Outcome (Fs D))
        → Walk.find D fuel s args ≡ some o
        → Step s o.slot
    grep :
        (fuel : ℕ) (args : List Bytes) (o : Outcome (Fs D))
        → Walk.grep D fuel s args ≡ some o
        → Step s o.slot

  pub data Reach : Slot (Fs D) → Type 0 where
    start : Reach empty_key
    next : {s t : Slot (Fs D)} → Reach s → Step s t → Reach t

  -- The arguments of a command.
  abbrev pub args_of : {s t : Slot (Fs D)} → Step s t → List Bytes
  args_of (info args) = args
  args_of (echo _ args) = args
  args_of (append _ args) = args
  args_of (touch _ args) = args
  args_of (mkdir _ args) = args
  args_of (replace _ args) = args
  args_of (insert _ args) = args
  args_of (delete _ args) = args
  args_of (cat _ args) = args
  args_of (lines _ args) = args
  args_of (head _ args) = args
  args_of (tail _ args) = args
  args_of (wc _ args) = args
  args_of (rm _ _ args _ _) = args
  args_of (ls _ args) = args
  args_of (stat args) = args
  args_of (test args) = args
  args_of (readlink args) = args
  args_of (chmod _ args) = args
  args_of (chown _ args) = args
  args_of (utimens _ args) = args
  args_of (ln _ args) = args
  args_of (truncate _ args) = args
  args_of (tree _ args _ _) = args
  args_of (find _ args _ _) = args
  args_of (grep _ args _ _) = args

  pub Step-Keeps :
      (V : Invariant D) {s t : Slot (Fs D)} (st : Step s t)
      → All V.Clean (args_of st)
      → V.Held s
      → V.Held t
  Step-Keeps V {s} (info args) l c = info-Keeps D V.Held (accessed D V) (ℤ.pos 0) s args c
  Step-Keeps V {s} (echo now args) l c = echo-Keeps D V now s args l c
  Step-Keeps V {s} (append now args) l c = append-Keeps D V now s args l c
  Step-Keeps V {s} (touch now args) l c = touch-Keeps D V now s args l c
  Step-Keeps V {s} (mkdir now args) l c = mkdir-Keeps D V now s args l c
  Step-Keeps V {s} (replace now args) l c = replace_command-Keeps D V api now s args c
  Step-Keeps V {s} (insert now args) l c = insert_command-Keeps D V api now s args l c
  Step-Keeps V {s} (delete now args) l c = delete_command-Keeps D V api now s args c
  Step-Keeps V {s} (cat now args) l c = cat-Keeps D V.Held (accessed D V) now s args c
  Step-Keeps V {s} (lines now args) l c = lines-Keeps D V.Held (accessed D V) now api s args c
  Step-Keeps V {s} (head now args) l c = head_command-Keeps D V.Held (accessed D V) now api s args c
  Step-Keeps V {s} (tail now args) l c = tail_command-Keeps D V.Held (accessed D V) now api s args c
  Step-Keeps V {s} (wc now args) l c = wc_command-Keeps D V.Held (accessed D V) now s args c
  Step-Keeps V {s} (rm fuel now args o e) l c = rw e at (rm-Keeps D V now fuel s args l c)
  Step-Keeps V {s} (ls now args) l c = ls-Keeps D V.Held (accessed D V) now s args c
  Step-Keeps V {s} (stat args) l c = stat-Keeps D V.Held (accessed D V) (ℤ.pos 0) s args c
  Step-Keeps V {s} (test args) l c = test-Keeps D V.Held (accessed D V) (ℤ.pos 0) s args c
  Step-Keeps V {s} (readlink args) l c = readlink-Keeps D V.Held (accessed D V) (ℤ.pos 0) s args c
  Step-Keeps V {s} (chmod now args) l c = chmod-Keeps D V now s args c
  Step-Keeps V {s} (chown now args) l c = chown-Keeps D V api now s args c
  Step-Keeps V {s} (utimens now args) l c = utimens-Keeps D V api now s args c
  Step-Keeps V {s} (ln now args) l c = ln-Keeps D V now s args l c
  Step-Keeps V {s} (truncate now args) l c = truncate-Keeps D V now api s args c
  Step-Keeps V {s} (tree fuel args o e) l c = rw e at (tree-Keeps D V.Held fuel api s args c)
  Step-Keeps V {s} (find fuel args o e) l c = rw e at (find-Keeps D V.Held fuel s args c)
  Step-Keeps V {s} (grep fuel args o e) l c = rw e at (grep-Keeps D V.Held fuel s args c)

  -- Every command had arguments of a kind.
  abbrev pub AllArgs : (Bytes → Type 0) → {s : Slot (Fs D)} → Reach s → Type 0
  AllArgs C start = Unit
  AllArgs C (next r st) = AllArgs C r × All C (args_of st)

  -- An invariant of the commands holds after any of them.
  pub Reach-Keeps :
      (V : Invariant D) (s : Slot (Fs D)) (r : Reach s)
      → AllArgs V.Clean r
      → V.Held empty_key
      → V.Held s
  Reach-Keeps V empty_key start l b = b
  Reach-Keeps V s (next r st) l b = Step-Keeps V st l.1 (Reach-Keeps V _ r l.0 b)

  pub AllArgs-any : {s : Slot (Fs D)} (r : Reach s) → AllArgs (λ b. Unit {0}) r
  AllArgs-any start = tt
  AllArgs-any (next r st) = (AllArgs-any r, All-any (args_of st))

  -- After any commands other than CP and MV on a key that was empty, the counters of the filesystem
  -- under it, if there is one, agree with its inodes modulo 2^64.
  pub Reach-IsCounted : (fs : Fs D) → Reach (holds fs) → IsCounted D fs
  Reach-IsCounted fs r = Reach-Keeps (counts D) (holds fs) r (AllArgs-any r) tt

  -- After any commands other than CP and MV on a key that was empty, the numbers that INFO replies are
  -- the numbers of its files, directories, symbolic links, bytes of content and inodes, modulo 2^64.
  pub info_reply-Reach :
      (fs : Fs D)
      → Reach (holds fs)
      → Read.info_reply D fs
        ≡ pairs (
            ("files", to_long_long (sum D one_file fs.inodes % u64_mod))
            ∷ ("directories", to_long_long (sum D one_dir fs.inodes % u64_mod))
            ∷ ("symlinks", to_long_long (sum D one_symlink fs.inodes % u64_mod))
            ∷ ("total_data_bytes", to_long_long (sum D bytes_of fs.inodes % u64_mod))
            ∷ (
              "total_inodes",
              to_long_long (
                  (sum D one_file fs.inodes + sum D one_dir fs.inodes + sum D one_symlink fs.inodes)
                  % u64_mod),
            )
            ∷ [])
  unfolding Read.info_reply add64
  info_reply-Reach fs r =
      let c = Reach-IsCounted fs r in
      let bytes : fs.total_data_size ≡ sum D bytes_of fs.inodes % u64_mod = omega arith in
      let total : ((fs.file_count + fs.dir_count) % u64_mod + fs.symlink_count) % u64_mod
          ≡ (sum D one_file fs.inodes + sum D one_dir fs.inodes + sum D one_symlink fs.inodes)
            % u64_mod =
        omega arith in
      cc (c.files, c.dirs, c.symlinks, bytes, total)
