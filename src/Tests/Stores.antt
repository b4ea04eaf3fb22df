-- ===== src/Tests/Stores.antt =====
-- The filesystem and its commands over an association list.
use redis_fs.Base.{
  ℤ, ◌≡◌, refl, none, some, arith, ◌⊎◌, [], ◌∷◌, codes, c_str, bytes_eq, false, ◌%◌, ◌+◌, u64_mod,
  to_long_long,
}
use redis_fs.Base.Int.{pos}
use redis_fs.Dict.{DictApi, find}
use redis_fs.Dict.Total.{sum, without}
use redis_fs.Dict.Assoc.{assoc}
use redis_fs.Inode.{Inode, inode_create}
use redis_fs.Path.{normalize, is_root, parent}
use redis_fs.Fs.{
  Fs, object_create, insert, count_in, lookup, update_parent, link_to_parent, write_inode,
  ensure_loop, ensure_parents, make_parent,
}
use redis_fs.Fs.Counts.{IsCounted, one_file, one_dir, one_symlink, bytes_of}
use redis_fs.Fs.Ensure.{HasParent, ensure_loop_ends}
use redis_fs.Fs.Parents.{lookup-ensure_parents}
use redis_fs.Command.{
  pairs, RedisApi, Slot, empty_key, holds, fresh, open_write, with_path, with_parents, new_or_file,
}
use redis_fs.Command.Write.{echo, echo_opened, echo_at, echo_file}
use redis_fs.Command.Read.{info_reply}
use redis_fs.Session.{Step, Reach, Reach-IsCounted, info_reply-Reach}

abbrev pub store : DictApi Inode
store = assoc Inode

-- No text is a number.
abbrev pub api : RedisApi
api = record { string_to_long_long = λ b. none }

abbrev pub now : ℤ
now = pos 1000

abbrev pub written : Slot (Fs store)
written = (echo store now empty_key (codes "/a/b" ∷ codes "hello" ∷ [])).slot

written-Reach : Reach store api written
written-Reach = Reach.next Reach.start (Step.echo now (codes "/a/b" ∷ codes "hello" ∷ []))

abbrev pub fs_of : Slot (Fs store) → Fs store
fs_of s = elim s [ holds fs ↦ fs | _ ↦ fresh store now ]

pub written_holds : written ≡ holds (fs_of written)
unfolding echo echo_opened echo_at echo_file open_write with_path with_parents new_or_file
    ensure_parents ensure_loop normalize is_root parent lookup fresh insert count_in object_create
    make_parent update_parent c_str find inode_create bytes_eq without link_to_parent write_inode
written_holds = refl

pub held-Reach : Reach store api (holds (fs_of written))
held-Reach = rw written_holds at written-Reach

Reach-IsCounted_example : IsCounted store (fs_of written)
Reach-IsCounted_example = Reach-IsCounted store api (fs_of written) held-Reach

info_reply-Reach_example :
    info_reply store (fs_of written)
    ≡ pairs (
        ("files", to_long_long (sum store one_file (fs_of written).inodes % u64_mod))
        ∷ ("directories", to_long_long (sum store one_dir (fs_of written).inodes % u64_mod))
        ∷ ("symlinks", to_long_long (sum store one_symlink (fs_of written).inodes % u64_mod))
        ∷ ("total_data_bytes", to_long_long (sum store bytes_of (fs_of written).inodes % u64_mod))
        ∷ (
          "total_inodes",
          to_long_long (
              (sum store one_file (fs_of written).inodes
                + sum store one_dir (fs_of written).inodes
                + sum store one_symlink (fs_of written).inodes)
              % u64_mod),
        )
        ∷ [])
info_reply-Reach_example = info_reply-Reach store api (fs_of written) held-Reach

ensure_loop_ends_example :
    (ensure_loop store 5 now (fresh store now) (codes "/a/b")
      ≡ some (ensure_parents store now (fresh store now) (codes "/a/b")))
    × (((ensure_parents store now (fresh store now) (codes "/a/b")).1 ≡ false)
        ⊎ HasParent store
            (ensure_parents store now (fresh store now) (codes "/a/b")).0
            (codes "/a/b"))
ensure_loop_ends_example =
    ensure_loop_ends store now 5 (fresh store now) (codes "/a/b") (omega arith)

lookup-ensure_parents_example :
    lookup store (ensure_parents store now (fresh store now) (codes "/a/b")).0 (codes "/a/b")
    ≡ lookup store (fresh store now) (codes "/a/b")
lookup-ensure_parents_example = lookup-ensure_parents store now (fresh store now) (codes "/a/b")
