-- ===== src/Session/Tree.antt =====
-- A key under a sequence of commands whose arguments have no NUL: its paths are a tree.
use redis_fs.Base.{NoNul, ◌≡◌, Option, some, List}
use redis_fs.Base.ByteStrings.{Bytes}
use redis_fs.Dict.{DictApi}
use redis_fs.Inode.{Inode, InodeType, has_name}
use redis_fs.Path.{root}
use redis_fs.Fs.{Fs, lookup}
use redis_fs.Command.{holds, RedisApi}
use redis_fs.Command.Tree.{tree}
use redis_fs.Command.Tree.Shapes.{IsTree}
use redis_fs.Command.Tree.Changes.{shapes}
use redis_fs.Command.Walk.{find_walk}
use redis_fs.Command.Walk.Finds.{passes}
use redis_fs.Command.Walk.Found.{find_walk_lem}
use redis_fs.Session.{Reach, AllArgs, Reach-Keeps}

module _ (D : DictApi Inode) (api : RedisApi) where
  -- After any commands other than CP and MV with arguments that have no NUL, on a key that was empty,
  -- the paths of the filesystem are a tree: there is a directory at "/", every other path that is there
  -- is normal and listed by a directory at its parent, and directories list names, none twice, and only
  -- what is there.
  pub Reach-IsTree :
      (fs : Fs D) (r : Reach D api (holds fs)) → AllArgs D api NoNul r → IsTree (shapes D fs)
  Reach-IsTree fs r plain = Reach-Keeps D api (tree D) (holds fs) r plain tt

  -- After any commands other than CP and MV with arguments that have no NUL, on a key that was empty,
  -- fsFindWalk from "/" comes to an end, and lists a path exactly if there is an inode at it whose name
  -- matches the pattern and whose type passes the filter.
  pub find_walk-Reach :
      (fs : Fs D) (r : Reach D api (holds fs))
      → AllArgs D api NoNul r
      → (pattern : Bytes) (filter : Option InodeType)
      → (ps : List Bytes) × (find_walk D 257 pattern filter fs root ≡ some ps)
        × ((q : Bytes) → has_name ps q ≡ passes D pattern filter fs (lookup D fs q) q)
  find_walk-Reach fs r plain = find_walk_lem D fs (Reach-IsTree fs r plain)
