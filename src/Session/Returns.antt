-- ===== src/Session/Returns.antt =====
-- The commands that recurse come to an end on what commands with arguments that have no NUL have left.
use redis_fs.Base.{ℤ, List, NoNul}
use redis_fs.Base.ByteStrings.{Bytes}
use redis_fs.Dict.{DictApi}
use redis_fs.Inode.{Inode}
use redis_fs.Fs.{Fs}
use redis_fs.Command.{Slot, RedisApi}
use redis_fs.Command.Remove.{rm}
use redis_fs.Command.Remove.Ends.{Returns}
use redis_fs.Command.Remove.Returns.{rm-Returns}
use redis_fs.Command.Tree.{tree}
use redis_fs.Command.Walk
use redis_fs.Command.Walk.Returns.{find-Returns, grep-Returns, tree-Returns}
use redis_fs.Session.{Reach, AllArgs, Reach-Keeps}

-- After any commands other than CP and MV with arguments that have no NUL, on a key that was empty, RM,
-- TREE, FIND and GREP come to an end, whatever their own arguments are: calls that are 257 deep are
-- enough.
pub commands_return :
    (D : DictApi Inode) (api : RedisApi) (slot : Slot (Fs D)) (r : Reach D api slot)
    → AllArgs D api NoNul r
    → (now : ℤ) (args : List Bytes)
    → Returns (rm D 257 now slot args)
      × Returns (Walk.tree D api 257 slot args)
      × Returns (Walk.find D 257 slot args)
      × Returns (Walk.grep D 257 slot args)
commands_return D api slot r plain now args =
    let t = Reach-Keeps D api (tree D) slot r plain tt in
    (
      rm-Returns D now slot args t,
      tree-Returns D api slot args t,
      find-Returns D slot args t,
      grep-Returns D slot args t,
    )
