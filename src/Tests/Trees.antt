-- ===== src/Tests/Trees.antt =====
-- The tree of paths of a key that ECHO has made, and FIND, RM, TREE and GREP on it.
use redis_fs.Base.{◌≡◌, some, none, List, [], ◌∷◌, codes, NoNul, arith}
use redis_fs.Inode.{has_name}
use redis_fs.Path.{root}
use redis_fs.Fs.{lookup}
use redis_fs.Command.{holds}
use redis_fs.Command.Tree.Shapes.{IsTree}
use redis_fs.Command.Tree.Changes.{shapes}
use redis_fs.Command.Walk.{find_walk}
use redis_fs.Command.Walk.Finds.{passes}
use redis_fs.Command.Walk
use redis_fs.Command.Remove.{rm}
use redis_fs.Command.Remove.Ends.{Returns}
use redis_fs.Session.Returns.{commands_return}
use redis_fs.Session.{Step, Reach, AllArgs}
use redis_fs.Session.Tree.{Reach-IsTree, find_walk-Reach}
use redis_fs.Tests.Stores.{store, api, fs_of, written, written_holds, now}
use redis_fs.Base.ByteStrings.{Bytes}

plain_written : (r : Reach store api written) × AllArgs store api NoNul r
plain_written =
    (Reach.next Reach.start (Step.echo now (codes "/a/b" ∷ codes "hello" ∷ [])), omega arith)

plain_held : (r : Reach store api (holds (fs_of written))) × AllArgs store api NoNul r
plain_held = rw written_holds at plain_written

Reach-IsTree_example : IsTree (shapes store (fs_of written))
Reach-IsTree_example = Reach-IsTree store api (fs_of written) plain_held.0 plain_held.1

find_walk-Reach_example :
    (ps : List Bytes) × (find_walk store 257 (codes "b*") none (fs_of written) root ≡ some ps)
    × ((q : Bytes)
        → has_name ps q
          ≡ passes store (codes "b*") none (fs_of written) (lookup store (fs_of written) q) q)
find_walk-Reach_example =
    find_walk-Reach store api (fs_of written) plain_held.0 plain_held.1 (codes "b*") none

commands_return_example :
    Returns (rm store 257 now written (codes "/a" ∷ codes "recursive" ∷ []))
    × Returns (Walk.tree store api 257 written (codes "/a" ∷ codes "recursive" ∷ []))
    × Returns (Walk.find store 257 written (codes "/a" ∷ codes "recursive" ∷ []))
    × Returns (Walk.grep store 257 written (codes "/a" ∷ codes "recursive" ∷ []))
commands_return_example =
    commands_return store api written plain_written.0 plain_written.1 now
      (codes "/a" ∷ codes "recursive" ∷ [])
