-- ===== src/Tests/Sessions.antt =====
-- What holds of every session, at a key that ECHO and MV have made.
use redis_fs.Base.{
  ◌∷◌, [], ◌≡◌, ◌<◌, refl, true, some, codes, arith, length, u64_mod, c_str, bytes_eq,
}
use redis_fs.Dict.{find}
use redis_fs.Dict.Total.{without}
use redis_fs.Inode.{
  inode_create, dir_add_child, add_name, has_name, file_set_data, dir_has_child, default_mode,
  zero_payload, remove_name, dir_remove_child,
}
use redis_fs.Path.{normalize, is_root, parent, base_name}
use redis_fs.Fs.{
  Fs, object_create, insert, count_in, lookup, update_parent, link_to_parent, write_inode,
  ensure_loop, ensure_parents, make_parent, link_to_parent_at, unlink_from_parent,
}
use redis_fs.Rdb.{rdb_save, rdb_load}
use redis_fs.Rdb.Round.{Same, IsStorable}
use redis_fs.Command.{
  Slot, holds, with_node, fresh, open_write, with_path, with_parents, new_or_file,
}
use redis_fs.Command.Write.{echo, echo_opened, echo_at, echo_file, create, new_file}
use redis_fs.Command.Walk.{hits_here, walk, grep_walk}
use redis_fs.Command.Walk.Filter.{plain_search}
use redis_fs.Session.{Step}
use redis_fs.Session.Storable.{
  AnyStep, History, History-IsStorable, grep_walk-History, rdb_load-Reach,
}
use redis_fs.Command.Move.{mv, mv_at, mv_free, mv_made, rekey}
use redis_fs.Tests.Stores.{store, api, fs_of, written, written_holds, now, held-Reach}

-- The file that ECHO made, under another name.
abbrev moved : Slot (Fs store)
moved = (mv store now (holds (fs_of written)) (codes "/a/b" ∷ codes "/a/c" ∷ [])).slot

moved_holds : moved ≡ holds (fs_of moved)
unfolding mv mv_at mv_free mv_made rekey with_node echo echo_opened echo_at echo_file open_write
    with_path with_parents new_or_file ensure_parents ensure_loop normalize is_root parent lookup
    fresh insert count_in object_create make_parent update_parent c_str find inode_create bytes_eq
    without link_to_parent unlink_from_parent write_inode create link_to_parent_at base_name
    new_file file_set_data dir_add_child
moved_holds = refl

hello-there : lookup store (fs_of moved) (codes "/a/c") ≡ some (new_file store now (codes "hello"))
unfolding mv mv_at mv_free mv_made rekey with_node echo echo_opened echo_at echo_file open_write
    with_path with_parents new_or_file ensure_parents ensure_loop normalize is_root parent lookup
    fresh insert count_in object_create make_parent update_parent c_str find inode_create bytes_eq
    without link_to_parent unlink_from_parent write_inode create link_to_parent_at base_name
    dir_add_child add_name has_name new_file file_set_data default_mode zero_payload remove_name
    dir_remove_child
hello-there = refl

written-History : History store api written
written-History =
    History.next History.start (AnyStep.step (Step.echo now (codes "/a/b" ∷ codes "hello" ∷ [])))

echoed-History : History store api (holds (fs_of written))
echoed-History = rw written_holds at written-History

moved-History : History store api moved
moved-History = History.next echoed-History (AnyStep.mv now (codes "/a/b" ∷ codes "/a/c" ∷ []))

held-History : History store api (holds (fs_of moved))
held-History = rw moved_holds at moved-History

History-IsStorable_example : IsStorable (new_file store now (codes "hello"))
History-IsStorable_example =
    History-IsStorable store api (fs_of moved) held-History (codes "/a/c")
      (new_file store now (codes "hello")) hello-there

grep_walk-History_example :
    grep_walk store 5 true (c_str (codes "h*o")) (fs_of moved) (codes "/")
    ≡ walk store (hits_here (plain_search true (c_str (codes "h*o")))) 5 (fs_of moved) (codes "/")
grep_walk-History_example =
    grep_walk-History store api (fs_of moved) held-History true (codes "h*o") 5 (codes "/")

written-three : length (store.entries (fs_of written).inodes) ≡ 3
unfolding echo echo_opened echo_at echo_file open_write with_path with_parents new_or_file
    ensure_parents ensure_loop normalize is_root parent lookup fresh insert count_in object_create
    make_parent update_parent c_str find inode_create bytes_eq without link_to_parent write_inode
    create link_to_parent_at base_name dir_add_child add_name has_name new_file file_set_data
    dir_has_child default_mode zero_payload
written-three = refl

written-few : length (store.entries (fs_of written).inodes) < u64_mod
written-few = omega (arith, written-three)

rdb_load-Reach_example :
    (other : Fs store) × (rdb_load store (rdb_save store (fs_of written)) 0 ≡ some other)
    × Same store (fs_of written) other
rdb_load-Reach_example = rdb_load-Reach store api (fs_of written) held-Reach written-few
