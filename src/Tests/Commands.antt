-- ===== src/Tests/Commands.antt =====
-- Directories, links, commands and saved files over an association list.
use redis_fs.Base.{
  ℤ, ◌≡◌, refl, ◌||◌, Option, none, some, [], ◌∷◌, codes, true, false, NoNul, c_str, bytes_eq,
  add64, sub64,
}
use redis_fs.Base.Int.{pos}
use redis_fs.Dict.{find}
use redis_fs.Dict.Total.{without}
use redis_fs.Inode.{
  Inode, dir_type, file_type, symlink, inode_create, is_symlink, dir_has_child, dir_add_child,
  dir_remove_child,
}
use redis_fs.Inode.Children.{dir_has_child-dir_add_child, dir_remove_child-dir_add_child}
use redis_fs.Path.{normalize, is_root, parent, join}
use redis_fs.Fs.{
  Fs, object_create, lookup, insert, count_in, count_out, remove, write_inode, update_parent,
  unlink_from_parent, follow, resolved, resolve_loop, resolve_path, ensure_loop, ensure_parents,
}
use redis_fs.Fs.Resolve.{resolve_path-no_link}
use redis_fs.Command.{
  simple, bulk, integer, Slot, empty_key, holds, Outcome, fresh, refuse, null, open_write,
  with_path, with_parents, new_or_file,
}
use redis_fs.Command.Write.{echo, echo_opened, echo_at, echo_file}
use redis_fs.Command.Read.{cat}
use redis_fs.Command.Contents.{cat-echo}
use redis_fs.Command.Remove.{maybe_delete_key, rm_at}
use redis_fs.Command.Remove.Gone.{rm_at-gone}
use redis_fs.Tests.Stores.{store}

abbrev pub now : ℤ
now = pos 1000

abbrev directory : Inode
directory = inode_create now dir_type 0

name-NoNul : NoNul (codes "ab")
name-NoNul = (λ e. cc e, (λ e. cc e, tt))

dir_has_child-dir_add_child_example :
    dir_has_child (dir_add_child directory (codes "ab")) (codes "b")
    ≡ (dir_has_child directory (codes "b") || bytes_eq (codes "ab") (codes "b"))
unfolding inode_create
dir_has_child-dir_add_child_example =
    dir_has_child-dir_add_child directory (codes "ab") name-NoNul refl (codes "b")

dir_remove_child-dir_add_child_example :
    dir_remove_child (dir_add_child directory (codes "ab")) (codes "ab") ≡ (directory, true)
unfolding inode_create dir_has_child
dir_remove_child-dir_add_child_example =
    dir_remove_child-dir_add_child directory (codes "ab") name-NoNul refl refl

-- A root directory, a file and a link to it.
abbrev pub link : Inode
link = record (inode_create now file_type 0) { payload = symlink (codes "f") }

abbrev pub small : Fs store
small =
    insert store (insert store (fresh store now) (codes "/f") (inode_create now file_type 0))
      (codes "/l") link

link-resolves : resolve_path store small (codes "/l") ≡ resolved (codes "/f")
unfolding resolve_path resolve_loop lookup find insert count_in inode_create fresh object_create
    bytes_eq without c_str follow join parent
link-resolves = refl

target-there : lookup store small (codes "/f") ≡ some (inode_create now file_type 0)
unfolding lookup find insert count_in inode_create fresh object_create bytes_eq without
target-there = refl

resolve_path-no_link_example : is_symlink (inode_create now file_type 0).payload ≡ false
resolve_path-no_link_example =
    resolve_path-no_link store small (codes "/l") (codes "/f") (inode_create now file_type 0)
      link-resolves target-there

abbrev outcome_of : Option (Outcome (Fs store)) → Outcome (Fs store)
outcome_of o = elim o [ some out ↦ out | none ↦ refuse empty_key null ]

abbrev fs_of : Slot (Fs store) → Fs store
fs_of s = elim s [ holds fs ↦ fs | _ ↦ fresh store now ]

abbrev removal : Outcome (Fs store)
removal = outcome_of (rm_at store 1 now false small (codes "/l"))

removal-ends : rm_at store 1 now false small (codes "/l") ≡ some removal
unfolding rm_at is_root lookup find insert count_in inode_create fresh object_create bytes_eq
    without
removal-ends = refl

removal-one : removal.reply ≡ integer (pos 1)
unfolding rm_at is_root lookup find insert count_in inode_create fresh object_create bytes_eq
    without
removal-one = refl

removal-holds : removal.slot ≡ holds (fs_of removal.slot)
unfolding rm_at is_root lookup find insert count_in inode_create fresh object_create bytes_eq
    without maybe_delete_key remove unlink_from_parent update_parent parent write_inode count_out
    add64 sub64
removal-holds = refl

rm_at-gone_example : lookup store (fs_of removal.slot) (codes "/l") ≡ none
rm_at-gone_example =
    rm_at-gone store now 1 false small (fs_of removal.slot) (codes "/l") removal removal-ends
      removal-one removal-holds

echo-replies_ok : (echo store now empty_key (codes "/f" ∷ codes "hi" ∷ [])).reply ≡ simple "OK"
unfolding echo open_write echo_opened with_path normalize echo_at is_root c_str with_parents
    ensure_parents ensure_loop parent echo_file new_or_file lookup find insert count_in inode_create
    fresh object_create bytes_eq without
echo-replies_ok = refl

cat-echo_example :
    (cat store now
      (echo store now empty_key (codes "/f" ∷ codes "hi" ∷ [])).slot
      (codes "/f" ∷ [])).reply
    ≡ bulk (codes "hi")
cat-echo_example = cat-echo store now now empty_key (codes "/f") (codes "hi") echo-replies_ok
