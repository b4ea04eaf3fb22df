-- ===== src/Tests/Changes.antt =====
-- ECHO, MV, LN, CHMOD and TRUNCATE over an association list.
use redis_fs.Base.{
  ℕ, ◌≡◌, refl, true, some, none, [], ◌∷◌, codes, bytes_eq, arith, if◌then◌else◌, ltb, length,
  c_str, byte_at,
}
use redis_fs.Base.ByteStrings.{Bytes}
use redis_fs.Dict.{find}
use redis_fs.Dict.Total.{without}
use redis_fs.Inode.{Inode, file_type, dir_type, inode_create}
use redis_fs.Path.{normalize, is_root, parent}
use redis_fs.Mode.{parse_mode, print_mode}
use redis_fs.Mode.Round.{parse_mode-print_mode}
use redis_fs.Text.Resize.{resized}
use redis_fs.Text.ResizeBytes.{resized_lem}
use redis_fs.Fs.{Fs, object_create, insert, count_in, lookup, ensure_loop, ensure_parents}
use redis_fs.Fs.Leaves.{leaf}
use redis_fs.Command.{
  simple, bulk, stream, empty_key, holds, fresh, open_write, with_path, with_parents, new_or_file,
  with_node,
}
use redis_fs.Command.Write.{echo_at, echo_file}
use redis_fs.Command.Refine.{contents, put, written, echo_at-put}
use redis_fs.Command.Move.{mv_at, mv_free, mv_made}
use redis_fs.Command.Move.Renames.{mv_at-Moved}
use redis_fs.Command.Link.{ln, ln_at, ln_made}
use redis_fs.Command.Link.Reads.{readlink-ln}
use redis_fs.Command.Meta.{stat, chmod, stat_fields, readlink}
use redis_fs.Command.Meta.Reads.{stat-chmod}
use redis_fs.Tests.Stores.{store}
use redis_fs.Tests.Commands.{now, small}

parse_mode-print_mode_example : parse_mode (print_mode 0o4755) ≡ some 0o4755
parse_mode-print_mode_example = parse_mode-print_mode 0o4755 (omega arith)

-- A sign and white space in front of a mode are accepted.
parse_mode-signed : parse_mode (codes " +755") ≡ some 0o755
unfolding parse_mode c_str
parse_mode-signed = refl

resized_lem_example :
    (length (resized 6 (codes "abcd")) ≡ 6)
    × ((i : ℕ)
        → byte_at (resized 6 (codes "abcd")) i ≡ (if ltb i 6 then byte_at (codes "abcd") i else 0))
resized_lem_example = resized_lem 6 (codes "abcd")

abbrev f_inode : Inode
f_inode = inode_create now file_type 0

f-there : lookup store small (c_str (codes "/f")) ≡ some f_inode
unfolding lookup find insert count_in inode_create fresh object_create bytes_eq without c_str
f-there = refl

f-normal : normalize (codes "/f/") ≡ some (codes "/f")
unfolding normalize
f-normal = refl

stat-chmod_example :
    (stat store
      (chmod store now (holds small) (codes "/f/" ∷ print_mode 0o600 ∷ [])).slot
      (codes "/f/" ∷ [])).reply
    ≡ stream (stat_fields (record f_inode { mode = 0o600 }))
stat-chmod_example =
    stat-chmod store now small (codes "/f/") (codes "/f") f_inode 0o600 f-normal f-there
      (omega arith)

ln-replies_ok : (ln store now empty_key (codes "../t" ∷ codes "/l" ∷ [])).reply ≡ simple "OK"
unfolding ln ln_made open_write with_path normalize ln_at is_root c_str with_parents ensure_parents
    ensure_loop parent lookup find insert count_in inode_create fresh object_create bytes_eq without
ln-replies_ok = refl

readlink-ln_example :
    (readlink store
      (ln store now empty_key (codes "../t" ∷ codes "/l" ∷ [])).slot
      (codes "/l" ∷ [])).reply
    ≡ bulk (c_str (codes "../t"))
readlink-ln_example = readlink-ln store now empty_key (codes "../t") (codes "/l") ln-replies_ok

f-leaf : leaf store small (codes "/f") ≡ some f_inode
unfolding leaf lookup find insert count_in inode_create fresh object_create bytes_eq without
f-leaf = refl

mv-replies_ok : (mv_at store now small (codes "/f") (codes "/g")).reply ≡ simple "OK"
unfolding mv_at mv_free mv_made with_node is_root with_parents ensure_parents ensure_loop parent
    lookup find insert count_in inode_create fresh object_create bytes_eq without
mv-replies_ok = refl

mv_at-Moved_example :
    (after : Fs store) × ((mv_at store now small (codes "/f") (codes "/g")).slot ≡ holds after)
    × ((lookup store after (codes "/f") ≡ none)
        × ((j : Bytes)
            → leaf store after j ≡ (
                if bytes_eq (codes "/g") j
                then some f_inode
                else if bytes_eq (codes "/f") j
                then none
                else leaf store small j)))
mv_at-Moved_example =
    mv_at-Moved store now small (codes "/f") (codes "/g") f_inode f-leaf mv-replies_ok

echo-replies_ok : (echo_at store now true (codes "hi") small (codes "/f")).reply ≡ simple "OK"
unfolding echo_at is_root with_parents ensure_parents ensure_loop parent echo_file new_or_file
    lookup find insert count_in inode_create fresh object_create bytes_eq without
echo-replies_ok = refl

echo_at-put_example :
    (after : Fs store) × ((echo_at store now true (codes "hi") small (codes "/f")).slot
      ≡ holds after)
    × ((j : Bytes)
        → contents store after j
          ≡ put
              (contents store small)
              (codes "/f")
              (written true (contents store small (codes "/f")) (codes "hi"))
              j)
echo_at-put_example = echo_at-put store now true (codes "hi") small (codes "/f") echo-replies_ok

-- A directory with nothing in it.
abbrev with_dir : Fs store
with_dir = insert store small (codes "/a") (inode_create now dir_type 0)
