-- ===== src/Command/Meta/Reads.antt =====
-- CHMOD and STAT: the mode that is set is replied.
use redis_fs.Base.{ℕ, ℤ, ◌≡◌, ◌≤◌, ◌∙◌, some, [], ◌∷◌, c_str, bytes_eq_refl}
use redis_fs.Base.ByteStrings.{Bytes}
use redis_fs.Dict.{DictApi}
use redis_fs.Inode.{Inode}
use redis_fs.Path.{normalize}
use redis_fs.Mode.{print_mode}
use redis_fs.Mode.Round.{parse_mode-print_mode}
use redis_fs.Fs.{Fs, lookup, write_inode}
use redis_fs.Fs.Lookup.{lookup-write_inode}
use redis_fs.Command.{stream, holds, open_write, open_read, with_path, with_node}
use redis_fs.Command.Meta.{chmod, chmod_at, chmod_node, stat, stat_at, stat_fields}

module _ (D : DictApi Inode) where
  -- If CHMOD is given the text of a mode of at most 07777 for a path where there is an inode, STAT
  -- then replies the inode with that mode, and everything else as it was.
  pub stat-chmod :
      (now : ℤ) (fs : Fs D) (raw p : Bytes) (i : Inode) (m : ℕ)
      → normalize raw ≡ some p
      → lookup D fs (c_str p) ≡ some i
      → m ≤ 0o7777
      → (stat D (chmod D now (holds fs) (raw ∷ print_mode m ∷ [])).slot (raw ∷ [])).reply
        ≡ stream (stat_fields (record i { mode = m }))
  unfolding stat chmod open_read open_write with_path chmod_at with_node chmod_node stat_at
  stat-chmod now fs raw p i m e there small =
      let parsed = parse_mode-print_mode m small in
      let after = write_inode D fs (c_str p) (record i { mode = m }) in
      let here : lookup D after (c_str p) ≡ some (record i { mode = m }) =
        lookup-write_inode D fs (c_str p) (c_str p) (record i { mode = m })
        ∙ rw (bytes_eq_refl (c_str p)) in
      rw (with_path, e, chmod_at, with_node, there, chmod_node, parsed, stat_at, here)
