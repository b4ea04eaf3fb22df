-- ===== src/Command/Read.antt =====
-- module/fs.c: the commands that read a file or the counters: INFO, CAT, LINES, HEAD, TAIL and WC.
use redis_fs.Base.{ℕ, zero, suc, ℤ, Option, none, some, List, [], ◌∷◌, c_str, to_long_long, add64}
use redis_fs.Base.Int.{pos, negsuc}
use redis_fs.Base.ByteStrings.{Bytes}
use redis_fs.Dict.{DictApi}
use redis_fs.Inode.{Inode}
use redis_fs.Fs.{Fs, resolved, symlink_loop, path_depth, resolve_path, write_inode}
use redis_fs.Text.Lines.{lines_range}
use redis_fs.Text.Head.{head}
use redis_fs.Text.Tail.{tail}
use redis_fs.Text.Wc.{wc}
use redis_fs.Command.{
  Reply, wrong_arity, error, bulk, pairs, Slot, Outcome, answer, refuse, RedisApi, open_read,
  with_path, with_path_unchecked, with_resolved, with_file, too_many_links,
}

module _ (D : DictApi Inode) where
  -- The replies of INFO.
  unfoldable pub info_reply : Fs D → Reply
  info_reply fs = pairs (
      ("files", to_long_long fs.file_count)
      ∷ ("directories", to_long_long fs.dir_count)
      ∷ ("symlinks", to_long_long fs.symlink_count)
      ∷ ("total_data_bytes", to_long_long fs.total_data_size)
      ∷ ("total_inodes", to_long_long (add64 (add64 fs.file_count fs.dir_count) fs.symlink_count))
      ∷ [])

  -- INFO_RedisCommand
  unfoldable pub info : Slot (Fs D) → List Bytes → Outcome (Fs D)
  info slot [] = open_read D slot (λ fs. answer fs (info_reply fs))
  info slot _ = refuse slot wrong_arity

  -- `inode->atime = fsNowMs()`, and the reply.
  unfoldable pub read_at : ℤ → Fs D → Bytes → Inode → Reply → Outcome (Fs D)
  read_at now fs path inode r = answer (write_inode D fs path (record inode { atime = now })) r

  unfoldable pub cat_file : ℤ → Fs D → Bytes → Outcome (Fs D)
  cat_file now fs path =
      with_file D fs path (λ inode content. read_at now fs path inode (bulk content))

  unfoldable pub cat_at : ℤ → Fs D → Bytes → Outcome (Fs D)
  cat_at now fs path = elim (resolve_path D fs path) [
    | resolved target ↦ cat_file now fs (c_str target)
    | symlink_loop ↦ answer fs too_many_links
    | path_depth ↦ answer fs (error "ERR path depth exceeds limit")
  ]

  -- CAT_RedisCommand
  unfoldable pub cat : ℤ → Slot (Fs D) → List Bytes → Outcome (Fs D)
  cat now slot (raw ∷ []) = open_read D slot (λ fs. with_path D fs raw (cat_at now fs))
  cat now slot _ = refuse slot wrong_arity

  -- The part that LINES, HEAD, TAIL and WC share: the file behind the path and its links, its atime,
  -- and a reply from its content.
  unfoldable pub read_file : ℤ → (Bytes → Reply) → Fs D → Bytes → Outcome (Fs D)
  read_file now f fs path =
      with_resolved D fs path
        (λ target. with_file D fs target (λ inode content. read_at now fs target inode (f content)))

  unfoldable pub read_unchecked : ℤ → (Bytes → Reply) → Fs D → Bytes → Outcome (Fs D)
  read_unchecked now f fs raw = with_path_unchecked D fs raw (read_file now f fs)

  module _ (api : RedisApi) where
    open api use {string_to_long_long}

    -- LINES behind its parse of the start: the parse of the end, -1 where there is none.
    unfoldable pub lines_to : ℕ → Option ℤ → Bytes → Reply
    lines_to start none content = error "ERR invalid end line"
    lines_to start (some (pos zero)) content = error "ERR end line must be >= 1 or -1"
    lines_to start (some (pos (suc n))) content = bulk (lines_range start (some (suc n)) content)
    lines_to start (some (negsuc zero)) content = bulk (lines_range start none content)
    lines_to start (some (negsuc (suc n))) content = error "ERR end line must be >= 1 or -1"

    unfoldable pub lines_from : Option ℤ → Option ℤ → Bytes → Reply
    lines_from none stop content = error "ERR invalid start line"
    lines_from (some (pos zero)) stop content = error "ERR start line must be >= 1"
    lines_from (some (pos (suc n))) stop content = lines_to (suc n) stop content
    lines_from (some (negsuc n)) stop content = error "ERR start line must be >= 1"

    -- LINES_RedisCommand
    unfoldable pub lines : ℤ → Slot (Fs D) → List Bytes → Outcome (Fs D)
    lines now slot (raw ∷ []) = open_read D slot (λ fs. read_unchecked now bulk fs raw)
    lines now slot (raw ∷ start ∷ []) =
        open_read D slot (λ fs.
          read_unchecked now (lines_from (string_to_long_long start) (some (negsuc 0))) fs raw)
    lines now slot (raw ∷ start ∷ stop ∷ []) = open_read D slot (λ fs.
        read_unchecked now (lines_from (string_to_long_long start) (string_to_long_long stop)) fs
          raw)
    lines now slot _ = refuse slot wrong_arity

    -- HEAD and TAIL behind their parse of the count, which comes after fsNormalizePath and before
    -- the links are followed.
    unfoldable pub count_then : ℤ → (ℕ → Bytes → Bytes) → Option ℤ → Bytes → Fs D → Outcome (Fs D)
    count_then now f none raw fs = answer fs (error "ERR invalid line count")
    count_then now f (some (negsuc _)) raw fs = answer fs (error "ERR line count must be >= 0")
    count_then now f (some (pos n)) raw fs =
        read_unchecked now (λ content. bulk (f n content)) fs raw

    -- HEAD_RedisCommand and TAIL_RedisCommand: 10 lines by default.
    unfoldable pub head_command : ℤ → Slot (Fs D) → List Bytes → Outcome (Fs D)
    head_command now slot (raw ∷ []) = open_read D slot (count_then now head (some (pos 10)) raw)
    head_command now slot (raw ∷ n ∷ []) =
        open_read D slot (count_then now head (string_to_long_long n) raw)
    head_command now slot _ = refuse slot wrong_arity

    unfoldable pub tail_command : ℤ → Slot (Fs D) → List Bytes → Outcome (Fs D)
    tail_command now slot (raw ∷ []) = open_read D slot (count_then now tail (some (pos 10)) raw)
    tail_command now slot (raw ∷ n ∷ []) =
        open_read D slot (count_then now tail (string_to_long_long n) raw)
    tail_command now slot _ = refuse slot wrong_arity

  unfoldable pub wc_reply : Bytes → Reply
  wc_reply content =
      let (lines, words, chars) = wc content in
      pairs (("lines", pos lines) ∷ ("words", pos words) ∷ ("chars", pos chars) ∷ [])

  -- WC_RedisCommand
  unfoldable pub wc_command : ℤ → Slot (Fs D) → List Bytes → Outcome (Fs D)
  wc_command now slot (raw ∷ []) = open_read D slot (λ fs. read_unchecked now wc_reply fs raw)
  wc_command now slot _ = refuse slot wrong_arity
