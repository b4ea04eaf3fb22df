-- ===== src/Command/Link.antt =====
-- module/fs.c: LN_RedisCommand and TRUNCATE_RedisCommand.
pub mod Reads
use redis_fs.Base.{
  ℕ, ◌-◌, ℤ, Option, none, some, List, [], ◌∷◌, ◌++◌, if◌then◌else◌, ltb, ◌==◌, length, take,
  replicate, c_str, add64, sub64,
}
use redis_fs.Base.Int.{pos, negsuc}
use redis_fs.Base.ByteStrings.{Bytes}
use redis_fs.Bloom.{bloom_build, empty_bloom}
use redis_fs.Dict.{DictApi}
use redis_fs.Inode.{Inode, file, symlink, symlink_type, inode_create}
use redis_fs.Path.{is_root}
use redis_fs.Fs.{Fs, lookup, insert, write_inode, link_to_parent_at}
use redis_fs.Command.{
  wrong_arity, error, simple, Slot, Outcome, answer, changed, refuse, RedisApi, open_write,
  with_path, with_parents, with_node, with_target,
}
use redis_fs.Text.Resize.{resized, resized_bloom, resized_total}

module _ (D : DictApi Inode) where
  -- The target is kept as a C string.
  unfoldable pub new_link : ℤ → Bytes → Inode
  new_link now target = record (inode_create now symlink_type 0) {
    payload = symlink (c_str target);
  }

  unfoldable pub ln_made : ℤ → Bytes → Bytes → Fs D → Outcome (Fs D)
  ln_made now target path fs =
      changed (link_to_parent_at D now (insert D fs path (new_link now target)) path) (simple "OK")

  unfoldable pub ln_at : ℤ → Bytes → Fs D → Bytes → Outcome (Fs D)
  ln_at now target fs path =
      if is_root path
      then answer fs (error "ERR cannot create symlink at root")
      else elim (lookup D fs path) [
        | some _ ↦ answer fs (error "ERR path already exists")
        | none ↦ with_parents D now fs path "ERR parent path conflict" (ln_made now target path)
      ]

  -- LN_RedisCommand
  unfoldable pub ln : ℤ → Slot (Fs D) → List Bytes → Outcome (Fs D)
  ln now slot (target ∷ raw ∷ []) =
      open_write D now slot (λ fs. with_path D fs raw (ln_at now target fs))
  ln now slot _ = refuse slot wrong_arity

  unfoldable pub resize : ℤ → ℕ → Fs D → Bytes → Inode → Bytes → Bytes → Fs D
  resize now newlen fs path inode old bloom =
      let fs' = write_inode D fs path (record inode {
        payload = file (resized newlen old) (resized_bloom newlen old bloom);
        mtime = now;
      }) in
      record fs' { total_data_size = resized_total newlen (length old) fs'.total_data_size }

  -- TRUNCATE of a file, behind the parse of the length.
  unfoldable pub truncate_to : ℤ → Option ℤ → Fs D → Bytes → Inode → Bytes → Bytes → Outcome (Fs D)
  truncate_to now (some (pos newlen)) fs path inode old bloom =
      changed (resize now newlen fs path inode old bloom) (simple "OK")
  truncate_to now _ fs path inode old bloom =
      answer fs (error "ERR length must be a non-negative integer")

  unfoldable pub truncate_node : ℤ → Option ℤ → Fs D → Bytes → Inode → Outcome (Fs D)
  truncate_node now n fs path inode = elim inode.payload [
    | file old bloom ↦ truncate_to now n fs path inode old bloom
    | _ ↦ answer fs (error "ERR not a file")
  ]

  unfoldable pub truncate_at : ℤ → Option ℤ → Fs D → Bytes → Outcome (Fs D)
  truncate_at now n fs path = with_target D fs path (λ target.
      with_node D fs target "ERR no such file or directory" (truncate_node now n fs target))

  module _ (api : RedisApi) where
    open api use {string_to_long_long}

    -- TRUNCATE_RedisCommand
    unfoldable pub truncate : ℤ → Slot (Fs D) → List Bytes → Outcome (Fs D)
    truncate now slot (raw ∷ n ∷ []) =
        open_write D now slot
          (λ fs. with_path D fs raw (truncate_at now (string_to_long_long n) fs))
    truncate now slot _ = refuse slot wrong_arity
