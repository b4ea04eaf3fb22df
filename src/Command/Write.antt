-- ===== src/Command/Write.antt =====
-- module/fs.c: ECHO_RedisCommand, APPEND_RedisCommand, TOUCH_RedisCommand and MKDIR_RedisCommand.
use redis_fs.Base.{
  ◌&&◌, ℤ, Bool, true, false, none, some, List, [], ◌∷◌, if◌then◌else◌, length, add64, sub64, ◌++◌,
}
use redis_fs.Base.Int.{pos}
use redis_fs.Base.ByteStrings.{Bytes}
use redis_fs.Dict.{DictApi}
use redis_fs.Inode.{
  Inode, InodeType, file_type, dir_type, inode_create, file_set_data, file_append_data, is_dir,
}
use redis_fs.Path.{is_root, parent}
use redis_fs.Fs.{Fs, lookup, insert, write_inode, link_to_parent_at}
use redis_fs.Command.{
  wrong_arity, error, simple, integer, Slot, Outcome, answer, changed, refuse, is_option,
  open_write, with_path, with_parents, new_or_file,
}

module _ (D : DictApi Inode) where
  -- A new inode at `path`, its data counted, and its name in the parent directory.
  unfoldable pub create : ℤ → Fs D → Bytes → Inode → Bytes → Fs D
  create now fs path inode content =
      let fs' = insert D fs path inode in
      link_to_parent_at D now
        (record fs' { total_data_size = add64 fs'.total_data_size (length content) }) path

  unfoldable pub new_file : ℤ → Bytes → Inode
  new_file now content = file_set_data (inode_create now file_type 0) content

  -- The branch of ECHO and APPEND for a file that exists.
  unfoldable pub append_to : ℤ → Fs D → Bytes → Inode → Bytes → Fs D
  append_to now fs path existing content =
      let fs' =
        write_inode D fs path (record (file_append_data existing content) { mtime = now }) in
      record fs' { total_data_size = add64 fs'.total_data_size (length content) }

  unfoldable pub overwrite : ℤ → Fs D → Bytes → Inode → Bytes → Bytes → Fs D
  overwrite now fs path existing old content =
      let fs' = write_inode D fs path (record (file_set_data existing content) { mtime = now }) in
      record fs' {
        total_data_size = add64 (sub64 fs'.total_data_size (length old)) (length content);
      }

  -- ECHO behind its parse of the options, on a normalized path whose parents exist.
  unfoldable pub echo_file : ℤ → Bool → Bytes → Bytes → Fs D → Outcome (Fs D)
  echo_file now append content path fs =
      new_or_file D fs path "ERR path exists and is not a file"
        (changed (create now fs path (new_file now content) content) (simple "OK"))
        (λ existing old.
          changed
            (if append
              then append_to now fs path existing content
              else overwrite now fs path existing old content)
            (simple "OK"))

  unfoldable pub echo_at : ℤ → Bool → Bytes → Fs D → Bytes → Outcome (Fs D)
  echo_at now append content fs path =
      if is_root path
      then answer fs (error "ERR cannot write to root directory")
      else with_parents D now fs path
          "ERR parent path conflict — a non-directory exists in the path"
          (echo_file now append content path)

  unfoldable pub echo_opened : ℤ → Bool → Bytes → Bytes → Fs D → Outcome (Fs D)
  echo_opened now append raw content fs = with_path D fs raw (echo_at now append content fs)

  -- ECHO_RedisCommand
  unfoldable pub echo : ℤ → Slot (Fs D) → List Bytes → Outcome (Fs D)
  echo now slot (raw ∷ content ∷ []) = open_write D now slot (echo_opened now false raw content)
  echo now slot (raw ∷ content ∷ opt ∷ []) =
      if is_option opt "append"
      then open_write D now slot (echo_opened now true raw content)
      else refuse slot (error "ERR syntax error — expected APPEND")
  echo now slot _ = refuse slot wrong_arity

  unfoldable pub append_file : ℤ → Bytes → Bytes → Fs D → Outcome (Fs D)
  append_file now content path fs =
      new_or_file D fs path "ERR not a file"
        (changed (create now fs path (new_file now content) content)
          (integer (pos (length content))))
        (λ existing old.
          changed (append_to now fs path existing content)
            (integer (pos (length (old ++ content)))))

  unfoldable pub append_at : ℤ → Bytes → Fs D → Bytes → Outcome (Fs D)
  append_at now content fs path =
      if is_root path
      then answer fs (error "ERR cannot append to root directory")
      else with_parents D now fs path "ERR parent path conflict" (append_file now content path)

  -- APPEND_RedisCommand
  unfoldable pub append : ℤ → Slot (Fs D) → List Bytes → Outcome (Fs D)
  append now slot (raw ∷ content ∷ []) =
      open_write D now slot (λ fs. with_path D fs raw (append_at now content fs))
  append now slot _ = refuse slot wrong_arity

  -- An empty inode at `path`, and its name in the parent directory.
  unfoldable pub create_empty : ℤ → InodeType → Bytes → Fs D → Fs D
  create_empty now type path fs =
      link_to_parent_at D now (insert D fs path (inode_create now type 0)) path

  unfoldable pub touch_file : ℤ → Bytes → Fs D → Fs D
  touch_file now path fs = elim (lookup D fs path) [
    | none ↦ create_empty now file_type path fs
    | some existing ↦ write_inode D fs path (record existing { mtime = now; atime = now })
  ]

  unfoldable pub touch_at : ℤ → Fs D → Bytes → Outcome (Fs D)
  touch_at now fs path =
      with_parents D now fs path "ERR parent path conflict"
        (λ fs'. changed (touch_file now path fs') (simple "OK"))

  -- TOUCH_RedisCommand
  unfoldable pub touch : ℤ → Slot (Fs D) → List Bytes → Outcome (Fs D)
  touch now slot (raw ∷ []) = open_write D now slot (λ fs. with_path D fs raw (touch_at now fs))
  touch now slot _ = refuse slot wrong_arity

  -- MKDIR without PARENTS looks for the parent directory.
  unfoldable pub parent_is_dir : Fs D → Bytes → Bool
  parent_is_dir fs path = elim (lookup D fs (parent path)) [
    | none ↦ false
    | some pnode ↦ is_dir pnode.payload
  ]

  unfoldable pub mkdir_made : ℤ → Bytes → Fs D → Outcome (Fs D)
  mkdir_made now path fs = changed (create_empty now dir_type path fs) (simple "OK")

  unfoldable pub mkdir_new : ℤ → Bool → Fs D → Bytes → Outcome (Fs D)
  mkdir_new now parents fs path =
      if parents
      then with_parents D now fs path "ERR parent path conflict" (mkdir_made now path)
      else if parent_is_dir fs path
      then mkdir_made now path fs
      else answer fs (error "ERR parent directory does not exist")

  unfoldable pub mkdir_at : ℤ → Bool → Fs D → Bytes → Outcome (Fs D)
  mkdir_at now parents fs path = elim (lookup D fs path) [
    | some existing ↦
        if is_dir existing.payload && parents
        then answer fs (simple "OK")
        else answer fs (error "ERR path already exists")
    | none ↦ mkdir_new now parents fs path
  ]

  -- MKDIR_RedisCommand
  unfoldable pub mkdir : ℤ → Slot (Fs D) → List Bytes → Outcome (Fs D)
  mkdir now slot (raw ∷ []) =
      open_write D now slot (λ fs. with_path D fs raw (mkdir_at now false fs))
  mkdir now slot (raw ∷ opt ∷ []) =
      if is_option opt "parents"
      then open_write D now slot (λ fs. with_path D fs raw (mkdir_at now true fs))
      else refuse slot (error "ERR syntax error — expected PARENTS")
  mkdir now slot _ = refuse slot wrong_arity
