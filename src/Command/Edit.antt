-- ===== src/Command/Edit.antt =====
-- module/fs.c: the commands that edit the lines of a file: REPLACE, INSERT and DELETELINES.
use redis_fs.Base.{
  ℕ, zero, suc, ℤ, Bool, true, false, not, ◌&&◌, Option, none, some, List, [], ◌∷◌, ltb, ◌==◌,
  if◌then◌else◌, length, add64, sub64, bytes_eq, map,
}
use redis_fs.Base.Int.{pos, negsuc}
use redis_fs.Base.ByteStrings.{Bytes, codes}
use redis_fs.Dict.{DictApi}
use redis_fs.Glob.{to_lower}
use redis_fs.Inode.{Inode, file_type, inode_create, file_set_data}
use redis_fs.Fs.{Fs, lookup, write_inode, insert, link_to_parent}
use redis_fs.Text.Replace.{Options, replace}
use redis_fs.Text.Insert.{insert_line}
use redis_fs.Text.Delete.{delete_lines}
use redis_fs.Command.{
  Reply, wrong_arity, error, simple, integer, Slot, Outcome, answer, changed, refuse, RedisApi,
  open_write, with_path_unchecked, with_resolved, with_file, with_parents,
}

-- The flags of REPLACE: the options, or the error that their parse ends in.
pub data Flags : Type 0 where
  flags : Options → Flags
  bad_flags : Reply → Flags

abbrev pub no_flags : Options
no_flags = record { replace_all = false; line_range = none }

-- `flaglen == strlen(name) && strncasecmp(flag, name, flaglen) == 0`, for a name without NUL in
-- lower case.
unfoldable pub is_flag : Bytes → Bytes → Bool
is_flag flag name = bytes_eq (map to_lower flag) name

-- `line_start < 1 || line_end < line_start` refuses the range.
unfoldable pub line_bounds : Option ℤ → Option ℤ → Option (ℕ × ℕ)
line_bounds (some (pos (suc a))) (some (pos b)) = if ltb b (suc a) then none else some (suc a, b)
line_bounds _ _ = none

module _ (D : DictApi Inode) (api : RedisApi) where
  open api use {string_to_long_long}

  -- The loop over argv[5..]; a flag that is neither ALL nor LINE is passed over.
  unfoldable pub parse_flags : List Bytes → Options → Flags
  parse_flags [] o = flags o
  parse_flags (flag ∷ []) o =
      if is_flag flag (codes "all")
      then flags (record o { replace_all = true })
      else if is_flag flag (codes "line")
      then bad_flags (error "ERR LINE requires start and end arguments")
      else flags o
  parse_flags (flag ∷ a ∷ []) o =
      let rest =
        parse_flags (a ∷ [])
          (if is_flag flag (codes "all") then record o { replace_all = true } else o) in
      if not (is_flag flag (codes "all")) && is_flag flag (codes "line")
      then bad_flags (error "ERR LINE requires start and end arguments")
      else rest
  parse_flags (flag ∷ a ∷ b ∷ more) o =
      let range = line_bounds (string_to_long_long a) (string_to_long_long b) in
      let rest =
        parse_flags (a ∷ b ∷ more)
          (if is_flag flag (codes "all") then record o { replace_all = true } else o) in
      let past = parse_flags more (record o { line_range = range }) in
      if not (is_flag flag (codes "all")) && is_flag flag (codes "line")
      then elim range [ none ↦ bad_flags (error "ERR invalid LINE range") | some _ ↦ past ]
      else rest

  -- fsFileSetData, the count of the bytes, and mtime.
  unfoldable pub rewrite : ℤ → Fs D → Bytes → Inode → Bytes → Bytes → Fs D
  rewrite now fs path inode old content =
      let fs' = write_inode D fs path (record (file_set_data inode content) { mtime = now }) in
      record fs' {
        total_data_size = add64 (sub64 fs'.total_data_size (length old)) (length content);
      }

  unfoldable pub replace_in :
      ℤ → Options → Bytes → Bytes → Fs D → Bytes → Inode → Bytes → Outcome (Fs D)
  replace_in now o old new fs path inode content =
      let (result, count) = replace o old new content in
      if ltb 0 count
      then changed (rewrite now fs path inode content result) (integer (pos count))
      else answer fs (integer (pos count))

  unfoldable pub replace_file :
      ℤ → Bytes → Bytes → List Bytes → Fs D → Bytes → Inode → Bytes → Outcome (Fs D)
  replace_file now old new args fs path inode content =
      if length old == 0
      then answer fs (error "ERR search string cannot be empty")
      else elim (parse_flags args no_flags) [
        | bad_flags r ↦ answer fs r
        | flags o ↦ replace_in now o old new fs path inode content
      ]

  -- REPLACE_RedisCommand
  unfoldable pub replace_command : ℤ → Slot (Fs D) → List Bytes → Outcome (Fs D)
  replace_command now slot (raw ∷ old ∷ new ∷ args) = open_write D now slot (λ fs.
      with_path_unchecked D fs raw (λ path.
        with_resolved D fs path
          (λ target. with_file D fs target (replace_file now old new args fs target))))
  replace_command now slot _ = refuse slot wrong_arity

  -- INSERT on a file that exists.
  unfoldable pub insert_file : ℤ → ℤ → Bytes → Bytes → Fs D → Outcome (Fs D)
  insert_file now line_num added path fs = with_file D fs path (λ inode content.
      changed (rewrite now fs path inode content (insert_line line_num content added))
        (simple "OK"))

  -- The file that INSERT makes where there is none; its parent's mtime stays.
  unfoldable pub insert_new : ℤ → Bytes → Fs D → Fs D
  insert_new now path fs = link_to_parent D (insert D fs path (inode_create now file_type 0)) path

  unfoldable pub insert_at : ℤ → ℤ → Bytes → Fs D → Bytes → Outcome (Fs D)
  insert_at now line_num added fs path = elim (lookup D fs path) [
    | some _ ↦ insert_file now line_num added path fs
    | none ↦
        with_parents D now fs path "ERR cannot create parent directories"
          (λ fs'. insert_file now line_num added path (insert_new now path fs'))
  ]

  -- The parse of the line number comes after fsNormalizePath, whose result it may free.
  unfoldable pub insert_opened : ℤ → Option ℤ → Bytes → Bytes → Fs D → Outcome (Fs D)
  insert_opened now none added raw fs = answer fs (error "ERR invalid line number")
  insert_opened now (some (negsuc (suc n))) added raw fs =
      answer fs (error "ERR line number must be >= 0 or -1")
  insert_opened now (some line_num) added raw fs =
      with_path_unchecked D fs raw
        (λ path. with_resolved D fs path (insert_at now line_num added fs))

  -- INSERT_RedisCommand
  unfoldable pub insert_command : ℤ → Slot (Fs D) → List Bytes → Outcome (Fs D)
  insert_command now slot (raw ∷ line ∷ added ∷ []) =
      open_write D now slot (insert_opened now (string_to_long_long line) added raw)
  insert_command now slot _ = refuse slot wrong_arity

  unfoldable pub delete_in : ℤ → ℕ → ℕ → Fs D → Bytes → Inode → Bytes → Outcome (Fs D)
  delete_in now start stop fs path inode content =
      if length content == 0
      then answer fs (integer (pos 0))
      else elim (delete_lines start stop content) [
        | none ↦ answer fs (integer (pos 0))
        | some (result, count) ↦
            changed (rewrite now fs path inode content result) (integer (pos count))
      ]

  -- DELETELINES behind its parse of the numbers.
  unfoldable pub delete_opened : ℤ → Option ℤ → Option ℤ → Bytes → Fs D → Outcome (Fs D)
  delete_opened now none stop raw fs = answer fs (error "ERR invalid line number")
  delete_opened now (some start) none raw fs = answer fs (error "ERR invalid line number")
  delete_opened now (some (pos zero)) (some stop) raw fs =
      answer fs (error "ERR start line must be >= 1")
  delete_opened now (some (negsuc n)) (some stop) raw fs =
      answer fs (error "ERR start line must be >= 1")
  delete_opened now (some (pos (suc a))) (some (negsuc n)) raw fs =
      answer fs (error "ERR end line must be >= start line")
  delete_opened now (some (pos (suc a))) (some (pos b)) raw fs =
      if ltb b (suc a)
      then answer fs (error "ERR end line must be >= start line")
      else with_path_unchecked D fs raw (λ path.
        with_resolved D fs path
          (λ target. with_file D fs target (delete_in now (suc a) b fs target)))

  -- DELETELINES_RedisCommand
  unfoldable pub delete_command : ℤ → Slot (Fs D) → List Bytes → Outcome (Fs D)
  delete_command now slot (raw ∷ start ∷ stop ∷ []) =
      open_write D now slot
        (delete_opened now (string_to_long_long start) (string_to_long_long stop) raw)
  delete_command now slot _ = refuse slot wrong_arity
