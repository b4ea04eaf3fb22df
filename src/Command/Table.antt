-- ===== src/Command/Table.antt =====
-- module/fs.c, RedisModule_OnLoad: the commands as they are registered with Redis, each with its name
-- and flags. The first key, the last key and the step are 1 for all of them.
use redis_fs.Base.{Bool, true, false, List, [], ◌∷◌, String}

-- The handlers: `info_command` is INFO_RedisCommand, and so on.
pub data Handler : Type 0 where
  info_command echo_command cat_command lines_command replace_command insert_command : Handler
  deletelines_command head_command tail_command wc_command append_command rm_command : Handler
  touch_command mkdir_command ls_command stat_command test_command chmod_command : Handler
  chown_command ln_command readlink_command cp_command mv_command tree_command : Handler
  find_command grep_command truncate_command utimens_command : Handler

pub data Flag : Type 0 where
  readonly write deny_oom fast : Flag

-- The name and the flags that RedisModule_CreateCommand is given for a handler.
abbrev pub registration : Handler → String × List Flag
registration info_command = ("FS.INFO", readonly ∷ fast ∷ [])
registration echo_command = ("FS.ECHO", write ∷ deny_oom ∷ [])
registration cat_command = ("FS.CAT", readonly ∷ [])
registration lines_command = ("FS.LINES", readonly ∷ [])
registration replace_command = ("FS.REPLACE", write ∷ deny_oom ∷ [])
registration insert_command = ("FS.INSERT", write ∷ deny_oom ∷ [])
registration deletelines_command = ("FS.DELETELINES", write ∷ [])
registration head_command = ("FS.HEAD", readonly ∷ [])
registration tail_command = ("FS.TAIL", readonly ∷ [])
registration wc_command = ("FS.WC", readonly ∷ [])
registration append_command = ("FS.APPEND", write ∷ deny_oom ∷ [])
registration rm_command = ("FS.RM", write ∷ [])
registration touch_command = ("FS.TOUCH", write ∷ deny_oom ∷ [])
registration mkdir_command = ("FS.MKDIR", write ∷ deny_oom ∷ [])
registration ls_command = ("FS.LS", readonly ∷ [])
registration stat_command = ("FS.STAT", readonly ∷ fast ∷ [])
registration test_command = ("FS.TEST", readonly ∷ fast ∷ [])
registration chmod_command = ("FS.CHMOD", write ∷ [])
registration chown_command = ("FS.CHOWN", write ∷ [])
registration ln_command = ("FS.LN", write ∷ deny_oom ∷ [])
registration readlink_command = ("FS.READLINK", readonly ∷ fast ∷ [])
registration cp_command = ("FS.CP", write ∷ deny_oom ∷ [])
registration mv_command = ("FS.MV", write ∷ deny_oom ∷ [])
registration tree_command = ("FS.TREE", readonly ∷ [])
registration find_command = ("FS.FIND", readonly ∷ [])
registration grep_command = ("FS.GREP", readonly ∷ [])
registration truncate_command = ("FS.TRUNCATE", write ∷ [])
registration utimens_command = ("FS.UTIMENS", write ∷ [])

-- Whether "readonly" is among the flags.
abbrev pub has_readonly : List Flag → Bool
has_readonly [] = false
has_readonly (readonly ∷ flags) = true
has_readonly (_ ∷ flags) = has_readonly flags
