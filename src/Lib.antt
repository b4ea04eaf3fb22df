-- ===== src/Lib.antt =====
-- redis-fs: the Redis module (C, under module/) that keeps a file system under a Redis key.
--
-- The program. A key holds an `fsObject`: a dictionary from absolute paths to inodes, and four
-- counters. FS.* commands normalize the path they are given (path.c), open the key, follow symbolic
-- links, and read or change the dictionary. A file keeps its bytes and a trigram bloom filter of them,
-- which GREP uses to pass over files. Redis saves and loads a key through RDB callbacks. Redis runs one
-- command at a time, so a history of a key is a sequence of commands.
--
-- The model, file by file.
--   * Path: module/path.c, normalization and the parts of a path. Path/Components splits a path at its
--     slashes and relates fsNormalizePath to that; Path/Normal says what a normalized path is;
--     Path/Parent is about fsParentPath, fsBaseName and fsJoinPath, Path/Depth about fsJoinPath at
--     the depth limit, Path/Plain about texts with no NUL.
--   * Glob: module/path.c, fsGlobMatch and fsGlobMatchNoCase; Glob/Total is about its fuel, Glob/Steps
--     about one round that leads to a match, Glob/Bracket about the end of a class, here and in the
--     filter, and Glob/Later about the text behind a class.
--   * Bloom: module/fs.c, fsBloom*. Bloom/Bits is about single bits, Bloom/Sound about whole contents,
--     Bloom/Occurring and Bloom/Extract about the literal of a pattern.
--   * Mode: module/fs.c, fsParseModeStrict and the text of a mode; Mode/Round is about both.
--   * Inode: module/fs.h and module/fs.c, fsInode with the helpers on directories and file data.
--     Inode/Children is about directories as sets of names.
--   * Dict: the interface DictApi to RedisModuleDict, which Redis implements, with its documented
--     behaviour as laws; Dict/Total sums a measure over a dictionary, Dict/Assoc is an instance.
--   * Fs: module/fs.c, fsObject, fsLookup, fsInsert, fsRemove, fsResolvePath, fsEnsureParents.
--     Fs/Counts relates the counters to the inodes, Fs/Lookup is about reading what was written,
--     Fs/Ensure and Fs/Parents about fsEnsureParents, Fs/Resolve about fsResolvePath, Fs/Leaves about
--     the files and links, which changes of directories leave alone.
--   * Rdb: module/fs.c, FSRdbSave and FSRdbLoad; Rdb/Round is about the two together,
--     Rdb/Cut about a save that is cut short.
--   * Text: module/fs.c, the loops of the line commands over a file's bytes, one file for each.
--     Text/Spec splits a text into lines; Text/HeadLines and Text/WcCounts relate HEAD and WC to such
--     pieces. Text/Grep is GREP's search of one file, Text/GrepFilter the filter in front of it;
--     Text/Resize is what TRUNCATE does to a file, Text/ResizeBytes the bytes of the result.
--   * Command: module/fs.c, the handlers. Command/Write has ECHO, APPEND, TOUCH and MKDIR, Command/Edit
--     REPLACE, INSERT and DELETELINES, Command/Read INFO, CAT, LINES, HEAD, TAIL and WC,
--     Command/Remove RM, with Remove/Gone and Remove/Ends about its effect and its recursion,
--     Command/Meta LS, STAT, TEST, CHMOD, CHOWN, READLINK and UTIMENS, Command/Link LN and TRUNCATE,
--     Command/Walk TREE, FIND and GREP, with Walk/Filter and Walk/Ends about GREP's filters and the
--     recursion, Command/Move CP and MV, with Move/Renames about MV, Move/Storable about the
--     inodes behind both.
--     Command/Keeps has the interface of an invariant of what a key holds, Keeps/Rules what the shared
--     parts of the handlers keep, and the other children follow an invariant through all handlers but
--     CP and MV. Command/Counts fills the interface with the counters, Command/Storable with inodes as
--     the structure in C holds them, Command/Tree with the tree of paths: Tree/Shapes says what a tree
--     is, Tree/Names, Tree/Added and Tree/Removed change one, Tree/Changes and Tree/Deleted are about
--     the changes of the dictionary, Tree/Paths about fsEnsureParents and fsResolvePath. Walk/Finds and
--     Walk/Found are about FIND on a tree.
--     Command/Contents is about what ECHO writes and CAT reads, Meta/Reads
--     about CHMOD and STAT, Link/Reads about LN and READLINK. Command/Refine sets ECHO against a map
--     from paths to contents.
--   * Session: a key under a sequence of commands other than CP and MV, as a relation;
--     Session/Storable has CP and MV as well, and is about GREP and the saved key behind a sequence,
--     Session/Tree about the tree of paths, for arguments with no NUL, and Session/Returns about the
--     recursions on such a tree (with Walk/Returns and Remove/Returns). Session/Readonly is about the
--     commands that Command/Table, the part of RedisModule_OnLoad that registers the handlers, calls
--     readonly, and Session/Foreign about a key of another type.
--   * Base: what these share. Tests: runs on small inputs.
--
-- Conventions. Bytes are natural numbers in a list; a C string is a list cut at its first NUL (c_str),
-- and it is cut where the code calls `strlen`. Counters are `uint64_t`, so they are kept modulo 2^64,
-- and a decrement wraps. Lengths of buffers are natural numbers, and so are line
-- numbers, which GREP keeps in an `int`. A write through a pointer into the dictionary is
-- `write_inode`. A command reads the clock once. A handler returns the value under its
-- key, its reply, and whether it calls RedisModule_ReplicateVerbatim; `crash` is the reply where the
-- code calls `strlen` on NULL. What Redis provides is a parameter: DictApi, and RedisApi for
-- RedisModule_StringToLongLong.
--
-- Fuel. The loop over a path has its length as fuel and takes a byte each round. fsEnsureParents has
-- one more than the length of the path, since a parent is shorter. The glob matcher has one more than
-- the length of the pattern. fsResolvePath has the code's own bound of 40. RM takes fuel for the
-- depth of fsDeleteRecursive as an argument and returns nothing where it runs out; 257 is enough,
-- since a path has at most 256 names. FIND, GREP, TREE and CP take such fuel for their recursions
-- too.
--
-- Not modelled: memory management; FSMemUsage and FSDigest, which only feed numbers to Redis; the
-- registration of the data type and its callbacks with Redis; the clients in Go and Python.
pub mod Base
pub mod Path
pub mod Glob
pub mod Bloom
pub mod Inode
pub mod Dict
pub mod Fs
pub mod Rdb
pub mod Text
pub mod Mode
pub mod Command
pub mod Session
pub mod Tests
