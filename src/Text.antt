-- ===== src/Text.antt =====
-- module/fs.c: what the commands on lines do to the bytes of a file. The commands themselves are in
-- Command.
pub mod Lines
pub mod Head
pub mod Tail
pub mod Wc
pub mod Insert
pub mod Delete
pub mod Replace
pub mod Resize
pub mod ResizeBytes
pub mod Grep
pub mod GrepFilter
pub mod Spec
pub mod HeadLines
pub mod WcCounts
