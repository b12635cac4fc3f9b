-- ===== src/Reader.antt =====
-- reader.go: what the parser and the streams that it builds do.
pub mod Errors
pub mod Chain
pub mod Runs
pub mod Stream
pub mod Header
pub mod Entry
pub mod Lookup
pub mod Build
pub mod Directory
pub mod Tree
pub mod Open
pub mod Sectors
pub mod Difat
