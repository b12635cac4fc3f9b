-- ===== src/Writer.antt =====
-- writer.go: the stream writers and the serializer.
pub mod Header
pub mod Counts
pub mod Layout
pub mod Stream
pub mod Storage
pub mod Mini
pub mod Close
pub mod Difat
pub mod Table
pub mod Direntry
pub mod Directory
