-- ===== src/Tests.antt =====
-- The theorems at work: each applied to a concrete input, and runs of the code.
mod Reading
mod Writing
mod Naming
mod Children
mod Tables
mod Opening
mod Properties
mod Files
mod Guids
mod Directories
