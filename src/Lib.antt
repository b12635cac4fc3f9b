-- ===== src/Lib.antt =====
-- go-cfb: reading and writing of Compound File Binary files (reader.go, writer.go, fs.go, name.go,
-- casetable.go, cfb.go, internal/filetime, internal/guid) and of OLE property sets (oleps).
--
-- The program. A compound file is a header, a file allocation table (FAT) that links sectors into
-- chains, a directory whose entries are linked into search trees, and a mini stream with a FAT of its
-- own for small streams. The reader parses the header, the FATs and the directory, and resolves the
-- chain of a stream into runs of file bytes that Stream.ReadAt reads. The writer sends the content of
-- streams through a counting writer as they come, keeps the runs of sectors of each, and on Close lays
-- out the directory and the FATs and writes the header in front. The property sets of oleps are the
-- content of streams; the package works on byte slices only.
--
-- Modules, with the code that they model.
--   Base        shared names, lists over the native numbers, the outcome of a call (Outcome), calls that
--               end without a panic (Total), signed integers (Int), the binary search of the slices
--               package (Search)
--   Bytes       readBuf of reader.go and writeBuf of writer.go
--   Format      the constants of cfb.go
--   FileTime    Decode and Encode of internal/filetime/filetime.go
--   Name        encodeName, compareNames, compareNamesStr, appendName and toUpper of name.go; Table is
--               the table of casetable.go, Utf16 the encoding of unicode/utf16
--   Reader      reader.go: Header (parseHeader, validateHeader, checkFileSize), Sectors (readSectors,
--               loadFAT, loadMiniFAT), Difat (readDIFAT), Chain (walkChain), Entry (parseEntry),
--               Directory (parseEntries), Runs (resolveRegularRuns, resolveMiniRuns), Stream
--               (Stream.ReadAt), Build (loadMiniStream, buildStream), Tree (walkBST, buildStorage),
--               Open (NewReader), Lookup (findEntry, OpenStream, OpenStorage)
--   Fs          fs.go: Open, ReadDir, splitPath and the file infos
--   Guid        internal/guid/guid.go: Parse, MustParse, Format
--   Writer      writer.go: Header (patchHeader), Direntry (direntry, encodeDirentry, emptyDirentry),
--               Counts (computeFATCounts), Table (writeChainTable), Difat (emitDIFAT), Layout (linkBST),
--               Directory (assignLayout, layoutDirectory, emitDirectory), Stream (StreamWriter.Write,
--               flush, countWriter.Write, sectorIdx), Mini (writeMini),
--               Close (StreamWriter.Close), Storage (CreateStream, CreateStorage, validateChildName)
--   Oleps       oleps: the types of oleps.go and value.go; Codepage (codepage.go), Decode (decode.go and
--               the decoders of value.go), Encode (encode.go and the encoders of value.go)
--   Tests       each theorem at a concrete input, and runs of the code
-- The children of a module are named for what they prove of it.
--
-- How the code is modelled. A byte slice is a list of numbers below 256, a string the list of its
-- runes, or of its bytes in Oleps and Guid. Integers are natural numbers; where the source's fixed
-- width can matter, `% 2 ^ w` is written out. A call is a function of the state before it and returns
-- the state after it. An error is a value: one constructor for each message (Reader/Errors, TimeError,
-- WriteError, OlepsError, FsError, GuidError). A Go panic is the outcome `panic`, or `none` where a
-- buffer is too short. io.ReaderAt, io.Writer and the text encodings of golang.org/x/text are
-- parameters; what a theorem asks of them is a hypothesis.
--
-- Bounds and fuel. walkChain runs on `length fat + 2` rounds, which is enough since a longer chain is
-- refused; the loops that read in batches (loadFAT, parseEntries) on the number of sectors, since each
-- batch takes one; readDIFAT on the number of DIFAT sectors in the header; walkBST on the number of
-- entries and one more, since each call below the first marks another entry; computeFATCounts on
-- `2 * prefix + 4` rounds, since the counts grow and stay below that; Write and writeMini on
-- `length p + 1` rounds, since each takes a byte; linkBST on the number of children, which is more than
-- the depth of the tree; align of oleps on three rounds. `int` and `int64` have 64 bits.
--
-- Memory. `make` of a slice of more than 2 ^ 48 bytes panics, which is the limit of Go's run time on
-- 64-bit systems. The panic is written out for walkChain, whose capacity comes from a 64-bit field of
-- the file; the capacities of all other slices come from 32-bit counts and stay below the limit.
-- Running out of memory is left out.
--
-- Not modelled: serializer.init, emitFAT, seekOnce, Writer.Close, and AddFS; of emitDirectory, the
-- padding of the last sector. Left out for good are the operating system calls (OpenReader, birthtime),
-- the readers and writers of io that oleps.Decode and oleps.Encode take, the bindings and helpers under
-- internal/structuredstorage and internal/cfbtest, and the generator internal/casetablegen.
pub mod Base
pub mod Bytes
pub mod Format
pub mod FileTime
pub mod Name
pub mod Reader
pub mod Writer
pub mod Fs
pub mod Guid
pub mod Oleps
mod Tests
