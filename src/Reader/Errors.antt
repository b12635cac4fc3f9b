-- ===== src/Reader/Errors.antt =====
-- The errors of reader.go: one constructor for each message under ErrFormat, and the errors of the
-- underlying io.ReaderAt.
use go_cfb.Base.{ℕ, Result}

pub data Error : Type 0 where
  -- parseHeader and checkFileSize
  signature version byte_order sector_shift_3 sector_shift_4 mini_shift dir_count_3 : Error
  dir_count no_fat fat_count cutoff mini_fat_start mini_fat_none mini_fat_count : Error
  difat_count file_size : Error
  -- readDIFAT
  difat_entry difat_short difat_sector difat_sector_entry difat_end fat_number : Error
  -- walkChain
  chain_entry chain_outside chain_longer chain_cyclic chain_shorter : Error
  -- the directory
  dir_size stream_size stream_capacity no_entries no_root : Error
  name_length name_end name_text : Error
  no_entry twice_visited second_root object_type no_chain mini_outside : Error
  -- ReadAt: io.EOF, io.ErrUnexpectedEOF, a negative offset, and any other error of the reader
  eof unexpected_eof negative_offset : Error
  io_error : ℕ → Error

abbrev pub Parsed {ℓ} : Type ℓ → Type ℓ
Parsed A = Result Error A
