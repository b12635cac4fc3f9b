-- ===== src/Reader/Header.antt =====
-- parseHeader, validateHeader and checkFileSize of reader.go. `int` and `int64` have 64 bits.
pub mod Fields
pub mod Total
use go_cfb.Base.{
  ℕ, zero, suc, ◌+◌, ◌-◌, ◌*◌, ◌/◌, ◌%◌, ◌^◌, List, Option, none, some, Bool, true, false, not,
  ◌&&◌, ok, err, panic, ◌>>=◌, ◌>>◌, fail_if, ltb, leb, ◌==◌, if◌then◌else◌, length,
}
use go_cfb.Format.{
  header_size, header_signature, byte_order_le, sector_shift_v3, sector_shift_v4, mini_sector_shift,
  mini_stream_cutoff, end_of_chain,
}
use go_cfb.Reader.Errors.{
  Error, Parsed, eof, signature, version, byte_order, sector_shift_3, sector_shift_4, mini_shift,
  dir_count_3, dir_count, no_fat, fat_count, cutoff, mini_fat_start, mini_fat_none, mini_fat_count,
  difat_count, file_size,
}
use go_cfb.Reader.Stream.{ReaderAt}
use Fields.{Header, get_header}

-- p.secSize: the bits of `int64(1) << p.h.SectorShift`.
abbrev pub sec_size : Header → ℕ
sec_size h = 2 ^ h.sector_shift % 2 ^ 64

-- The capacities that validateHeader computes, in uint64 arithmetic.
abbrev pub entries_per_fat : Header → ℕ
entries_per_fat h = sec_size h / 4

abbrev pub entries_per_difat : Header → ℕ
entries_per_difat h = (entries_per_fat h + (2 ^ 64 - 1)) % 2 ^ 64

abbrev pub fat_capacity : Header → ℕ
fat_capacity h = h.num_fat_sectors * entries_per_fat h % 2 ^ 64

unfoldable pub validate_header : Header → Parsed Header
validate_header h = do
  fail_if (not (h.signature == header_signature)) signature
  fail_if (not (h.major == 3) && not (h.major == 4)) version
  fail_if (not (h.byte_order == byte_order_le)) byte_order
  fail_if (h.major == 3 && not (h.sector_shift == sector_shift_v3)) sector_shift_3
  fail_if (h.major == 4 && not (h.sector_shift == sector_shift_v4)) sector_shift_4
  fail_if (not (h.mini_shift == mini_sector_shift)) mini_shift
  fail_if (h.major == 3 && not (h.num_dir_sectors == 0)) dir_count_3
  fail_if (ltb (fat_capacity h) h.num_dir_sectors) dir_count
  fail_if (h.num_fat_sectors == 0) no_fat
  fail_if (ltb ((2 ^ 63 - 1) / sec_size h) h.num_fat_sectors) fat_count
  fail_if (not (h.cutoff == mini_stream_cutoff)) cutoff
  fail_if (h.num_mini_fat_sectors == 0 && not (h.first_mini_fat_sector == end_of_chain))
      mini_fat_start
  fail_if (ltb 0 h.num_mini_fat_sectors && h.first_mini_fat_sector == end_of_chain) mini_fat_none
  fail_if (ltb (fat_capacity h) h.num_mini_fat_sectors) mini_fat_count
  fail_if (ltb (h.num_fat_sectors / entries_per_difat h + 1) h.num_difat_sectors) difat_count
  ok h

unfoldable pub parse_header : ReaderAt → Parsed Header
unfolding get_header
parse_header r = elim ((r 0 header_size).1) [
  | some e ↦ err e
  | none ↦ elim (get_header (r 0 header_size).0) [
    | none ↦ panic
    | some (h, rest) ↦ validate_header h
  ]
]

-- The bytes of the header and of the sectors that it declares.
abbrev pub declared_size : Header → ℕ
declared_size h =
    (1 + h.num_fat_sectors + h.num_difat_sectors + h.num_mini_fat_sectors + h.num_dir_sectors)
    * sec_size h

-- A declared size up to the threshold of 4 MiB is trusted; above it the last byte is probed.
unfoldable pub check_file_size : ReaderAt → Header → Parsed (Unit {0})
check_file_size r h =
    let got = r (declared_size h - 1) 1 in
    if leb (declared_size h) (4 * 2 ^ 20)
    then ok tt
    else if leb 1 (length got.0)
    then ok tt
    else elim (got.1) [ none ↦ err file_size | some eof ↦ err file_size | some e ↦ err e ]
