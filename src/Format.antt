-- ===== src/Format.antt =====
-- cfb.go: the sizes, the magic numbers and the special sector values of the format.
use go_cfb.Base.{ℕ, ◌^◌}

-- Sizes and limits.
abbrev pub header_size : ℕ
header_size = 512

abbrev pub direntry_size : ℕ
direntry_size = 128

abbrev pub name_max_units : ℕ
name_max_units = 32

abbrev pub mini_sector_size : ℕ
mini_sector_size = 64

abbrev pub mini_stream_cutoff : ℕ
mini_stream_cutoff = 4096

abbrev pub stream_size_max_v3 : ℕ
stream_size_max_v3 = 2 ^ 31

abbrev pub inline_difat : ℕ
inline_difat = 109

-- Header field magic numbers.
abbrev pub header_signature : ℕ
header_signature = 0xE11AB1A1E011CFD0

abbrev pub minor_version : ℕ
minor_version = 0x3E

abbrev pub byte_order_le : ℕ
byte_order_le = 0xFFFE

abbrev pub sector_shift_v3 : ℕ
sector_shift_v3 = 9

abbrev pub sector_shift_v4 : ℕ
sector_shift_v4 = 12

abbrev pub mini_sector_shift : ℕ
mini_sector_shift = 6

-- Directory entry field values.
abbrev pub object_unallocated : ℕ
object_unallocated = 0

abbrev pub object_storage : ℕ
object_storage = 1

abbrev pub object_stream : ℕ
object_stream = 2

abbrev pub object_root : ℕ
object_root = 5

abbrev pub color_black : ℕ
color_black = 1

abbrev pub no_stream : ℕ
no_stream = 0xFFFFFFFF

-- Special FAT sector values.
abbrev pub max_reg_sect : ℕ
max_reg_sect = 0xFFFFFFFA

abbrev pub dif_sect : ℕ
dif_sect = 0xFFFFFFFC

abbrev pub fat_sect : ℕ
fat_sect = 0xFFFFFFFD

abbrev pub end_of_chain : ℕ
end_of_chain = 0xFFFFFFFE

abbrev pub free_sect : ℕ
free_sect = 0xFFFFFFFF
