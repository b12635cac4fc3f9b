-- ===== src/Writer/Header.antt =====
-- patchHeader of writer.go: the file header, from the regions that the serializer has laid out.
pub mod Parse
use go_cfb.Base.{
  ℕ, zero, suc, ◌+◌, ◌-◌, ◌/◌, ◌%◌, min, List, [], ◌∷◌, ◌++◌, ltb, ◌==◌, if◌then◌else◌, replicate,
}
use go_cfb.Bytes.{put_u16, put_u32, put_u64, put_u32s}
use go_cfb.Format.{
  header_size, inline_difat, header_signature, minor_version, byte_order_le, mini_sector_shift,
  mini_stream_cutoff, end_of_chain, free_sect,
}

-- The fields of the serializer that patchHeader reads, and the writer's sector size.
pub record Regions : Type 0 where
  pub sec_size : ℕ
  pub dir_start : ℕ
  pub dir_secs : ℕ
  pub mini_fat_start : ℕ
  pub mini_fat_secs : ℕ
  pub fat_start : ℕ
  pub fat_count : ℕ
  pub difat_start : ℕ
  pub difat_count : ℕ

-- bits.TrailingZeros of a uint; the first argument counts the bits.
unfoldable pub trailing_zeros : ℕ → ℕ → ℕ
trailing_zeros zero n = 0
trailing_zeros (suc bits) n =
    let rest = trailing_zeros bits (n / 2) in if n % 2 == 1 then 0 else suc rest

abbrev pub count_from : ℕ → ℕ → List ℕ
count_from start zero = []
count_from start (suc n) = start ∷ count_from (start + 1) n

abbrev pub major_of : Regions → ℕ
major_of s = if s.sec_size == 4096 then 4 else 3

-- The number of FAT sectors that the header names itself.
abbrev pub inline_of : Regions → ℕ
inline_of s = min s.fat_count inline_difat

-- The two loops over the inline DIFAT.
abbrev pub inline_entries : Regions → List ℕ
inline_entries s =
    count_from s.fat_start (inline_of s) ++ replicate (inline_difat - inline_of s) free_sect

unfoldable pub header_bytes : Regions → List ℕ
header_bytes s =
    put_u64 header_signature
    ++ (replicate 16 0
        ++ (put_u16 minor_version
            ++ (put_u16 (major_of s)
                ++ (put_u16 byte_order_le
                    ++ (put_u16 (trailing_zeros 64 s.sec_size)
                        ++ (put_u16 mini_sector_shift
                            ++ (replicate 6 0
                                ++ (put_u32 (if major_of s == 4 then s.dir_secs else 0)
                                    ++ (put_u32 s.fat_count
                                        ++ (put_u32 s.dir_start
                                            ++ (put_u32 0
                                                ++ (put_u32 mini_stream_cutoff
                                                    ++ (put_u32 (
                                                          if ltb 0 s.mini_fat_secs
                                                          then s.mini_fat_start
                                                          else end_of_chain)
                                                        ++ (put_u32 s.mini_fat_secs
                                                            ++ (put_u32 (
                                                            if ltb 0 s.difat_count
                                                            then s.difat_start
                                                            else end_of_chain)
                                                            ++ (put_u32 s.difat_count
                                                            ++ put_u32s
                                                            (inline_entries s)))))))))))))))))

-- What is written at offset 0: the header, and zeros to the end of the first sector.
unfoldable pub patch_header : Regions → List ℕ
unfolding header_bytes
patch_header s = header_bytes s ++ replicate (s.sec_size - header_size) 0
