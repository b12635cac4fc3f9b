-- ===== src/Reader/Header/Total.antt =====
-- parseHeader and checkFileSize end; what a header that is accepted promises.
use go_cfb.Base.{
  ◌+◌, ◌-◌, ◌*◌, ◌/◌, ◌^◌, ◌<◌, ◌≡◌, ◌⊎◌, inl, inr, refl, not, ◌&&◌, none, some, arith,
  Option-cases, ltb, leb, ◌==◌, length, err, false,
}
use go_cfb.Base.Total.{Ends, value, error, Any, Ends-fail_if, Ends-if}
use go_cfb.Bytes.{get_u16, get_u32, get_u64, get_sub, get_u32s}
use go_cfb.Bytes.Bounded.{
  Gives, Gives->>=, Gives-return, Gives-get_u16, Gives-get_u32, Gives-get_u64, Gives-get_sub,
  Gives-get_u32s,
}
use go_cfb.Format.{
  header_size, header_signature, byte_order_le, sector_shift_v3, sector_shift_v4, mini_sector_shift,
  mini_stream_cutoff, end_of_chain, inline_difat,
}
use go_cfb.Reader.Errors.{
  eof, signature, version, byte_order, sector_shift_3, sector_shift_4, mini_shift, dir_count_3,
  dir_count, no_fat, fat_count, cutoff, mini_fat_start, mini_fat_none, mini_fat_count, difat_count,
  file_size,
}
use go_cfb.Reader.Header.{
  sec_size, entries_per_difat, fat_capacity, declared_size, validate_header, parse_header,
  check_file_size,
}
use go_cfb.Reader.Header.Fields.{Header, get_header}
use go_cfb.Reader.Sectors.Total.{Fills}
use go_cfb.Reader.Stream.{ReaderAt}

-- The counts of sectors are 32-bit words.
pub record HasWords (h : Header) : Type 0 where
  pub dirs : h.num_dir_sectors < 2 ^ 32
  pub fats : h.num_fat_sectors < 2 ^ 32
  pub minis : h.num_mini_fat_sectors < 2 ^ 32

Gives-get_header : Gives HasWords 512 get_header
unfolding get_header
Gives-get_header = Gives->>= _ HasWords 8 504 get_u64 _ Gives-get_u64 (λ signature _.
    Gives->>= _ HasWords 16 488 (get_sub 16) _ (Gives-get_sub 16) (λ clsid _.
      Gives->>= _ HasWords 2 486 get_u16 _ Gives-get_u16 (λ minor _.
        Gives->>= _ HasWords 2 484 get_u16 _ Gives-get_u16 (λ major _.
          Gives->>= _ HasWords 2 482 get_u16 _ Gives-get_u16 (λ byte_order _.
            Gives->>= _ HasWords 2 480 get_u16 _ Gives-get_u16 (λ sector_shift _.
              Gives->>= _ HasWords 2 478 get_u16 _ Gives-get_u16 (λ mini_shift _.
                Gives->>= _ HasWords 6 472 (get_sub 6) _ (Gives-get_sub 6) (λ reserved _.
                  Gives->>= _ HasWords 4 468 get_u32 _ Gives-get_u32 (λ num_dir dirs.
                    Gives->>= _ HasWords 4 464 get_u32 _ Gives-get_u32 (λ num_fat fats.
                      Gives->>= _ HasWords 4 460 get_u32 _ Gives-get_u32 (λ first_dir _.
                        Gives->>= _ HasWords 4 456 get_u32 _ Gives-get_u32 (λ txn _.
                          Gives->>= _ HasWords 4 452 get_u32 _ Gives-get_u32 (λ cut _.
                            Gives->>= _ HasWords 4 448 get_u32 _ Gives-get_u32 (λ first_mini _.
                              Gives->>= _ HasWords 4 444 get_u32 _ Gives-get_u32 (λ num_mini minis.
                                Gives->>= _ HasWords 4 440 get_u32 _ Gives-get_u32 (λ first_difat _.
                                  Gives->>= _ HasWords 4 436 get_u32 _ Gives-get_u32 (λ num_difat _.
                                    Gives->>= _ HasWords 436 0 (get_u32s inline_difat) _
                                      (Gives-get_u32s 109)
                                      (λ difat _. Gives-return HasWords _ (record {
                                        dirs = dirs;
                                        fats = fats;
                                        minis = minis;
                                      })))))))))))))))))))

-- The sectors have a size of the format, and there is a FAT.
pub record IsAccepted (h : Header) : Type 0 where
  pub sized : (sec_size h ≡ 512) ⊎ (sec_size h ≡ 4096)
  pub some_fat : 0 < h.num_fat_sectors
  pub words : HasWords h

size_of_shift :
    (h : Header)
    → (h.sector_shift ≡ 9) ⊎ (h.sector_shift ≡ 12)
    → (sec_size h ≡ 512) ⊎ (sec_size h ≡ 4096)
size_of_shift h (inl e) = inl (rw e refl)
size_of_shift h (inr e) = inr (rw e refl)

Ends-validate_header : (h : Header) → HasWords h → Ends IsAccepted (validate_header h)
unfolding validate_header
Ends-validate_header h words = Ends-fail_if (not (h.signature == header_signature)) signature (λ _.
    Ends-fail_if (not (h.major == 3) && not (h.major == 4)) version (λ versions.
      Ends-fail_if (not (h.byte_order == byte_order_le)) byte_order (λ _.
        Ends-fail_if (h.major == 3 && not (h.sector_shift == sector_shift_v3)) sector_shift_3
          (λ third.
            Ends-fail_if (h.major == 4 && not (h.sector_shift == sector_shift_v4)) sector_shift_4
              (λ fourth. Ends-fail_if (not (h.mini_shift == mini_sector_shift)) mini_shift (λ _.
                Ends-fail_if (h.major == 3 && not (h.num_dir_sectors == 0)) dir_count_3 (λ _.
                  Ends-fail_if (ltb (fat_capacity h) h.num_dir_sectors) dir_count (λ _.
                    Ends-fail_if (h.num_fat_sectors == 0) no_fat (λ fat.
                      Ends-fail_if (ltb ((2 ^ 63 - 1) / sec_size h) h.num_fat_sectors) fat_count
                        (λ _. Ends-fail_if (not (h.cutoff == mini_stream_cutoff)) cutoff (λ _.
                          Ends-fail_if
                            (h.num_mini_fat_sectors == 0
                              && not (h.first_mini_fat_sector == end_of_chain))
                            mini_fat_start
                            (λ _.
                              Ends-fail_if
                                (ltb 0 h.num_mini_fat_sectors
                                  && h.first_mini_fat_sector == end_of_chain)
                                mini_fat_none
                                (λ _.
                                  Ends-fail_if (ltb (fat_capacity h) h.num_mini_fat_sectors)
                                    mini_fat_count
                                    (λ _.
                                      Ends-fail_if
                                        (ltb (h.num_fat_sectors / entries_per_difat h + 1)
                                          h.num_difat_sectors)
                                        difat_count
                                        (λ _. value (record {
                                          sized = size_of_shift h (shifts versions third fourth);
                                          some_fat = ground (arith, fat);
                                          words = words;
                                        }))))))))))))))))
  where
    shifts :
        (not (h.major == 3) && not (h.major == 4)) ≡ false
        → (h.major == 3 && not (h.sector_shift == 9)) ≡ false
        → (h.major == 4 && not (h.sector_shift == 12)) ≡ false
        → (h.sector_shift ≡ 9) ⊎ (h.sector_shift ≡ 12)
    shifts versions third fourth = ground (arith, versions, third, fourth)

pub Ends-parse_header : (r : ReaderAt) → Fills r → Ends IsAccepted (parse_header r)
unfolding parse_header
Ends-parse_header r fills = elim (Option-cases (r 0 header_size).1) [
  | inr (x, e) ↦ rw (e, parse_header) error
  | inl e ↦
      let (size, bytes) = fills 0 header_size e in
      let (h, rest, got, used, words, _) =
        Gives-get_header (r 0 header_size).0 bytes (omega (arith, size)) in
      rw (e, got, parse_header) (Ends-validate_header h words)
]

pub Ends-check_file_size : (r : ReaderAt) (h : Header) → Ends Any (check_file_size r h)
unfolding check_file_size
Ends-check_file_size r h = Ends-if (leb (declared_size h) (4 * 2 ^ 20)) (value tt) (
    Ends-if (leb 1 (length (r (declared_size h - 1) 1).0)) (value tt)
      (elim ((r (declared_size h - 1) 1).1)
        as (λ o.
          Ends {A = Unit {0}} Any
            (elim o [ none ↦ err file_size | some eof ↦ err file_size | some e ↦ err e ])) [
              | none ↦ error
              | some eof ↦ error
              | some e ↦ error
            ]))
