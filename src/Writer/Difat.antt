-- ===== src/Writer/Difat.antt =====
-- emitDIFAT of writer.go.
pub mod Words
pub mod Read
use go_cfb.Base.{
  ℕ, zero, suc, ◌+◌, ◌-◌, ◌*◌, ◌/◌, ◌%◌, ◌^◌, Bool, true, false, List, [], ◌∷◌, ◌++◌, ltb,
  if◌then◌else◌,
}
use go_cfb.Bytes.{put_u32, put_u32s}
use go_cfb.Format.{inline_difat, end_of_chain, free_sect}
use go_cfb.Writer.Header.{Regions}
use go_cfb.Writer.Stream.{Sink, Shared, cw_write}

-- The inner loop: `n` entries, for the FAT sectors from number `idx` on.
unfoldable pub difat_words : Regions → ℕ → ℕ → List ℕ
difat_words s idx zero = []
difat_words s idx (suc n) =
    (if ltb idx s.fat_count then s.fat_start + idx else free_sect) ∷ difat_words s (idx + 1) n

abbrev pub per_difat : Regions → ℕ
per_difat s = s.sec_size / 4 - 1

-- The number of the first FAT sector of the DIFAT sector `i`.
abbrev pub difat_index : Regions → ℕ → ℕ
difat_index s i = inline_difat + i * per_difat s

abbrev pub difat_next : Regions → ℕ → ℕ
difat_next s i = if ltb (i + 1) s.difat_count then s.difat_start + i + 1 else end_of_chain

unfoldable pub difat_bytes : Regions → ℕ → List ℕ
difat_bytes s i =
    put_u32s (difat_words s (difat_index s i) (per_difat s)) ++ put_u32 (difat_next s i)

-- The loop: `n` more sectors, from `i` on. The writer after it, and whether it succeeded.
unfoldable pub difat_sectors : Sink → Shared → Regions → ℕ → ℕ → Shared × Bool
difat_sectors sink w s zero i = (w, true)
difat_sectors sink w s (suc n) i =
    let written = cw_write sink w (difat_bytes s i) in
    let next = difat_sectors sink (written.0) s n (i + 1) in
    if written.1 then next else (written.0, false)

unfoldable pub emit_difat : Sink → Shared → Regions → Shared × Bool
emit_difat sink w s = difat_sectors sink w s s.difat_count 0
