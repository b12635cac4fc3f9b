-- ===== src/Reader/Difat.antt =====
-- readDIFAT of reader.go: the sector numbers of the FAT.
pub mod Fields
pub mod Total
use go_cfb.Base.{
  ℕ, zero, suc, ◌+◌, ◌-◌, ◌/◌, Bool, not, List, [], ◌∷◌, ◌++◌, none, some, ok, err, panic, ◌>>=◌,
  ◌>>◌, fail_if, ltb, ◌==◌, if◌then◌else◌, length,
}
use go_cfb.Format.{max_reg_sect, end_of_chain, free_sect}
use go_cfb.Reader.Errors.{
  Error, Parsed, difat_entry, difat_short, difat_sector, difat_sector_entry, difat_end, fat_number,
}
use go_cfb.Reader.Header.Fields.{Header}
use go_cfb.Reader.Sectors.{read_group}
use go_cfb.Reader.Stream.{ReaderAt}
use Fields.{get_difat}

-- The loops over the entries: free entries are skipped, and `e` is the error for special values.
unfoldable pub keep_words : Error → List ℕ → Parsed (List ℕ)
keep_words e [] = ok []
keep_words e (v ∷ vs) =
    let rest = keep_words e vs in
    let kept = (rest >>= λ out. ok (v ∷ out)) in
    if v == free_sect then rest else if ltb max_reg_sect v then err e else kept

-- The entries of a DIFAT sector, and the number of the next one.
unfoldable pub decode_difat : ℕ → List ℕ → Parsed (List ℕ × ℕ)
decode_difat per buf = elim (get_difat per buf) [ none ↦ panic | some (x, rest) ↦ ok x ]

-- The loop over the chain of DIFAT sectors, and `sec` after it.
unfoldable pub difat_loop : ReaderAt → ℕ → ℕ → ℕ → Parsed (List ℕ × ℕ)
difat_loop r sec_size zero sec = ok ([], sec)
difat_loop r sec_size (suc n) sec = do
  fail_if (sec == end_of_chain) difat_short
  fail_if (ltb max_reg_sect sec) difat_sector
  buf ← read_group r sec_size sec 1
  x ← decode_difat (sec_size / 4 - 1) buf
  kept ← keep_words difat_sector_entry (x.0)
  rest ← difat_loop r sec_size n (x.1)
  ok (kept ++ rest.0, rest.1)

unfoldable pub read_difat : ReaderAt → ℕ → Header → Parsed (List ℕ)
read_difat r sec_size h = do
  inline ← keep_words difat_entry h.difat
  chained ← difat_loop r sec_size h.num_difat_sectors h.first_difat_sector
  fail_if (not (chained.1 == end_of_chain)) difat_end
  fail_if (not (length (inline ++ chained.0) == h.num_fat_sectors)) fat_number
  ok (inline ++ chained.0)
