-- ===== src/Reader/Difat/Fields.antt =====
-- The reads of readDIFAT of reader.go in one sector: its entries, and the number of the next sector.
use go_cfb.Base.{ℕ, List}
use go_cfb.Bytes.{Reads, ◌>>=◌, get_u32, get_u32s, return}

unfoldable pub get_difat : ℕ → Reads (List ℕ × ℕ)
get_difat per = do vs ← get_u32s per; next ← get_u32; return (vs, next)
