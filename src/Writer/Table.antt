-- ===== src/Writer/Table.antt =====
-- fatRun and writeChainTable of writer.go.
--
-- The sector buffer is the list of its 32-bit words. slices.SortFunc is an insertion sort: the order
-- of runs with the same first sector, of which all but one are empty, does not matter.
pub mod Words
pub mod Sorted
pub mod Written
use go_cfb.Base.{
  ℕ, zero, suc, ◌+◌, ◌-◌, ◌*◌, ◌/◌, ◌%◌, ◌^◌, min, max, Bool, true, false, ◌&&◌, not, List, [], ◌∷◌,
  leb, ltb, ◌==◌, if◌then◌else◌, set, replicate,
}
use go_cfb.Bytes.{put_u32s}
use go_cfb.Format.{free_sect}
use go_cfb.Writer.Stream.{Sink, Shared, cw_write}

-- fatRun
pub record FatRun : Type 0 where
  pub first : ℕ
  pub count : ℕ
  pub terminal : ℕ
  pub linear : Bool

abbrev pub run_end : FatRun → ℕ
run_end r = (r.first + r.count) % 2 ^ 32

unfoldable pub insert_run : FatRun → List FatRun → List FatRun
insert_run r [] = r ∷ []
insert_run r (s ∷ rs) = if leb r.first s.first then r ∷ s ∷ rs else s ∷ insert_run r rs

unfoldable pub sort_runs : List FatRun → List FatRun
unfolding insert_run
sort_runs [] = []
sort_runs (r ∷ rs) = insert_run r (sort_runs rs)

-- The loop that advances the cursor. What is left of the list stands for the cursor.
unfoldable pub skip_runs : ℕ → List FatRun → List FatRun
skip_runs base [] = []
skip_runs base (r ∷ rs) = if leb (run_end r) base then skip_runs base rs else r ∷ rs

-- The word for the sector `i` of a run.
unfoldable pub word_at : FatRun → ℕ → ℕ
word_at r i =
    if r.linear && not (i == (r.first + r.count + (2 ^ 32 - 1)) % 2 ^ 32) then i + 1 else r.terminal

-- The innermost loop, over `n` sectors from `i` on.
unfoldable pub fill_words : ℕ → FatRun → ℕ → ℕ → List ℕ → List ℕ
fill_words base r zero i sect = sect
fill_words base r (suc n) i sect = fill_words base r n (i + 1) (set sect (i - base) (word_at r i))

-- The loop over the runs from the cursor on.
unfoldable pub fill_runs : ℕ → ℕ → List FatRun → List ℕ → List ℕ
unfolding fill_words
fill_runs base end [] sect = sect
fill_runs base end (r ∷ rs) sect =
    let lo = max base r.first in
    let hi = min end (run_end r) in
    let next = fill_runs base end rs (fill_words base r (hi - lo) lo sect) in
    if ltb r.first end then next else sect

-- The words of the sector `k`, from the cursor on.
unfoldable pub table_sector : ℕ → ℕ → List FatRun → List ℕ
unfolding fill_runs
table_sector per base left = fill_runs base ((base + per) % 2 ^ 32) left (replicate per free_sect)

-- The loop: `n` more sectors, from `k` on. The writer after it, and whether it succeeded.
unfoldable pub table_sectors : Sink → Shared → ℕ → ℕ → ℕ → List FatRun → Shared × Bool
unfolding skip_runs table_sector
table_sectors sink w per zero k runs = (w, true)
table_sectors sink w per (suc n) k runs =
    let base = k * per % 2 ^ 32 in
    let left = skip_runs base runs in
    let written = cw_write sink w (put_u32s (table_sector per base left)) in
    let next = table_sectors sink (written.0) per n (k + 1) left in
    if written.1 then next else (written.0, false)

unfoldable pub write_chain_table : Sink → Shared → ℕ → List FatRun → Shared × Bool
write_chain_table sink w n runs = table_sectors sink w (w.sec_size / 4) n 0 (sort_runs runs)
