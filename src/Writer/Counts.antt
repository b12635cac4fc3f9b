-- ===== src/Writer/Counts.antt =====
-- computeFATCounts of writer.go: the numbers of FAT and DIFAT sectors.
pub mod Least
use go_cfb.Base.{
  ℕ, zero, suc, ◌+◌, ◌-◌, ◌*◌, ◌/◌, ◌≤◌, ◌<◌, max, Bool, ◌&&◌, Option, none, some, ltb, ◌==◌,
  if◌then◌else◌,
}
use go_cfb.Format.{inline_difat}

-- One round: the FAT sectors for all sectors so far, and the DIFAT sectors for that many.
unfoldable pub next_fat : ℕ → ℕ → ℕ → ℕ → ℕ
next_fat prefix per fats difats = max ((prefix + fats + difats + per - 1) / per) 1

unfoldable pub next_difat : ℕ → ℕ → ℕ
next_difat per fats =
    if ltb inline_difat fats then (fats - inline_difat + per - 2) / (per - 1) else 0

-- `none`: the fuel ran out.
unfoldable pub count_loop : ℕ → ℕ → ℕ → ℕ → ℕ → Option (ℕ × ℕ)
count_loop zero prefix per fats difats = none
count_loop (suc fuel) prefix per fats difats =
    let fats' = next_fat prefix per fats difats in
    let difats' = next_difat per fats' in
    let rest = count_loop fuel prefix per fats' difats' in
    if fats' == fats && difats' == difats then some (fats', difats') else rest

-- The counts grow in each round and stay within twice the sectors that are already there.
unfoldable pub compute_fat_counts : ℕ → ℕ → Option (ℕ × ℕ)
compute_fat_counts prefix per = count_loop (2 * prefix + 4) prefix per 0 0
