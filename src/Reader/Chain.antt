-- ===== src/Reader/Chain.antt =====
-- walkChain of reader.go. The FAT is a list of 32-bit words.
pub mod Walk
use go_cfb.Base.{
  ℕ, zero, suc, ◌+◌, ◌-◌, ◌*◌, ◌^◌, ◌≤◌, ◌<◌, ◌≡◌, ◌≢◌, Bool, true, false, ◌&&◌, List, [], ◌∷◌,
  ◌++◌, Result, ok, err, panic, stuck, ltb, leb, ◌==◌, if◌then◌else◌, length, get_or,
}
use go_cfb.Format.{max_reg_sect, end_of_chain}
use go_cfb.Reader.Errors.{
  Parsed, chain_entry, chain_outside, chain_longer, chain_cyclic, chain_shorter,
}

-- What follows the loop: the check that the chain is not too short.
unfoldable pub chain_end : ℕ → List ℕ → Parsed (List ℕ)
chain_end num chain = if ltb 0 num && ltb (length chain) num then err chain_shorter else ok chain

-- `chain` is what the loop has collected, in order. The index `fat[sec]` is in range, by the test
-- above it.
unfoldable pub walk_loop : ℕ → List ℕ → ℕ → ℕ → List ℕ → Parsed (List ℕ)
unfolding chain_end
walk_loop zero fat num sec chain = stuck
walk_loop (suc fuel) fat num sec chain =
    let chain' = chain ++ (sec ∷ []) in
    let next = walk_loop fuel fat num (get_or fat sec 0) chain' in
    if sec == end_of_chain
    then chain_end num chain
    else if ltb max_reg_sect sec
    then err chain_entry
    else if leb (length fat) sec
    then err chain_outside
    else if ltb 0 num && ltb num (length chain')
    then err chain_longer
    else if ltb (length fat) (length chain')
    then err chain_cyclic
    else next

-- The most bytes that Go's run time allocates for a slice on 64-bit systems; `make` panics above.
abbrev pub max_alloc : ℕ
max_alloc = 2 ^ 48

-- cmp.Or(numSectors, 64)
abbrev chain_capacity : ℕ → ℕ
chain_capacity num = if num == 0 then 64 else num

-- First the slice of 32-bit words is made. A chain that is not refused has at most one entry for each
-- word of the FAT, so the loop makes at most `length fat + 1` rounds after the first.
unfoldable pub walk_chain : List ℕ → ℕ → ℕ → Parsed (List ℕ)
unfolding walk_loop
walk_chain fat first num =
    let walked = walk_loop (length fat + 2) fat num first [] in
    if ltb max_alloc (4 * chain_capacity num) then panic else walked

-- The specification: `chain` lists the sectors from `sec` on, each a regular sector with a word in
-- the FAT that names the next, up to the end marker.
abbrev pub Links : List ℕ → ℕ → List ℕ → Type 0
Links fat sec [] = sec ≡ end_of_chain
Links fat sec (x ∷ xs) =
    (x ≡ sec)
    × (x ≢ end_of_chain)
    × (x ≤ max_reg_sect)
    × (x < length fat)
    × Links fat (get_or fat x 0) xs
