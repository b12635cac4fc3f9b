-- ===== src/Oleps/Decode/Total.antt =====
-- Unmarshal never panics.
use go_cfb.Base.{ℕ, zero, suc, ◌+◌, ◌*◌, ◌≤◌, ◌≡◌, List, ok, length}
use go_cfb.Oleps.Decode.{Packet, property_packet}

-- A read that succeeds has found its bytes.
abbrev Took : {A : Type 0} → ℕ → List ℕ → A × List ℕ → Type 0
Took n b r = (n ≤ length b) × (length (r.1) + n ≡ length b)

-- The table of `num` properties lies in the set.
module _ (set : List ℕ) (num : ℕ) (table : 8 + num * 8 ≤ length set) where
  -- A property whose byte range has been checked.
  record IsGood (i : ℕ) : Type 0 where
    p : Packet
    found : property_packet set num i ≡ ok p
    starts : p.off ≤ p.end
    ends : p.end ≤ length set

  abbrev AllGood : ℕ → ℕ → Type 0
  AllGood zero i = Unit
  AllGood (suc n) i = IsGood i × AllGood n (i + 1)
