-- ===== src/Bytes.antt =====
-- The little-endian buffers of reader.go (readBuf) and writer.go (writeBuf).
--
-- A byte slice is a list of numbers below 256. A read takes its bytes off the front of the list and
-- is `none` where the Go slice expression panics; a write is the list of bytes that it stores, so
-- that a sequence of writes is a concatenation.
pub mod Laws
pub mod Total
pub mod Bounded
use go_cfb.Base.{ℕ, zero, suc, ◌+◌, ◌*◌, ◌/◌, ◌%◌, ◌^◌, Option, none, some, List, [], ◌∷◌, ◌++◌}

abbrev pub Reads : Type 0 → Type 0
Reads A = List ℕ → Option (A × List ℕ)

infixl 5 ◌>>=◌ ◌>>◌
abbrev pub ◌>>=◌ : {A B : Type 0} → Reads A → (A → Reads B) → Reads B
◌>>=◌ m f b = elim (m b) [ none ↦ none | some (a, rest) ↦ f a rest ]

abbrev pub ◌>>◌ : {A B : Type 0} → Reads A → Reads B → Reads B
m >> k = m >>= λ _. k

abbrev pub return : {A : Type 0} → A → Reads A
return a b = some (a, b)

-- readBuf.uint8, uint16, uint32 and uint64.
unfoldable pub get_u8 : Reads ℕ
get_u8 (a ∷ r) = some (a, r)
get_u8 [] = none

unfoldable pub get_u16 : Reads ℕ
get_u16 (a ∷ b ∷ r) = some (a + b * 256, r)
get_u16 _ = none

unfoldable pub get_u32 : Reads ℕ
get_u32 (a ∷ b ∷ c ∷ d ∷ r) = some (a + b * 256 + c * 65536 + d * 16777216, r)
get_u32 _ = none

unfoldable pub get_u64 : Reads ℕ
unfolding get_u32
get_u64 = do lo ← get_u32; hi ← get_u32; return (lo + hi * 2 ^ 32)

-- readBuf.sub
unfoldable pub get_sub : ℕ → Reads (List ℕ)
get_sub zero b = some ([], b)
get_sub (suc n) [] = none
get_sub (suc n) (x ∷ b) = elim (get_sub n b) [ none ↦ none | some (s, r) ↦ some (x ∷ s, r) ]

-- `for i := range out { out[i] = b.uint32() }`, and the same with uint16.
unfoldable pub get_u16s : ℕ → Reads (List ℕ)
get_u16s zero = return []
get_u16s (suc n) = do v ← get_u16; vs ← get_u16s n; return (v ∷ vs)

unfoldable pub get_u32s : ℕ → Reads (List ℕ)
get_u32s zero = return []
get_u32s (suc n) = do v ← get_u32; vs ← get_u32s n; return (v ∷ vs)

-- writeBuf.uint8, uint16, uint32 and uint64. The argument is cut to the width, as by the
-- conversions at the calls.
unfoldable pub put_u8 : ℕ → List ℕ
put_u8 v = (v % 256) ∷ []

unfoldable pub put_u16 : ℕ → List ℕ
put_u16 v = (v % 256) ∷ (v / 256 % 256) ∷ []

unfoldable pub put_u32 : ℕ → List ℕ
put_u32 v = (v % 256) ∷ (v / 256 % 256) ∷ (v / 65536 % 256) ∷ (v / 16777216 % 256) ∷ []

unfoldable pub put_u64 : ℕ → List ℕ
put_u64 v = put_u32 v ++ put_u32 (v / 2 ^ 32)

unfoldable pub put_u16s : List ℕ → List ℕ
put_u16s [] = []
put_u16s (v ∷ vs) = put_u16 v ++ put_u16s vs

unfoldable pub put_u32s : List ℕ → List ℕ
put_u32s [] = []
put_u32s (v ∷ vs) = put_u32 v ++ put_u32s vs
