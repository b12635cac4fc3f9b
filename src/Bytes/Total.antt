-- ===== src/Bytes/Total.antt =====
-- Reads of a buffer that is long enough.
use go_cfb.Base.{ℕ, zero, suc, ◌+◌, ◌*◌, ◌≤◌, ◌≡◌, refl, some, List, [], ◌∷◌, arith, length}
use go_cfb.Bytes.{
  Reads, ◌>>=◌, return, get_u8, get_u16, get_u32, get_u64, get_sub, get_u16s, get_u32s,
}
use go_cfb.Bytes.Laws.{bind-eq_some}

-- The read takes `n` bytes of any buffer that has as many.
abbrev pub Takes : {A : Type 0} → ℕ → Reads A → Type 0
Takes {A} n m =
    (b : List ℕ)
    → n ≤ length b
    → (a : A) × (rest : List ℕ) × (m b ≡ some (a, rest)) × (length rest + n ≡ length b)

pub Takes->>= :
    {A B : Type 0} (n k : ℕ) (m : Reads A) (f : A → Reads B)
    → Takes n m
    → ((a : A) → Takes k (f a))
    → Takes (n + k) (m >>= f)
Takes->>= n k m f p q b long =
    let (a, rest, e, used) = p b (omega arith) in
    let (c, left, e', used') = q a rest (omega arith) in
    (c, left, rw (bind-eq_some m f b e) e', omega arith)

pub Takes-return : {A : Type 0} (a : A) → Takes 0 (return a)
Takes-return a b long = (a, b, refl, omega arith)

pub Takes-get_u8 : Takes 1 get_u8
unfolding get_u8
Takes-get_u8 [] long = absurd (omega arith)
Takes-get_u8 (x ∷ b) long = (x, b, refl, omega arith)

pub Takes-get_u16 : Takes 2 get_u16
unfolding get_u16
Takes-get_u16 (x ∷ y ∷ b) long = (x + y * 256, b, refl, omega arith)
Takes-get_u16 _ long = absurd (omega arith)

pub Takes-get_u32 : Takes 4 get_u32
unfolding get_u32
Takes-get_u32 (x ∷ y ∷ z ∷ w ∷ b) long =
    (x + y * 256 + z * 65536 + w * 16777216, b, refl, omega arith)
Takes-get_u32 _ long = absurd (omega arith)

pub Takes-get_u64 : Takes 8 get_u64
unfolding get_u64
Takes-get_u64 =
    Takes->>= 4 4 get_u32 _ Takes-get_u32
      (λ lo. Takes->>= 4 0 get_u32 _ Takes-get_u32 (λ hi. Takes-return _))

pub Takes-get_sub : (n : ℕ) → Takes n (get_sub n)
unfolding get_sub
Takes-get_sub zero b long = ([], b, refl, omega arith)
Takes-get_sub (suc n) [] long = absurd (omega arith)
Takes-get_sub (suc n) (x ∷ b) long =
    let (s, rest, e, used) = Takes-get_sub n b (omega arith) in
    (x ∷ s, rest, rw e refl, omega arith)

pub Takes-get_u16s : (n : ℕ) → Takes (n * 2) (get_u16s n)
unfolding get_u16s
Takes-get_u16s zero b long = ([], b, refl, omega arith)
Takes-get_u16s (suc n) b long =
    let (vs, rest, e, used) =
      Takes->>= 2 (n * 2 + 0) get_u16 _ Takes-get_u16
        (λ v. Takes->>= (n * 2) 0 (get_u16s n) _ (Takes-get_u16s n) (λ vs. Takes-return _)) b
        (omega arith) in
    (vs, rest, e, omega arith)

pub Takes-get_u32s : (n : ℕ) → Takes (n * 4) (get_u32s n)
unfolding get_u32s
Takes-get_u32s zero b long = ([], b, refl, omega arith)
Takes-get_u32s (suc n) b long =
    let (vs, rest, e, used) =
      Takes->>= 4 (n * 4 + 0) get_u32 _ Takes-get_u32
        (λ v. Takes->>= (n * 4) 0 (get_u32s n) _ (Takes-get_u32s n) (λ vs. Takes-return _)) b
        (omega arith) in
    (vs, rest, e, omega arith)
