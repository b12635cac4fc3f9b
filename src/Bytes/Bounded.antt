-- ===== src/Bytes/Bounded.antt =====
-- Reads of a buffer of bytes: the numbers that they give are below the power of two of their width.
use go_cfb.Base.{
  ℕ, zero, suc, ◌+◌, ◌*◌, ◌^◌, ◌≤◌, ◌<◌, ◌≡◌, refl, some, List, [], ◌∷◌, arith, length,
}
use go_cfb.Base.Total.{Any}
use go_cfb.Bytes.{Reads, ◌>>=◌, return, get_u16, get_u32, get_u64, get_sub, get_u32s}
use go_cfb.Bytes.Laws.{bind-eq_some}

abbrev pub AllBytes : List ℕ → Type 0
AllBytes [] = Unit
AllBytes (x ∷ xs) = (x < 256) × AllBytes xs

-- The read takes `n` bytes of any buffer of as many bytes, and what it gives has the property.
abbrev pub Gives : {A : Type 0} → (A → Type 0) → ℕ → Reads A → Type 0
Gives {A} P n m =
    (b : List ℕ)
    → AllBytes b
    → n ≤ length b
    → (a : A) × (rest : List ℕ) × (m b ≡ some (a, rest))
      × (length rest + n ≡ length b)
      × P a
      × AllBytes rest

pub Gives->>= :
    {A B : Type 0} (P : A → Type 0) (Q : B → Type 0) (n k : ℕ) (m : Reads A) (f : A → Reads B)
    → Gives P n m
    → ((a : A) → P a → Gives Q k (f a))
    → Gives Q (n + k) (m >>= f)
Gives->>= P Q n k m f p q b bytes long =
    let (a, rest, e, used, fine, bytes') = p b bytes (omega arith) in
    let (c, left, e', used', fine', bytes2) = q a fine rest bytes' (omega arith) in
    (c, left, rw (bind-eq_some m f b e) e', omega arith, fine', bytes2)

pub Gives-return : {A : Type 0} (P : A → Type 0) (a : A) → P a → Gives P 0 (return a)
Gives-return P a p b bytes long = (a, b, refl, omega arith, p, bytes)

pub Gives-get_u16 : Gives Any 2 get_u16
unfolding get_u16
Gives-get_u16 (x ∷ y ∷ b) (p, (q, bytes)) long = (x + y * 256, b, refl, omega arith, tt, bytes)
Gives-get_u16 [] bytes long = absurd (omega arith)
Gives-get_u16 (x ∷ []) bytes long = absurd (omega arith)

pub Gives-get_u32 : Gives (λ v. v < 2 ^ 32) 4 get_u32
unfolding get_u32
Gives-get_u32 (x ∷ y ∷ z ∷ w ∷ b) (p, (q, (r, (s, bytes)))) long =
    (x + y * 256 + z * 65536 + w * 16777216, b, refl, omega arith, omega arith, bytes)
Gives-get_u32 [] bytes long = absurd (omega arith)
Gives-get_u32 (x ∷ []) bytes long = absurd (omega arith)
Gives-get_u32 (x ∷ y ∷ []) bytes long = absurd (omega arith)
Gives-get_u32 (x ∷ y ∷ z ∷ []) bytes long = absurd (omega arith)

pub Gives-get_u64 : Gives Any 8 get_u64
unfolding get_u64
Gives-get_u64 =
    Gives->>= _ Any 4 4 get_u32 _ Gives-get_u32
      (λ lo _. Gives->>= _ Any 4 0 get_u32 _ Gives-get_u32 (λ hi _. Gives-return Any _ tt))

pub Gives-get_sub : (n : ℕ) → Gives Any n (get_sub n)
unfolding get_sub
Gives-get_sub zero b bytes long = ([], b, refl, omega arith, tt, bytes)
Gives-get_sub (suc n) [] bytes long = absurd (omega arith)
Gives-get_sub (suc n) (x ∷ b) (small, bytes) long =
    let (s, rest, e, used, _, bytes') = Gives-get_sub n b bytes (omega arith) in
    (x ∷ s, rest, rw e refl, omega arith, tt, bytes')

pub Gives-get_u32s : (n : ℕ) → Gives (λ vs. length vs ≡ n) (n * 4) (get_u32s n)
unfolding get_u32s
Gives-get_u32s zero b bytes long = ([], b, refl, omega arith, refl, bytes)
Gives-get_u32s (suc n) b bytes long =
    let (vs, rest, e, used, size, bytes') =
      Gives->>= _ (λ vs. length vs ≡ suc n) 4 (n * 4 + 0) get_u32 _ Gives-get_u32
        (λ v _.
          Gives->>= _ (λ vs. length vs ≡ suc n) (n * 4) 0 (get_u32s n) _ (Gives-get_u32s n)
            (λ vs size. Gives-return _ _ (omega (arith, size))))
        b bytes (omega arith) in
    (vs, rest, e, omega arith, size, bytes')
