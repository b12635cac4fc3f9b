-- ===== src/Bytes/Laws.antt =====
-- Reading back what was written, width by width.
use go_cfb.Base.{
  ℕ, ◌*◌, ◌%◌, ◌^◌, ◌≡◌, refl, some, List, [], ◌∷◌, ◌++◌, arith, length, length-append, map,
}
use mathlib.Core.List.{append_assoc}
use go_cfb.Bytes.{
  Reads, ◌>>=◌, get_u8, get_u16, get_u32, get_u64, get_sub, get_u16s, get_u32s, put_u8, put_u16,
  put_u32, put_u64, put_u16s, put_u32s,
}

-- A write of one value stores the value modulo the width.
pub get_u8-put_u8 : (v : ℕ) (r : List ℕ) → get_u8 (put_u8 v ++ r) ≡ some (v % 256, r)
unfolding get_u8 put_u8
get_u8-put_u8 v r = refl

pub get_u16-put_u16 : (v : ℕ) (r : List ℕ) → get_u16 (put_u16 v ++ r) ≡ some (v % 65536, r)
unfolding get_u16 put_u16
get_u16-put_u16 v r = ground arith

pub get_u32-put_u32 : (v : ℕ) (r : List ℕ) → get_u32 (put_u32 v ++ r) ≡ some (v % 2 ^ 32, r)
unfolding get_u32 put_u32
get_u32-put_u32 v r = ground arith

-- A read followed by the rest of a parser.
pub bind-eq_some :
    {A B : Type 0} (m : Reads A) (f : A → Reads B) (b : List ℕ) {a : A} {r : List ℕ}
    → m b ≡ some (a, r)
    → (m >>= f) b ≡ f a r
bind-eq_some m f b e = rw (e, ◌>>=◌)

module _ {B : Type 0} (v : ℕ) (f : ℕ → Reads B) (r : List ℕ) where
  pub bind-put_u8 : (get_u8 >>= f) (put_u8 v ++ r) ≡ f (v % 256) r
  bind-put_u8 = bind-eq_some get_u8 f _ (get_u8-put_u8 v r)

  pub bind-put_u16 : (get_u16 >>= f) (put_u16 v ++ r) ≡ f (v % 65536) r
  bind-put_u16 = bind-eq_some get_u16 f _ (get_u16-put_u16 v r)

  pub bind-put_u32 : (get_u32 >>= f) (put_u32 v ++ r) ≡ f (v % 2 ^ 32) r
  bind-put_u32 = bind-eq_some get_u32 f _ (get_u32-put_u32 v r)

pub get_u64-put_u64 : (v : ℕ) (r : List ℕ) → get_u64 (put_u64 v ++ r) ≡ some (v % 2 ^ 64, r)
unfolding get_u64 put_u64
get_u64-put_u64 v r = simp (append_assoc, bind-put_u32) (ground arith)

pub bind-put_u64 :
    {B : Type 0} (v : ℕ) (f : ℕ → Reads B) (r : List ℕ)
    → (get_u64 >>= f) (put_u64 v ++ r) ≡ f (v % 2 ^ 64) r
bind-put_u64 v f r = bind-eq_some get_u64 f _ (get_u64-put_u64 v r)

pub get_sub-append : (s r : List ℕ) → get_sub (length s) (s ++ r) ≡ some (s, r)
unfolding get_sub
get_sub-append [] r = refl
get_sub-append (x ∷ s) r = rw (get_sub-append s r)

pub get_u16s-put_u16s :
    (vs r : List ℕ) → get_u16s (length vs) (put_u16s vs ++ r) ≡ some (map (λ v. v % 65536) vs, r)
unfolding get_u16s put_u16s
get_u16s-put_u16s [] r = refl
get_u16s-put_u16s (v ∷ vs) r =
    simp (append_assoc, bind-put_u16) (rw (get_u16s-put_u16s vs r, ◌>>=◌))

pub get_u32s-put_u32s :
    (vs r : List ℕ) → get_u32s (length vs) (put_u32s vs ++ r) ≡ some (map (λ v. v % 2 ^ 32) vs, r)
unfolding get_u32s put_u32s
get_u32s-put_u32s [] r = refl
get_u32s-put_u32s (v ∷ vs) r =
    simp (append_assoc, bind-put_u32) (rw (get_u32s-put_u32s vs r, ◌>>=◌))

pub bind-put_u16s :
    {B : Type 0} (n : ℕ) (vs : List ℕ) (f : List ℕ → Reads B) (r : List ℕ)
    → length vs ≡ n
    → (get_u16s n >>= f) (put_u16s vs ++ r) ≡ f (map (λ v. v % 65536) vs) r
bind-put_u16s n vs f r e =
    rw (← e) (bind-eq_some (get_u16s (length vs)) f _ (get_u16s-put_u16s vs r))

pub bind-put_u32s :
    {B : Type 0} (n : ℕ) (vs : List ℕ) (f : List ℕ → Reads B) (r : List ℕ)
    → length vs ≡ n
    → (get_u32s n >>= f) (put_u32s vs ++ r) ≡ f (map (λ v. v % 2 ^ 32) vs) r
bind-put_u32s n vs f r e =
    rw (← e) (bind-eq_some (get_u32s (length vs)) f _ (get_u32s-put_u32s vs r))

pub bind-put_sub :
    {B : Type 0} (n : ℕ) (s : List ℕ) (f : List ℕ → Reads B) (r : List ℕ)
    → length s ≡ n
    → (get_sub n >>= f) (s ++ r) ≡ f s r
bind-put_sub n s f r e = rw (← e) (bind-eq_some (get_sub (length s)) f _ (get_sub-append s r))

pub length-put_u8 : (v : ℕ) → length (put_u8 v) ≡ 1
unfolding put_u8
length-put_u8 v = refl

pub length-put_u16 : (v : ℕ) → length (put_u16 v) ≡ 2
unfolding put_u16
length-put_u16 v = refl

pub length-put_u32 : (v : ℕ) → length (put_u32 v) ≡ 4
unfolding put_u32
length-put_u32 v = refl

pub length-put_u64 : (v : ℕ) → length (put_u64 v) ≡ 8
unfolding put_u64 put_u32
length-put_u64 v = refl

pub length-put_u16s : (vs : List ℕ) → length (put_u16s vs) ≡ 2 * length vs
unfolding put_u16s
length-put_u16s [] = refl
length-put_u16s (v ∷ vs) =
    omega (arith, length-append (put_u16 v) (put_u16s vs), length-put_u16 v, length-put_u16s vs)

pub length-put_u32s : (vs : List ℕ) → length (put_u32s vs) ≡ 4 * length vs
unfolding put_u32s
length-put_u32s [] = refl
length-put_u32s (v ∷ vs) =
    omega (arith, length-append (put_u32 v) (put_u32s vs), length-put_u32 v, length-put_u32s vs)

-- The laws by which a parser runs over what an encoder wrote.
pub ruleset round_trips = (append_assoc, bind-put_u8, bind-put_u16, bind-put_u32, bind-put_u64)
