-- ===== src/Reader/Difat/Total.antt =====
-- readDIFAT ends.
use go_cfb.Base.{
  ℕ, zero, suc, ◌+◌, ◌-◌, ◌*◌, ◌/◌, ◌≡◌, not, List, [], ◌∷◌, ◌++◌, ◌==◌, ltb, arith, length,
  Bool-cases, inl, inr,
}
use go_cfb.Base.Total.{Ends, value, error, Any, Ends->>=, Ends-fail_if}
use go_cfb.Bytes.{get_u32, get_u32s}
use go_cfb.Bytes.Total.{Takes, Takes->>=, Takes-return, Takes-get_u32, Takes-get_u32s}
use go_cfb.Format.{end_of_chain, max_reg_sect, free_sect}
use go_cfb.Reader.Errors.{Error, difat_short, difat_sector, difat_end, fat_number}
use go_cfb.Reader.Header.Fields.{Header}
use go_cfb.Reader.Stream.{ReaderAt}
use go_cfb.Reader.Sectors.Total.{Fills, Ends-read_group}
use go_cfb.Reader.Difat.{keep_words, decode_difat, difat_loop, read_difat}
use go_cfb.Reader.Difat.Fields.{get_difat}

Takes-get_difat : (per : ℕ) → Takes (per * 4 + 4) (get_difat per)
unfolding get_difat
Takes-get_difat per =
    Takes->>= (per * 4) 4 (get_u32s per) _ (Takes-get_u32s per)
      (λ vs. Takes->>= 4 0 get_u32 _ Takes-get_u32 (λ next. Takes-return _))

Ends-decode_difat :
    (per : ℕ) (buf : List ℕ) → length buf ≡ per * 4 + 4 → Ends Any (decode_difat per buf)
unfolding decode_difat
Ends-decode_difat per buf sized =
    let (x, rest, e, used) = Takes-get_difat per buf (omega arith) in
    rw (e, decode_difat) (value tt)

Ends-keep_words : (e : Error) (vs : List ℕ) → Ends Any (keep_words e vs)
unfolding keep_words
Ends-keep_words e [] = value tt
Ends-keep_words e (v ∷ vs) = elim (Bool-cases (v == free_sect)) [
  | inl free ↦ rw free (Ends-keep_words e vs)
  | inr used ↦ elim (Bool-cases (ltb max_reg_sect v)) [
    | inl special ↦ rw (used, special) error
    | inr regular ↦ rw (used, regular) (Ends->>= (Ends-keep_words e vs) (λ out _. value tt))
  ]
]

module _ (r : ReaderAt) (fills : Fills r) (sec_size per : ℕ)
    (sized : sec_size ≡ (per + 1) * 4) where
  Ends-difat_loop : (n sec : ℕ) → Ends Any (difat_loop r sec_size n sec)
  unfolding difat_loop
  Ends-difat_loop zero sec = value tt
  Ends-difat_loop (suc n) sec =
      let count : sec_size / 4 - 1 ≡ per = omega (arith, sized) in
      Ends-fail_if (sec == end_of_chain) difat_short (λ _.
        Ends-fail_if (ltb max_reg_sect sec) difat_sector (λ _.
          Ends->>= (Ends-read_group r fills sec_size sec 1) (λ buf e.
            Ends->>= {P = Any} {m = decode_difat (sec_size / 4 - 1) buf}
              (rw count (Ends-decode_difat per buf (omega (arith, e, sized))))
              (λ x _.
                Ends->>= (Ends-keep_words _ _)
                  (λ kept _. Ends->>= (Ends-difat_loop n x.1) (λ rest _. value tt))))))

  pub Ends-read_difat :
      (h : Header) → Ends (λ ss. length ss ≡ h.num_fat_sectors) (read_difat r sec_size h)
  unfolding read_difat
  Ends-read_difat h = Ends->>= (Ends-keep_words _ _) (λ inline _.
      Ends->>= (Ends-difat_loop _ _) (λ chained _.
        Ends-fail_if (not (chained.1 == end_of_chain)) difat_end (λ _.
          Ends-fail_if (not (length (inline ++ chained.0) == h.num_fat_sectors)) fat_number
            (λ same. value (ground (arith, same))))))
