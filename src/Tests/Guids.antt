-- ===== src/Tests/Guids.antt =====
-- Runs of the code of GUIDs.
use go_cfb.Base.{ℕ, ◌≡◌, refl, List, [], ◌∷◌, ok, arith}
use go_cfb.Guid.{parse, format}
use go_cfb.Guid.RoundTrip.{AllBytes, parse-format}

abbrev sample : List ℕ
sample = 0 ∷ 11 ∷ 46 ∷ 242 ∷ 26 ∷ 0 ∷ 192 ∷ 160 ∷ 7 ∷ 8 ∷ 9 ∷ 10 ∷ 11 ∷ 84 ∷ 111 ∷ 255 ∷ []

sample-AllBytes : AllBytes sample
sample-AllBytes = (
  omega arith,
  (
    omega arith,
    (
      omega arith,
      (
        omega arith,
        (
          omega arith,
          (
            omega arith,
            (
              omega arith,
              (
                omega arith,
                (
                  omega arith,
                  (
                    omega arith,
                    (
                      omega arith,
                      (omega arith, (omega arith, (omega arith, (omega arith, (omega arith, tt))))),
                    ),
                  ),
                ),
              ),
            ),
          ),
        ),
      ),
    ),
  ),
)

parse-format_example : parse (format sample) ≡ ok sample
parse-format_example = parse-format sample refl sample-AllBytes
