-- ===== src/Fs/Pages.antt =====
-- A directory that is read page by page.
use go_cfb.Base.{
  ℕ, zero, suc, ◌+◌, ◌<◌, ◌≡◌, ◌≢◌, refl, sym, ap, ◌∙◌, List, [], ◌∷◌, ◌++◌, map, ok, err, panic,
  stuck, arith, inl, inr, Bool-cases, ◌==◌, length, length-drop, take, drop, min,
}
use go_cfb.Base.Slices.{drop-drop}
use go_cfb.Fs.{FileInfo, info_of, read_dir_page, read_dir_rest}
use go_cfb.Reader.Lookup.{Entry}

-- A caller that reads pages of `n` entries until the end of the directory.
unfoldable pub read_pages : ℕ → List Entry → ℕ → ℕ → List FileInfo
unfolding read_dir_page
read_pages zero es at n = []
read_pages (suc fuel) es at n = elim (read_dir_page es at n) [
  | ok page ↦ page.0 ++ read_pages fuel es (page.1) n
  | err e ↦ []
  | panic ↦ []
  | stuck ↦ []
]

module _ {A B : Type 0} (f : A → B) where
  map-take-drop : (k : ℕ) (xs : List A) → map f (take k xs) ++ map f (drop k xs) ≡ map f xs
  map-take-drop zero xs = refl
  map-take-drop (suc k) [] = refl
  map-take-drop (suc k) (x ∷ xs) = ap (λ ys. f x ∷ ys) (map-take-drop k xs)

  map_empty : (xs : List A) → length xs ≡ 0 → map f xs ≡ []
  map_empty [] e = refl
  map_empty (x ∷ xs) e = absurd (omega (arith, e))

read_pages_lem :
    (fuel : ℕ) (es : List Entry) (at n : ℕ)
    → 0 < n
    → length (drop at es) < fuel
    → read_pages fuel es at n ≡ map info_of (drop at es)
unfolding read_pages read_dir_page
read_pages_lem zero es at n some_n enough = absurd (omega arith)
read_pages_lem (suc fuel) es at n some_n enough =
    let count = min (length (drop at es)) n in
    let next : drop count (drop at es) ≡ drop (at + count) es = drop-drop count at es in
    elim (Bool-cases (count == 0)) [
      | inl e ↦
          let empty : length (drop at es) ≡ 0 = ground (arith, e, some_n) in
          rw (e, read_pages) (sym (map_empty info_of (drop at es) empty))
      | inr e ↦
          let used : count ≢ 0 = ground (arith, e) in
          let fewer : length (drop (at + count) es) < fuel =
            omega (arith, ap length next, length-drop count (drop at es), used, enough) in
          rw (e, read_pages)
            (ap (λ l. map info_of (take count (drop at es)) ++ l)
                (read_pages_lem fuel es (at + count) n some_n fewer ∙ ap (map info_of) (sym next))
              ∙ map-take-drop info_of count (drop at es))
    ]

-- The pages of a directory that is read from `at` on, `n` entries at a time until io.EOF, are the
-- entries that one call without a limit returns, in the same order, for every `n` above zero. As many
-- calls as there are entries, and one more, are enough.
pub read_pages-read_dir_rest :
    (fuel : ℕ) (es : List Entry) (at n : ℕ)
    → 0 < n
    → length (drop at es) < fuel
    → read_dir_rest es at ≡ ok (read_pages fuel es at n, at + length (drop at es))
unfolding read_dir_rest
read_pages-read_dir_rest fuel es at n some_n enough =
    ap (λ l. ok (l, at + length (drop at es))) (sym (read_pages_lem fuel es at n some_n enough))
