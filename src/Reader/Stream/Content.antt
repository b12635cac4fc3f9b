-- ===== src/Reader/Stream/Content.antt =====
-- The content of a stream: the bytes of the file that its runs stand for.
use Prim.Native.Nat.{Ordering}
use go_cfb.Base.{
  ℕ, zero, suc, ◌+◌, ◌-◌, min, ◌≤◌, ◌<◌, ◌≡◌, ◌≢◌, refl, sym, ap, ◌∙◌, List, [], ◌∷◌, ◌++◌, some,
  arith, length, length-append, length-take, length-drop, get_elem?, take, drop,
}
use mathlib.Core.Path.{◌≡⟨◌⟩◌, ◌∎}
use native.Mathlib.Decide.{dec_le}
use go_cfb.Reader.Runs.{Run, Tiles, span}
use go_cfb.Base.Slices.{
  take-nil, take-append, drop-append, drop_all, take-take, drop-take, drop-drop,
}
use go_cfb.Base.Search.{compares, Parts}
use go_cfb.Reader.Stream.{compare_run}

-- `n` bytes of the file from `off` on.
abbrev pub slice : List ℕ → ℕ → ℕ → List ℕ
slice file off n = take n (drop off file)

abbrev pub content : List ℕ → List Run → List ℕ
content file [] = []
content file (r ∷ rs) = slice file r.off r.len ++ content file rs

-- Every run lies in the file.
abbrev pub InFile : List ℕ → List Run → Type 0
InFile file [] = Unit
InFile file (r ∷ rs) = (r.off + r.len ≤ length file) × InFile file rs

pub length-slice :
    (file : List ℕ) (off n : ℕ) → off + n ≤ length file → length (slice file off n) ≡ n
length-slice file off n h = omega (arith, length-take n (drop off file), length-drop off file)

-- Two slices, one behind the other.
pub slice-add :
    (out : List ℕ) (off m n : ℕ) → slice out off (m + n) ≡ slice out off m ++ slice out (off + m) n
slice-add out off m n =
    go m (drop off out) ∙ ap (λ xs. slice out off m ++ take n xs) (drop-drop m off out)
  where
    go : (m : ℕ) (xs : List ℕ) → take (m + n) xs ≡ take m xs ++ take n (drop m xs)
    go zero xs = let e : 0 + n ≡ n = omega arith in rw e
    go (suc m) [] = let e : suc m + n ≡ suc (m + n) = omega arith in rw e (sym (take-nil n))
    go (suc m) (x ∷ xs) =
        let e : suc m + n ≡ suc (m + n) = omega arith in rw e (ap (λ ys. x ∷ ys) (go m xs))

pub length-content :
    (file : List ℕ) (rs : List Run) → InFile file rs → length (content file rs) ≡ span rs
length-content file [] h = refl
length-content file (r ∷ rs) (h, hs) = omega (
  arith,
  length-append (slice file r.off r.len) (content file rs),
  length-slice file r.off r.len h,
  length-content file rs hs,
)

-- What is wanted from `w` on in the first run, and then from the others.
pub content_split :
    (file : List ℕ) (r : Run) (rest : List ℕ) (w k : ℕ)
    → r.off + r.len ≤ length file
    → w < r.len
    → take k (drop w (slice file r.off r.len ++ rest))
      ≡ slice file (r.off + w) (min k (r.len - w)) ++ take (k - (r.len - w)) rest
content_split file r rest w k inside low =
    take k (drop w (slice file r.off r.len ++ rest))
    ≡⟨ ap (take k) (drop-append w (slice file r.off r.len) rest) ⟩
      take k (drop w (slice file r.off r.len) ++ drop (w - length (slice file r.off r.len)) rest)
    ≡⟨ take-append k (drop w (slice file r.off r.len)) _ ⟩
      take k (drop w (slice file r.off r.len))
      ++ take (k - length (drop w (slice file r.off r.len)))
          (drop (w - length (slice file r.off r.len)) rest)
    ≡⟨ rw (over, left) (ap (λ xs. xs ++ take (k - (r.len - w)) rest) first) ⟩
      slice file (r.off + w) (min k (r.len - w)) ++ take (k - (r.len - w)) rest ∎
  where
    over : w - length (slice file r.off r.len) ≡ 0
    over = omega (arith, length-slice file r.off r.len inside)

    left : length (drop w (slice file r.off r.len)) ≡ r.len - w
    left =
        omega (arith, length-slice file r.off r.len inside, length-drop w (slice file r.off r.len))

    first : take k (drop w (slice file r.off r.len)) ≡ slice file (r.off + w) (min k (r.len - w))
    first =
        ap (take k) (drop-take w r.len (drop r.off file))
        ∙ take-take k (r.len - w) (drop w (drop r.off file))
        ∙ ap (take (min k (r.len - w))) (drop-drop w r.off file)

-- The run that holds stream offset `off`, in runs that tile the stream from `s` on: it stands at
-- the parting point of the binary search, and the content from `off` on is that of the runs from
-- this one on.
pub record Found (file : List ℕ) (s : ℕ) (runs : List Run) (off : ℕ) : Type 0 where
  pub index : ℕ
  pub parts : Parts (compare_run off) runs index
  pub run : Run
  pub rest : List Run
  pub split : drop index runs ≡ run ∷ rest
  pub at : get_elem? runs index ≡ some run
  pub low : run.start ≤ off
  pub high : off < run.start + run.len
  pub inside : InFile file (run ∷ rest)
  pub tiled : Tiles (run.start + run.len) rest
  pub room : s + span runs ≡ run.start + span (run ∷ rest)
  pub same : drop (off - s) (content file runs) ≡ drop (off - run.start) (content file (run ∷ rest))

Found-cons :
    (file : List ℕ) (s : ℕ) (r : Run) (rs : List Run) (off : ℕ)
    → r.start ≡ s
    → s + r.len ≤ off
    → r.off + r.len ≤ length file
    → Found file (s + r.len) rs off
    → Found file s (r ∷ rs) off
unfolding compare_run
Found-cons file s r rs off start h fits f = record {
  index = suc f.index;
  parts = record { inside = omega (arith, f.parts.inside); before = before; after = after };
  run = f.run;
  rest = f.rest;
  split = f.split;
  at = f.at;
  low = f.low;
  high = f.high;
  inside = f.inside;
  tiled = f.tiled;
  room = omega (arith, f.room);
  same =
      drop-append (off - s) (slice file r.off r.len) (content file rs)
      ∙ rw (drop_all (off - s) (slice file r.off r.len) (omega (arith, size)), past) f.same;
}
  where
    size : length (slice file r.off r.len) ≡ r.len
    size = length-slice file r.off r.len fits

    past : off - s - length (slice file r.off r.len) ≡ off - (s + r.len)
    past = omega (arith, size)

    before :
        (i : ℕ) → i < suc f.index → compares (compare_run off) (get_elem? (r ∷ rs) i) ≡ Ordering.lt
    before zero p = ground arith
    before (suc i) p = f.parts.before i (omega arith)

    after :
        (i : ℕ) → suc f.index ≤ i → compares (compare_run off) (get_elem? (r ∷ rs) i) ≢ Ordering.lt
    after zero p = absurd (omega arith)
    after (suc i) p = f.parts.after i (omega arith)

-- Runs that start behind the target compare above it.
Tiles-after :
    (s off : ℕ) (rs : List Run)
    → Tiles s rs
    → off < s
    → (i : ℕ) → compares (compare_run off) (get_elem? rs i) ≢ Ordering.lt
unfolding compare_run
Tiles-after s off [] t h i = ground arith
Tiles-after s off (r ∷ rs) t h zero = ground arith
Tiles-after s off (r ∷ rs) (a, b, t) h (suc i) = Tiles-after (s + r.len) off rs t (omega arith) i

pub find :
    (file : List ℕ) (s off : ℕ) (runs : List Run)
    → Tiles s runs
    → InFile file runs
    → s ≤ off
    → off < s + span runs
    → Found file s runs off
unfolding compare_run
find file s off [] t inside lo hi = absurd (omega arith)
find file s off (r ∷ rs) (a, b, t) inside lo hi = elim (dec_le (s + r.len) off) [
  | yes past ↦
      Found-cons file s r rs off a past inside.0
        (find file (s + r.len) off rs t inside.1 past (omega arith))
  | no here ↦ record {
    index = 0;
    parts = record {
      inside = omega arith;
      before = λ i p. absurd (omega arith);
      after = after here;
    };
    run = r;
    rest = rs;
    split = refl;
    at = refl;
    low = omega arith;
    high = omega arith;
    inside = inside;
    tiled = rw a t;
    room = omega arith;
    same = rw a;
  }
]
  where
    after :
        ¬ (s + r.len ≤ off)
        → (i : ℕ) → 0 ≤ i
        → compares (compare_run off) (get_elem? (r ∷ rs) i) ≢ Ordering.lt
    after here zero p = ground arith
    after here (suc i) p = Tiles-after (s + r.len) off rs t (omega arith) i
