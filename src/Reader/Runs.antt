-- ===== src/Reader/Runs.antt =====
-- resolveRegularRuns and resolveMiniRuns of reader.go: the byte ranges of the file that back one
-- stream. Offsets are numbers: a sector number is below 2 ^ 32 and a sector has at most 4096 bytes,
-- so the int64 arithmetic of the source does not overflow.
pub mod Cover
pub mod Mini
use go_cfb.Base.{
  ℕ, zero, suc, ◌+◌, ◌-◌, ◌*◌, ◌/◌, ◌%◌, ◌<◌, ◌≡◌, List, [], ◌∷◌, ◌++◌, Option, none, some, ok, err,
  ◌>>=◌, ltb, leb, ◌==◌, if◌then◌else◌, length, get_or,
}
use go_cfb.Format.{mini_sector_size}
use go_cfb.Reader.Errors.{Parsed, mini_outside}

-- run
pub record Run : Type 0 where
  pub off : ℕ
  pub len : ℕ
  pub start : ℕ

-- The variables of the two loops.
pub record Collected : Type 0 where
  pub runs : List Run
  pub cur : Run
  pub total : ℕ

-- `cur` before the loop, over the first sector of `w` bytes.
abbrev pub first_run : ℕ → ℕ → Collected
first_run w off = record { runs = []; cur = record { off = off; len = w; start = 0 }; total = 0 }

-- One round: the next sector of `w` bytes, at `off`, joins the current run or starts a new one.
unfoldable pub extend_run : ℕ → ℕ → Collected → Collected
extend_run w off c =
    if off == c.cur.off + c.cur.len
    then record c { cur = record { off = c.cur.off; len = c.cur.len + w; start = c.cur.start } }
    else record {
      runs = c.runs ++ (c.cur ∷ []);
      cur = record { off = off; len = w; start = c.total + c.cur.len };
      total = c.total + c.cur.len;
    }

-- `runs[len(runs)-1].length -= d`. The callers' chains have just as many sectors as the size needs,
-- so `d` is less than the length.
unfoldable pub trim_last : ℕ → List Run → List Run
trim_last d [] = []
trim_last d (r ∷ []) = record { off = r.off; len = r.len - d; start = r.start } ∷ []
trim_last d (r ∷ s ∷ rs) = r ∷ trim_last d (s ∷ rs)

-- What follows the loop.
unfoldable pub finish_runs : ℕ → Collected → List Run
unfolding trim_last
finish_runs size c =
    let total = c.total + c.cur.len in
    let runs = c.runs ++ (c.cur ∷ []) in
    if ltb size total then trim_last (total - size) runs else runs

-- The file offset of a regular sector.
abbrev pub sector_offset : ℕ → ℕ → ℕ
sector_offset sec_size sec = (sec + 1) * sec_size

unfoldable pub regular_loop : ℕ → Collected → List ℕ → Collected
regular_loop sec_size c [] = c
regular_loop sec_size c (sec ∷ rest) =
    regular_loop sec_size (extend_run sec_size (sector_offset sec_size sec) c) rest

unfoldable pub resolve_regular_runs : List ℕ → ℕ → ℕ → List Run
unfolding regular_loop
resolve_regular_runs [] sec_size size = []
resolve_regular_runs (sec ∷ rest) sec_size size =
    finish_runs size (regular_loop sec_size (first_run sec_size (sector_offset sec_size sec)) rest)

-- The file offset of a mini sector, through the chain of the mini stream.
unfoldable pub mini_offset : ℕ → List ℕ → ℕ → Parsed ℕ
mini_offset sec_size mini_stream mini_sec =
    let mini_off = mini_sec * mini_sector_size in
    let idx = mini_off / sec_size in
    if leb (length mini_stream) idx
    then err mini_outside
    else ok (sector_offset sec_size (get_or mini_stream idx 0) + mini_off % sec_size)

unfoldable pub mini_loop : ℕ → List ℕ → Collected → List ℕ → Parsed Collected
unfolding mini_offset
mini_loop sec_size mini_stream c [] = ok c
mini_loop sec_size mini_stream c (m ∷ rest) = mini_offset sec_size mini_stream m >>= λ off.
    mini_loop sec_size mini_stream (extend_run mini_sector_size off c) rest

unfoldable pub resolve_mini_runs : ℕ → List ℕ → List ℕ → ℕ → Parsed (List Run)
unfolding mini_loop
resolve_mini_runs sec_size mini_stream [] size = ok []
resolve_mini_runs sec_size mini_stream (m ∷ rest) size = do
  off ← mini_offset sec_size mini_stream m
  c ← mini_loop sec_size mini_stream (first_run mini_sector_size off) rest
  ok (finish_runs size c)

-- The specification: where a byte of the stream stands in the file, by the runs and by a list of
-- sectors of `w` bytes at the given offsets.
abbrev pub locate : List Run → ℕ → Option ℕ
locate [] o = none
locate (r ∷ rs) o = if ltb o r.len then some (r.off + o) else locate rs (o - r.len)

abbrev pub byte_at : ℕ → List ℕ → ℕ → Option ℕ
byte_at w [] o = none
byte_at w (f ∷ fs) o = if ltb o w then some (f + o) else byte_at w fs (o - w)

-- The runs follow one another from stream offset `s`, and none is empty.
abbrev pub Tiles : ℕ → List Run → Type 0
Tiles s [] = Unit
Tiles s (r ∷ rs) = (r.start ≡ s) × (0 < r.len) × Tiles (s + r.len) rs

abbrev pub span : List Run → ℕ
span [] = 0
span (r ∷ rs) = r.len + span rs
