-- ===== src/FileServer/Rle.antt =====
-- The run-length codec of G16_Project_3/src/file_ops.c: rle_compress_bytes and
-- rle_decompress_bytes. A buffer is the list of its bytes.
mod Tests
pub mod RoundTrip
pub mod Bounds
use ncsc210_g.Base.{
  ℕ, zero, suc, ◌+◌, ◌*◌, ◌%◌, Bool, false, ◌&&◌, List, [], ◌∷◌, ◌++◌, Option, none, some, Result,
  ok, err, length, replicate, drop, ltb, ◌==◌, if◌then◌else◌,
}

-- MAX_FILE_SIZE
abbrev pub max_file_size : ℕ
max_file_size = 64 * 1024 * 1024

-- The values of `errno` that the codec sets.
pub data Errno : Type 0 where
  enomem einval efbig : Errno

-- The inner `while`: how long the run of `value` gets, and what stands behind it.
pub count_run : ℕ → List ℕ → ℕ → ℕ × List ℕ
count_run value [] run = (run, [])
count_run value (x ∷ xs) run =
    if x == value && ltb run 255 then count_run value xs (run + 1) else (run, x ∷ xs)

-- The outer `for`, one run a round, on fuel.
pub encode_runs : ℕ → List ℕ → List ℕ
encode_runs zero xs = []
encode_runs (suc fuel) [] = []
encode_runs (suc fuel) (x ∷ xs) =
    let (run, rest) = count_run x xs 1 in run ∷ x ∷ encode_runs fuel rest

-- `malloc n` says whether the allocation of `n` bytes succeeds.
unfoldable pub rle_compress_bytes : (malloc : ℕ → Bool) → List ℕ → Result Errno (List ℕ)
unfolding count_run encode_runs
rle_compress_bytes malloc xs =
    if malloc (length xs * 2 + 8)
    then ok (b'R' ∷ b'L' ∷ b'E' ∷ b'1' ∷ encode_runs (length xs) xs)
    else err enomem

-- The first loop of the decoder; `none` is the exit with EFBIG.
pub sum_runs : ℕ → List ℕ → Option ℕ
sum_runs total (run ∷ value ∷ rest) =
    let next = sum_runs (total + run) rest in if ltb max_file_size (total + run) then none else next
sum_runs total _ = some total

-- The second loop: a `memset` for each pair.
pub expand : List ℕ → List ℕ
expand (run ∷ value ∷ rest) = replicate run value ++ expand rest
expand _ = []

decode_body : (malloc : ℕ → Bool) → List ℕ → Result Errno (List ℕ)
decode_body malloc body = elim (sum_runs 0 body) [
  | none ↦ err efbig
  | some total ↦
      if length body % 2 == 0
      then (if malloc (if ltb 0 total then total else 1) then ok (expand body) else err enomem)
      else err einval
]

pub has_header : List ℕ → Bool
has_header (a ∷ b ∷ c ∷ d ∷ body) = a == b'R' && b == b'L' && c == b'E' && d == b'1'
has_header _ = false

unfoldable pub rle_decompress_bytes : (malloc : ℕ → Bool) → List ℕ → Result Errno (List ℕ)
unfolding sum_runs expand decode_body has_header
rle_decompress_bytes malloc xs =
    if has_header xs then decode_body malloc (drop 4 xs) else err einval
