-- ===== src/FileServer/Rle/Bounds.antt =====
-- Sizes: no write past a buffer, and what the encoder makes of a file without repetitions.
use ncsc210_g.Base.{
  Option-cases, inl, inr, drop, ℕ, zero, suc, ◌+◌, ◌*◌, ◌≤◌, ◌<◌, ◌%◌, ◌≡◌, ◌≢◌, refl, Bool, true,
  List, [], ◌∷◌, some, ok, length, length-append, length-replicate, replicate, arith, ltb,
  if◌then◌else◌, All,
}
use ncsc210_g.FileServer.Rle.{
  max_file_size, count_run, encode_runs, rle_compress_bytes, sum_runs, expand, rle_decompress_bytes,
  decode_body, has_header,
}
use ncsc210_g.FileServer.Rle.RoundTrip.{count_run-bounds}

abbrev IsByte : ℕ → Type 0
IsByte b = b < 256

length-encode_runs-le :
    (fuel : ℕ) (xs : List ℕ) → length xs ≤ fuel → length (encode_runs fuel xs) ≤ 2 * length xs
unfolding encode_runs
length-encode_runs-le zero xs h = omega arith
length-encode_runs-le (suc fuel) [] h = omega arith
length-encode_runs-le (suc fuel) (x ∷ xs) h = omega (
  arith,
  count_run-bounds x xs 1 (omega arith),
  length-encode_runs-le fuel (count_run x xs 1).1
      (omega (arith, count_run-bounds x xs 1 (omega arith))),
)

count_run-All :
    (value : ℕ) (xs : List ℕ) (run : ℕ) → All IsByte xs → All IsByte (count_run value xs run).1
unfolding count_run
count_run-All value [] run h = tt
count_run-All value (x ∷ xs) run h = ground (arith, count_run-All value xs (run + 1))

encode_runs-All : (fuel : ℕ) (xs : List ℕ) → All IsByte xs → All IsByte (encode_runs fuel xs)
unfolding encode_runs
encode_runs-All zero xs h = tt
encode_runs-All (suc fuel) [] h = tt
encode_runs-All (suc fuel) (x ∷ xs) h =
    let b = count_run-bounds x xs 1 (omega arith) in
    (omega arith, (h.0, encode_runs-All fuel (count_run x xs 1).1 (count_run-All x xs 1 h.1)))

-- Of a file of bytes the encoder makes bytes, and no more of them than it has allocated.
pub compress_bounds :
    (malloc : ℕ → Bool) (xs out : List ℕ)
    → All IsByte xs
    → rle_compress_bytes malloc xs ≡ ok out
    → (malloc (length xs * 2 + 8) ≡ true) × (length out ≤ length xs * 2 + 8) × All IsByte out
unfolding rle_compress_bytes
compress_bounds malloc xs out h e =
    ground (arith, length-encode_runs-le (length xs) xs, encode_runs-All (length xs) xs h)

-- The two loops of the decoder agree: the first adds up what the second writes.
sum_runs-expand :
    (total n : ℕ) (body : List ℕ)
    → sum_runs total body ≡ some n
    → (total ≤ max_file_size)
    → (n ≡ total + length (expand body)) × (n ≤ max_file_size)
unfolding sum_runs expand
sum_runs-expand total n [] e h = ground arith
sum_runs-expand total n (x ∷ []) e h = ground arith
sum_runs-expand total n (run ∷ value ∷ rest) e h = ground (
  arith,
  sum_runs-expand (total + run) n rest,
  length-append (replicate run value) (expand rest),
  length-replicate run value,
)

decode_body_bounds :
    (malloc : ℕ → Bool) (body out : List ℕ)
    → decode_body malloc body ≡ ok out
    → (length body % 2 ≡ 0)
      × (length out ≤ max_file_size)
      × (malloc (if ltb 0 (length out) then length out else 1) ≡ true)
unfolding decode_body
decode_body_bounds malloc body out e = elim (Option-cases (sum_runs 0 body)) [
  | inl q ↦ ground (arith, q)
  | inr (n, q) ↦ ground (arith, q, sum_runs-expand 0 n body q)
]

length-has_header : (xs : List ℕ) → has_header xs ≡ true → length xs ≡ 4 + length (drop 4 xs)
unfolding has_header
length-has_header xs h = ground arith

-- A file that the decoder accepts has the header and whole pairs behind it; the decoded file stays
-- within MAX_FILE_SIZE and fills the allocated buffer exactly (one byte is allocated for none).
pub decompress_bounds :
    (malloc : ℕ → Bool) (xs out : List ℕ)
    → rle_decompress_bytes malloc xs ≡ ok out
    → (has_header xs ≡ true)
      × (length xs % 2 ≡ 0)
      × (length out ≤ max_file_size)
      × (malloc (if ltb 0 (length out) then length out else 1) ≡ true)
unfolding rle_decompress_bytes
decompress_bounds malloc xs out e =
    ground (arith, length-has_header xs, decode_body_bounds malloc (drop 4 xs) out)

-- No two neighbours are equal.
abbrev pub NoRepeat : List ℕ → Type 0
NoRepeat [] = Unit
NoRepeat (x ∷ []) = Unit
NoRepeat (x ∷ y ∷ rest) = (y ≢ x) × NoRepeat (y ∷ rest)

encode_runs-NoRepeat :
    (fuel : ℕ) (xs : List ℕ)
    → length xs ≤ fuel
    → NoRepeat xs
    → length (encode_runs fuel xs) ≡ 2 * length xs
unfolding encode_runs count_run
encode_runs-NoRepeat zero [] h d = refl
encode_runs-NoRepeat zero (x ∷ xs) h d = absurd (omega arith)
encode_runs-NoRepeat (suc fuel) [] h d = refl
encode_runs-NoRepeat (suc fuel) (x ∷ []) h d = ground (arith, encode_runs-NoRepeat fuel [])
encode_runs-NoRepeat (suc fuel) (x ∷ y ∷ rest) h d =
    ground (arith, encode_runs-NoRepeat fuel (y ∷ rest))

-- A file without repetitions doubles: past 32 MiB less two bytes its compressed form is longer
-- than MAX_FILE_SIZE.
pub compress-NoRepeat :
    (malloc : ℕ → Bool) (xs out : List ℕ)
    → NoRepeat xs
    → rle_compress_bytes malloc xs ≡ ok out
    → length out ≡ 2 * length xs + 4
unfolding rle_compress_bytes
compress-NoRepeat malloc xs out d e =
    ground (arith, encode_runs-NoRepeat (length xs) xs (omega arith) d)
