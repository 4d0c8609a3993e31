-- ===== src/FileServer/Rle/RoundTrip.antt =====
-- Decoding what the encoder wrote.
use native.Mathlib.Numerals.{add-one}
use ncsc210_g.Base.{
  ◌>>=◌, ℕ, zero, suc, ◌+◌, ◌*◌, ◌%◌, ◌≤◌, ◌≡◌, refl, sym, ap, ◌∙◌, inl, inr, Bool, true, some,
  List, [], ◌∷◌, ◌++◌, arith, ltb, ◌==◌, if◌then◌else◌, Bool-cases, Option-cases, length, replicate,
  ok,
}
use ncsc210_g.FileServer.Rle.{
  max_file_size, count_run, encode_runs, rle_compress_bytes, sum_runs, expand, decode_body,
  rle_decompress_bytes,
}

replicate-suc : (n x : ℕ) (ys : List ℕ) → replicate (suc n) x ++ ys ≡ replicate n x ++ (x ∷ ys)
replicate-suc zero x ys = refl
replicate-suc (suc n) x ys = ap (◌∷◌ x) (replicate-suc n x ys)

-- The bytes of the run and the rest are the bytes that were there.
pub count_run-split :
    (value : ℕ) (xs : List ℕ) (run : ℕ)
    → let r = count_run value xs run in replicate r.0 value ++ r.1 ≡ replicate run value ++ xs
unfolding count_run
count_run-split value [] run = refl
count_run-split value (x ∷ xs) run =
    ground (arith, add-one run, count_run-split value xs (run + 1), replicate-suc run x xs)

-- A run stays below 256, and what it swallows is taken off the list.
pub count_run-bounds :
    (value : ℕ) (xs : List ℕ) (run : ℕ)
    → run ≤ 255
    → let r = count_run value xs run in
      (run ≤ r.0) × (r.0 ≤ 255) × (r.0 + length r.1 ≡ run + length xs)
unfolding count_run
count_run-bounds value [] run h = omega arith
count_run-bounds value (x ∷ xs) run h = ground (arith, count_run-bounds value xs (run + 1))

-- The decoder's second loop undoes the encoder's loop, which `length xs` rounds are enough for.
pub expand-encode_runs :
    (fuel : ℕ) (xs : List ℕ) → length xs ≤ fuel → expand (encode_runs fuel xs) ≡ xs
unfolding encode_runs expand
expand-encode_runs zero [] h = refl
expand-encode_runs zero (x ∷ xs) h = absurd (omega arith)
expand-encode_runs (suc fuel) [] h = refl
expand-encode_runs (suc fuel) (x ∷ xs) h = ground (
  arith,
  count_run-split x xs 1,
  count_run-bounds x xs 1 (omega arith),
  expand-encode_runs fuel (count_run x xs 1).1,
)

-- The decoder's first loop adds up to the length of the file.
pub sum_runs-encode_runs :
    (fuel : ℕ) (xs : List ℕ) (total : ℕ)
    → length xs ≤ fuel
    → total + length xs ≤ max_file_size
    → sum_runs total (encode_runs fuel xs) ≡ some (total + length xs)
unfolding encode_runs sum_runs
sum_runs-encode_runs zero [] total h k = ground arith
sum_runs-encode_runs zero (x ∷ xs) total h k = absurd (omega arith)
sum_runs-encode_runs (suc fuel) [] total h k = ground arith
sum_runs-encode_runs (suc fuel) (x ∷ xs) total h k = ground (
  arith,
  count_run-bounds x xs 1 (omega arith),
  sum_runs-encode_runs fuel (count_run x xs 1).1 (total + (count_run x xs 1).0),
)

pub even-encode_runs : (fuel : ℕ) (xs : List ℕ) → length (encode_runs fuel xs) % 2 ≡ 0
unfolding encode_runs
even-encode_runs zero xs = refl
even-encode_runs (suc fuel) [] = refl
even-encode_runs (suc fuel) (x ∷ xs) = omega (arith, even-encode_runs fuel (count_run x xs 1).1)

-- A file of at most MAX_FILE_SIZE bytes that is compressed and then decompressed comes back
-- unchanged, provided that both allocations succeed.
pub decompress-compress :
    (malloc : ℕ → Bool) (xs : List ℕ)
    → length xs ≤ max_file_size
    → malloc (length xs * 2 + 8) ≡ true
    → malloc (if ltb 0 (length xs) then length xs else 1) ≡ true
    → (rle_compress_bytes malloc xs >>= rle_decompress_bytes malloc) ≡ ok xs
unfolding rle_compress_bytes rle_decompress_bytes
decompress-compress malloc xs h m n = ground (
  arith,
  sum_runs-encode_runs (length xs) xs 0,
  even-encode_runs (length xs) xs,
  expand-encode_runs (length xs) xs,
)

decode_body-ok :
    (malloc : ℕ → Bool) (body d : List ℕ) → decode_body malloc body ≡ ok d → d ≡ expand body
unfolding decode_body
decode_body-ok malloc body d h = elim (Option-cases (sum_runs 0 body)) [
  | inl e ↦ absurd (ground (arith, e, h))
  | inr (total, e) ↦ elim (Bool-cases (length body % 2 == 0)) [
    | inr f ↦ absurd (ground (arith, e, f, h))
    | inl f ↦ elim (Bool-cases (malloc (if ltb 0 total then total else 1))) [
      | inl g ↦ ground (arith, e, f, g, h)
      | inr g ↦ absurd (ground (arith, e, f, g, h))
    ]
  ]
]

-- A decompression of a compressed file that succeeds gives the file, whatever was allocated when.
pub decompress_of_compress :
    (m1 m2 : ℕ → Bool) (xs c d : List ℕ)
    → rle_compress_bytes m1 xs ≡ ok c
    → rle_decompress_bytes m2 c ≡ ok d
    → d ≡ xs
unfolding rle_compress_bytes rle_decompress_bytes
decompress_of_compress m1 m2 xs c d h k = elim (Bool-cases (m1 (length xs * 2 + 8))) [
  | inr e ↦ absurd (ground (arith, e, h))
  | inl e ↦
      let same : b'R' ∷ b'L' ∷ b'E' ∷ b'1' ∷ encode_runs (length xs) xs ≡ c =
        ground (arith, e, h) in
      let body : decode_body m2 (encode_runs (length xs) xs) ≡ ok d = rw (sym same) at k in
      decode_body-ok m2 (encode_runs (length xs) xs) d body
      ∙ expand-encode_runs (length xs) xs (omega arith)
]
