-- ===== src/FileServer/Rle/Tests.antt =====
-- The codec at concrete files, and its theorems applied there.
use ncsc210_g.Base.{
  ◌>>=◌, ℕ, ◌+◌, ◌*◌, ◌%◌, ◌≤◌, ◌≡◌, refl, Bool, true, List, [], ◌∷◌, ◌++◌, arith, length, ok, err,
  codes,
}
use ncsc210_g.FileServer.Rle.{
  max_file_size, einval, rle_compress_bytes, has_header, rle_decompress_bytes,
}
use ncsc210_g.FileServer.Rle.RoundTrip.{decompress-compress}
use ncsc210_g.FileServer.Rle.Bounds.{decompress_bounds, compress-NoRepeat}

abbrev ample : ℕ → Bool
ample n = true

abbrev packed : List ℕ
packed = b'R' ∷ b'L' ∷ b'E' ∷ b'1' ∷ 3 ∷ b'a' ∷ 1 ∷ b'b' ∷ []

compress_aaab : rle_compress_bytes ample (codes "aaab") ≡ ok packed
unfolding rle_compress_bytes
compress_aaab = refl

decompress_aaab : rle_decompress_bytes ample packed ≡ ok (codes "aaab")
unfolding rle_decompress_bytes
decompress_aaab = refl

decompress_odd : rle_decompress_bytes ample (packed ++ 1 ∷ []) ≡ err einval
unfolding rle_decompress_bytes
decompress_odd = refl

decompress_without_header : rle_decompress_bytes ample (codes "RLE2") ≡ err einval
unfolding rle_decompress_bytes
decompress_without_header = refl

decompress-compress_example :
    (rle_compress_bytes ample (codes "aaab") >>= rle_decompress_bytes ample) ≡ ok (codes "aaab")
decompress-compress_example = decompress-compress ample (codes "aaab") (omega arith) refl refl

decompress_bounds_example :
    (has_header packed ≡ true)
    × (length packed % 2 ≡ 0)
    × (length (codes "aaab") ≤ max_file_size)
    × (ample 4 ≡ true)
decompress_bounds_example = decompress_bounds ample packed (codes "aaab") decompress_aaab

compress_aba :
    rle_compress_bytes ample (codes "aba")
    ≡ ok (codes "RLE1" ++ 1 ∷ b'a' ∷ 1 ∷ b'b' ∷ 1 ∷ b'a' ∷ [])
unfolding rle_compress_bytes
compress_aba = refl

compress-NoRepeat_example : length (codes "RLE1" ++ 1 ∷ b'a' ∷ 1 ∷ b'b' ∷ 1 ∷ b'a' ∷ []) ≡ 2 * 3 + 4
compress-NoRepeat_example = compress-NoRepeat ample (codes "aba") _ (omega arith) compress_aba
