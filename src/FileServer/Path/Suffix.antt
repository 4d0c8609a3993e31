-- ===== src/FileServer/Path/Suffix.antt =====
-- The default destinations of COMPRESS and DECOMPRESS undo one another.
use ncsc210_g.Base.{
  ◌⊎◌, inl, inr, Option-cases, ℕ, ◌-◌, ◌<◌, ◌≡◌, ◌≢◌, true, List, [], ◌++◌, some, length,
  length-append, length-take, drop, take-append-drop, take-append, drop-append, arith, codes,
  bytes_eq, bytes_eq_iff, bytes_eq_refl,
}
use ncsc210_g.FileServer.Path.{
  path_append_suffix, path_strip_suffix, derive_compress_dst, derive_decompress_dst,
}

-- A suffix that has been put behind a nonempty path is taken off again.
strip-append :
    (path suffix : List ℕ) (out_sz : ℕ)
    → path ≢ []
    → length path < out_sz
    → path_strip_suffix (path ++ suffix) suffix out_sz ≡ some path
unfolding path_strip_suffix
strip-append path suffix out_sz h k =
    let e : length (path ++ suffix) - length suffix ≡ length path =
      omega (arith, length-append path suffix) in
    ground (
      arith,
      length-append path suffix,
      e,
      drop-append (length (path ++ suffix) - length suffix) path suffix e,
      take-append (length (path ++ suffix) - length suffix) path suffix e,
      bytes_eq_refl suffix,
    )

-- What is stripped is the path without the suffix, and something is left.
strip_sound :
    (path suffix dst : List ℕ) (out_sz : ℕ)
    → path_strip_suffix path suffix out_sz ≡ some dst
    → (path ≡ dst ++ suffix) × (dst ≢ []) × (length dst < out_sz)
unfolding path_strip_suffix
strip_sound path suffix dst out_sz h =
    let n : ℕ = length path - length suffix in
    let rest : bytes_eq (drop n path) suffix ≡ true = ground arith in
    let long : length suffix < length path = ground arith in
    ground (
      arith,
      rest,
      long,
      (bytes_eq_iff (drop n path) suffix).0 rest,
      take-append-drop n path,
      length-take n path,
    )

-- A file that is compressed to its default destination is decompressed to itself by default.
pub derive-derive :
    (src dst : List ℕ) (dst_sz : ℕ)
    → src ≢ []
    → derive_compress_dst src dst_sz ≡ some dst
    → derive_decompress_dst dst dst_sz ≡ some src
unfolding derive_compress_dst derive_decompress_dst path_append_suffix
derive-derive src dst dst_sz h e =
    ground (arith, length-append src (codes ".rle"), strip-append src (codes ".rle") dst_sz h)

-- The default destination of a decompression: a source that ends in ".rle" behind a nonempty name
-- loses it, any other gets ".out"; the destination always differs from the source and fits.
pub derive_decompress_dst_cases :
    (src dst : List ℕ) (dst_sz : ℕ)
    → derive_decompress_dst src dst_sz ≡ some dst
    → (length dst < dst_sz)
      × (((dst ≢ []) × (src ≡ dst ++ codes ".rle")) ⊎ (dst ≡ src ++ codes ".out"))
      × (dst ≢ src)
unfolding derive_decompress_dst path_append_suffix
derive_decompress_dst_cases src dst dst_sz e =
    elim (Option-cases (path_strip_suffix src (codes ".rle") dst_sz)) [
      | inr (d, q) ↦
          ground
            (arith, q, strip_sound src (codes ".rle") d dst_sz q, length-append d (codes ".rle"))
      | inl q ↦ ground (arith, q, length-append src (codes ".out"))
    ]
