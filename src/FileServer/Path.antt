-- ===== src/FileServer/Path.antt =====
-- G16_Project_3/src/path_utils.c, and the destinations that server.c derives for COMPRESS and
-- DECOMPRESS. A path is the list of its bytes; `out_sz` is the size of the caller's buffer.
mod Tests
pub mod Places
pub mod Confined
pub mod Suffix
pub mod Parents
use ncsc210_g.Base.{
  ℕ, ◌+◌, ◌-◌, Bool, true, false, not, ◌||◌, List, [], ◌∷◌, ◌++◌, Option, none, some, length, take,
  drop, leb, ltb, ◌==◌, if◌then◌else◌, codes, bytes_eq, strstr,
}

-- `none` is the null pointer.
pub is_path_safe : Option (List ℕ) → Bool
is_path_safe none = false
is_path_safe (some []) = false
is_path_safe (some (c ∷ path)) =
    if c == b'/' then false else if strstr (c ∷ path) (codes "..") then false else true

-- `snprintf` into a buffer of `out_sz` bytes, with the test for truncation that follows each call.
abbrev pub print_to : List ℕ → ℕ → Option (List ℕ)
print_to text out_sz = if leb out_sz (length text) then none else some text

unfoldable pub path_build : (data_dir relative : List ℕ) (out_sz : ℕ) → Option (List ℕ)
unfolding is_path_safe strstr
path_build data_dir relative out_sz =
    if not (is_path_safe (some relative))
    then none
    else print_to (data_dir ++ (b'/' ∷ relative)) out_sz

-- What a call of `mkdir` returns: 0, -1 with EEXIST, or -1 with another error.
pub data Mkdir : Type 0 where
  made exists failed : Mkdir

abbrev may_go_on : Mkdir → Bool
may_go_on failed = false
may_go_on _ = true

-- The loop of `path_ensure_parent_dirs`: `done` stands before the pointer, `rest` from it on.
module _ {S : Type 0} (mkdir : S → List ℕ → Mkdir × S) where
  pub make_parents : List ℕ → List ℕ → S → Bool × S
  make_parents done [] s = (true, s)
  make_parents done (c ∷ rest) s =
      let (r, s') = mkdir s done in
      let next = make_parents (done ++ c ∷ []) rest s' in
      let skip = make_parents (done ++ c ∷ []) rest s in
      if c == b'/' then (if may_go_on r then next else (false, s')) else skip

  -- `path_max` is PATH_MAX. The loop starts at the second byte.
  unfoldable pub path_ensure_parent_dirs : (path_max : ℕ) → List ℕ → S → Bool × S
  unfolding make_parents
  path_ensure_parent_dirs path_max filepath s =
      if leb path_max (length filepath)
      then (false, s)
      else make_parents (take 1 filepath) (drop 1 filepath) s

unfoldable pub path_append_suffix : (path suffix : List ℕ) (out_sz : ℕ) → Option (List ℕ)
path_append_suffix path suffix out_sz = print_to (path ++ suffix) out_sz

unfoldable pub path_strip_suffix : (path suffix : List ℕ) (out_sz : ℕ) → Option (List ℕ)
path_strip_suffix path suffix out_sz =
    let plen = length path in
    let slen = length suffix in
    if leb plen slen || not (bytes_eq (drop (plen - slen) path) suffix)
    then none
    else if ltb out_sz (plen - slen + 1)
    then none
    else some (take (plen - slen) path)

unfoldable pub derive_compress_dst : (src : List ℕ) (dst_sz : ℕ) → Option (List ℕ)
unfolding path_append_suffix
derive_compress_dst src dst_sz = path_append_suffix src (codes ".rle") dst_sz

unfoldable pub derive_decompress_dst : (src : List ℕ) (dst_sz : ℕ) → Option (List ℕ)
unfolding path_append_suffix path_strip_suffix
derive_decompress_dst src dst_sz = elim (path_strip_suffix src (codes ".rle") dst_sz) [
  | some dst ↦ some dst
  | none ↦ path_append_suffix src (codes ".out") dst_sz
]
