-- ===== src/FileServer/LogTail/Reads.antt =====
-- What read_log_tail of file_ops.c reads when every call succeeds.
use ncsc210_g.Base.{
  ℕ, zero, suc, ◌+◌, ◌-◌, ◌≤◌, ◌≡◌, refl, ap, ◌∙◌, true, false, not, ◌||◌, some, List, [], ◌∷◌,
  ◌++◌, arith, ltb, if◌then◌else◌, length, length-append, take, drop, length-drop, pos,
}
use ncsc210_g.FileServer.LogTail.{
  LogIo, opened, max_tail, read_part, read_log_tail, read_opened, trim_to, tail_start,
}

pub take_all : (n : ℕ) (xs : List ℕ) → length xs ≤ n → take n xs ≡ xs
take_all zero [] h = refl
take_all zero (x ∷ xs) h = absurd (omega (arith, h))
take_all (suc n) [] h = refl
take_all (suc n) (x ∷ xs) h = ap (◌∷◌ x) (take_all n xs (omega (arith, h)))

drop-front : (n : ℕ) (xs ys : List ℕ) → n ≤ length xs → drop n (xs ++ ys) ≡ drop n xs ++ ys
drop-front zero xs ys h = refl
drop-front (suc n) [] ys h = absurd (omega (arith, h))
drop-front (suc n) (x ∷ xs) ys h = drop-front n xs ys (omega (arith, h))

-- The part of the log that is read has its last line.
pub read_part-line :
    (log line : List ℕ)
    → length line ≤ max_tail
    → (n : ℕ) × (read_part true (log ++ line) ≡ drop n log ++ line)
unfolding read_part
read_part-line log line h =
    let file = log ++ line in
    let size = if ltb max_tail (length file) then max_tail else length file in
    let n = length file - size in
    let total = length-append log line in
    let fits : size ≤ length file = ground arith in
    let covers : length line ≤ size = ground (arith, total, h) in
    let front = drop-front n log line (omega (arith, total, fits, covers)) in
    let left = length-drop n file in (n, take_all size (drop n file) (omega (arith, left)) ∙ front)

-- Every call on the way succeeds.
pub record Succeeds (io : LogIo) (log : List ℕ) : Type 0 where
  pub fopen_ok : io.fopen ≡ opened log
  pub seek_end_ok : io.seek_end ≡ true
  pub ftell_ok : io.ftell ≡ true
  pub seek_back_ok : io.seek_back ≡ true
  pub malloc_ok : (n : ℕ) → io.malloc n ≡ true

pub read_log_tail-some :
    (io : LogIo) (log : List ℕ) (limit : ℕ)
    → Succeeds io log
    → (out : List ℕ) × (read_log_tail io (pos (suc limit)) ≡ some out)
unfolding read_log_tail read_opened trim_to
read_log_tail-some io log limit calls =
    let part = read_part io.seek_back log in
    let start = tail_start part (suc limit) (length part) 0 in
    let size = if ltb max_tail (length log) then max_tail else length log in
    let m1 = calls.malloc_ok (size + 1) in
    let m2 = calls.malloc_ok (length part - start + 1) in
    let back : not (io.seek_back || io.seek_start) ≡ false = ground (arith, calls.seek_back_ok) in
    (
      drop start part,
      rw (calls.fopen_ok, calls.seek_end_ok, calls.ftell_ok) (rw (back, m1, m2) refl),
    )
