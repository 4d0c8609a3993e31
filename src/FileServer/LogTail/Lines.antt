-- ===== src/FileServer/LogTail/Lines.antt =====
-- The lines that the tail of the log consists of.
use ncsc210_g.Base.{
  ℕ, zero, suc, ◌+◌, ◌≤◌, ◌<◌, ◌≡◌, refl, ap, Bool, List, [], ◌∷◌, ◌++◌, some, ℤ, pos, length, take,
  drop, get_or, take-append-drop, sym, ◌∙◌, arith, ltb, ◌==◌, if◌then◌else◌, ◌⊎◌, inl, inr,
  Bool-cases,
}
use ncsc210_g.FileServer.LogTail.{
  opened, LogIo, tail_start, read_part, read_log_tail, read_opened, trim_to,
}

-- The number of line ends.
abbrev pub line_ends : List ℕ → ℕ
line_ends [] = 0
line_ends (c ∷ cs) = (if c == 10 then 1 else 0) + line_ends cs

line_ends-drop :
    (buf : List ℕ) (i : ℕ)
    → i < length buf
    → line_ends (drop i buf)
      ≡ (if get_or buf i 0 == 10 then 1 else 0) + line_ends (drop (suc i) buf)
line_ends-drop [] i h = elim h [ ]
line_ends-drop (c ∷ cs) zero h = refl
line_ends-drop (c ∷ cs) (suc i) h = line_ends-drop cs i (omega arith)

-- Either all of the buffer is kept, or what is kept starts behind a line end and has `limit` lines.
abbrev pub StartsLine : ℕ → List ℕ → List ℕ → Type 0
StartsLine limit front out =
    (front ≡ []) ⊎ ((before : List ℕ) × (front ≡ before ++ (10 ∷ [])) × (line_ends out ≡ limit))

take-suc :
    (buf : List ℕ) (i : ℕ) → i < length buf → take (suc i) buf ≡ take i buf ++ (get_or buf i 0 ∷ [])
take-suc [] i h = elim h [ ]
take-suc (c ∷ cs) zero h = refl
take-suc (c ∷ cs) (suc i) h = ap (◌∷◌ c) (take-suc cs i (omega arith))

tail_start-lines :
    (buf : List ℕ) (limit i seen : ℕ)
    → i ≤ length buf
    → seen ≡ line_ends (drop i buf)
    → seen ≤ limit
    → let j = tail_start buf limit i seen in
      (line_ends (drop j buf) ≤ limit) × StartsLine limit (take j buf) (drop j buf)
unfolding tail_start
tail_start-lines buf limit zero seen h e k = (omega (arith), inl refl)
tail_start-lines buf limit (suc i) seen h e k = elim (Bool-cases (get_or buf i 0 == 10)) [
  | inr miss ↦
      rw miss
        (tail_start-lines buf limit i seen (omega arith) (ground (arith, line_ends-drop buf i)) k)
  | inl hit ↦ elim (Bool-cases (ltb limit (seen + 1))) [
    | inl full ↦
        rw (hit, full) (omega arith, inr (take i buf, ground (arith, take-suc buf i), ground arith))
    | inr room ↦
        rw (hit, room)
          (tail_start-lines buf limit i (seen + 1) (omega arith)
            (ground (arith, line_ends-drop buf i)) (ground arith))
  ]
]

drop-length : (buf : List ℕ) → drop (length buf) buf ≡ []
drop-length [] = refl
drop-length (c ∷ cs) = drop-length cs

trim_to_lem :
    (malloc : ℕ → Bool) (buf : List ℕ) (n : ℕ) (out : List ℕ)
    → trim_to malloc buf (pos (suc n)) ≡ some out
    → drop (tail_start buf (suc n) (length buf) 0) buf ≡ out
unfolding trim_to
trim_to_lem malloc buf n out h = ground arith

read_opened_lem :
    (io : LogIo) (file : List ℕ) (limit : ℤ) (out : List ℕ)
    → read_opened io file limit ≡ some out
    → trim_to io.malloc (read_part io.seek_back file) limit ≡ some out
unfolding read_opened
read_opened_lem io file limit out h = ground arith

-- LOGS with a positive limit returns the end of what was read of the log: at most `limit` line
-- ends, and unless all that was read is returned, exactly `limit`, from the start of a line on.
pub read_log_tail_lines :
    (io : LogIo) (file : List ℕ) (n : ℕ) (out : List ℕ)
    → io.fopen ≡ opened file
    → read_log_tail io (pos (suc n)) ≡ some out
    → (front : List ℕ) × (read_part io.seek_back file ≡ front ++ out)
      × (line_ends out ≤ suc n)
      × StartsLine (suc n) front out
unfolding read_log_tail
read_log_tail_lines io file n out e h =
    let part = read_part io.seek_back file in
    let j = tail_start part (suc n) (length part) 0 in
    let cut : drop j part ≡ out =
      trim_to_lem io.malloc part n out
        (read_opened_lem io file (pos (suc n)) out (rw (e, read_log_tail) at h)) in
    let (few, starts) =
      tail_start-lines part (suc n) (length part) 0 (omega arith) (rw (drop-length part))
        (omega arith) in
    (
      take j part,
      sym (take-append-drop j part) ∙ ap (◌++◌ (take j part)) cut,
      rw cut at few,
      rw cut at starts,
    )
