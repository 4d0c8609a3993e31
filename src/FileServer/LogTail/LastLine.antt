-- ===== src/FileServer/LogTail/LastLine.antt =====
-- The last line of a log, by its line end and the one before it.

use ncsc210_g.Base.{
  ℕ, zero, suc, ◌+◌, ◌≤◌, ◌≡◌, refl, sym, ap, subst, ◌∙◌, ◌⊎◌, inl, inr, true, some, List, [], ◌∷◌,
  ◌++◌, arith, length, drop, pos,
}
use ncsc210_g.FileServer.LogTail.{LogIo, max_tail, read_log_tail, read_part}
use ncsc210_g.FileServer.LogTail.Reads.{read_part-line, Succeeds, read_log_tail-some}
use ncsc210_g.FileServer.LogTail.Lines.{line_ends, StartsLine, read_log_tail_lines}

-- A log has nothing behind its last line end.
abbrev pub Ended : List ℕ → Type 0
Ended log = (log ≡ []) ⊎ ((before : List ℕ) × (log ≡ before ++ (10 ∷ [])))

pub line_ends-append : (xs ys : List ℕ) → line_ends (xs ++ ys) ≡ line_ends xs + line_ends ys
line_ends-append [] ys = omega arith
line_ends-append (x ∷ xs) ys = omega (arith, line_ends-append xs ys)

Ended-tail : (c : ℕ) (cs : List ℕ) → Ended (c ∷ cs) → Ended cs
Ended-tail c cs (inl e) = absurd (ground (arith, e))
Ended-tail c cs (inr ([], e)) = inl (cc)
Ended-tail c cs (inr (b ∷ before, e)) = inr (before, cc)

Ended-suffix : (front xs : List ℕ) → Ended (front ++ xs) → Ended xs
Ended-suffix [] xs h = h
Ended-suffix (c ∷ front) xs h = Ended-suffix front xs (Ended-tail c (front ++ xs) h)

pub Ended-drop : (n : ℕ) (xs : List ℕ) → Ended xs → Ended (drop n xs)
Ended-drop zero xs h = h
Ended-drop (suc n) [] h = h
Ended-drop (suc n) (x ∷ xs) h = Ended-drop n xs (Ended-tail x xs h)

Ended-count : (xs : List ℕ) → Ended xs → (xs ≡ []) ⊎ (1 ≤ line_ends xs)
Ended-count xs (inl e) = inl e
Ended-count xs (inr (before, e)) =
    let count = line_ends-append before (10 ∷ []) in
    let same : line_ends xs ≡ line_ends (before ++ 10 ∷ []) = ap line_ends e in
    inr (omega (arith, count, same))

-- Two ways to cut a list.
cut_twice :
    (a b c d : List ℕ)
    → a ++ b ≡ c ++ d
    → ((x : List ℕ) × (a ≡ c ++ x) × (d ≡ x ++ b)) ⊎ ((x : List ℕ) × (c ≡ a ++ x) × (b ≡ x ++ d))
cut_twice [] b c d h = inr (c, refl, h)
cut_twice (x ∷ a) b [] d h = inl (x ∷ a, refl, sym h)
cut_twice (x ∷ a) b (y ∷ c) d h =
    let head : x ≡ y = cc in
    let rest : a ++ b ≡ c ++ d = cc in
    elim (cut_twice a b c d rest) [
      | inl (z, e, g) ↦ inl (z, cc, g)
      | inr (z, e, g) ↦ inr (z, cc, g)
    ]

nil_of : (xs ys : List ℕ) → xs ++ ys ≡ [] → ys ≡ []
nil_of [] ys h = h
nil_of (x ∷ xs) ys h = absurd (ground (arith, h))

-- The part of a log before its last line is a whole number of lines.
front-Ended :
    (front out : List ℕ)
    → StartsLine 1 front out
    → (front ≡ []) ⊎ (Ended front × (line_ends out ≡ 1))
front-Ended front out (inl e) = inl e
front-Ended front out (inr (before, e, n)) = inr (inr (before, e), n)

-- The last line, found by its line end and by the one before it.
pub same_line :
    (front out before line : List ℕ)
    → front ++ out ≡ before ++ line
    → StartsLine 1 front out
    → line_ends out ≤ 1
    → Ended before
    → line_ends line ≡ 1
    → out ≡ line
same_line front out before line h starts few ended one = elim (cut_twice front out before line h) [
  | inl (x, e, g) ↦ elim (front-Ended front out starts) [
    | inl none_there ↦
        let nil : x ≡ [] = nil_of before x (sym e ∙ none_there) in sym (g ∙ ap (λ y. y ++ out) nil)
    | inr (f, count) ↦ elim (Ended-count x (Ended-suffix before x (subst Ended e f))) [
      | inl nil ↦ sym (g ∙ ap (λ y. y ++ out) nil)
      | inr more ↦
          let sum = line_ends-append x out in
          let same : line_ends line ≡ line_ends (x ++ out) = ap line_ends g in
          absurd (omega (arith, more, sum, same, count, one))
    ]
  ]
  | inr (x, e, g) ↦ elim (Ended-count x (Ended-suffix front x (subst Ended e ended))) [
    | inl nil ↦ g ∙ ap (λ y. y ++ line) nil
    | inr more ↦
        let sum = line_ends-append x line in
        let same : line_ends out ≡ line_ends (x ++ line) = ap line_ends g in
        absurd (omega (arith, more, sum, same, few, one))
  ]
]

-- LOGS of one line shows the last line of a log, if it is not too long and the calls succeed.
pub last_line_shown :
    (log line after : List ℕ) (io : LogIo)
    → Ended log
    → line_ends line ≡ 1
    → length line ≤ max_tail
    → log ++ line ≡ after
    → Succeeds io after
    → read_log_tail io (pos 1) ≡ some line
last_line_shown log line after io ended one short whole calls =
    let (n, part) = read_part-line log line short in
    let (out, shown) = read_log_tail-some io after 0 calls in
    let (front, cut, few, starts) = read_log_tail_lines io after 0 out calls.fopen_ok shown in
    let read : read_part io.seek_back after ≡ drop n log ++ line =
      ap (λ x. read_part x after) calls.seek_back_ok ∙ ap (read_part true) (sym whole) ∙ part in
    let same : out ≡ line =
      same_line front out (drop n log) line (sym cut ∙ read) starts few (Ended-drop n log ended)
        one in
    shown ∙ ap some same
