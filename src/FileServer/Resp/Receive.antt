-- ===== src/FileServer/Resp/Receive.antt =====
-- Reading from a connection in terms of its bytes alone: how they are cut into chunks, and how
-- often a call is interrupted, makes no difference.
use mathlib.Core.List.{append-nil, append_assoc}
use ncsc210_g.Base.{
  ℕ, zero, suc, ◌+◌, ◌-◌, ◌≤◌, ◌<◌, ◌≡◌, ◌≢◌, refl, ap, sym, ◌∙◌, List, [], ◌∷◌, ◌++◌, Option, none,
  some, pos, length, length-append, take, drop, leb, arith, All, Bool-cases, inl, inr, take-append,
  drop-append,
}
use ncsc210_g.FileServer.Resp.{
  Event, chunk, interrupted, broken, put_back, recv_loop, recv_exact, received, line_loop, line_end,
  recv_crlf_line,
}

-- The bytes that are still to come.
abbrev pub bytes_of : List Event → List ℕ
bytes_of [] = []
bytes_of (chunk b bs ∷ es) = b ∷ (bs ++ bytes_of es)
bytes_of (interrupted ∷ es) = bytes_of es
bytes_of (broken ∷ es) = bytes_of es

abbrev pub NotBroken : List Event → Type 0
NotBroken [] = Unit
NotBroken (broken ∷ es) = ⊥
NotBroken (chunk _ _ ∷ es) = NotBroken es
NotBroken (interrupted ∷ es) = NotBroken es

-- A reader that gives `a` and leaves a connection with the bytes `rest`.
abbrev pub Leaves {ℓ} : {A : Type ℓ} → Option (A × List Event) → A → List ℕ → Type ℓ
Leaves m a rest = (es : List Event) × (m ≡ some (a, es)) × (bytes_of es ≡ rest) × NotBroken es

bytes_of-put_back : (bs : List ℕ) (es : List Event) → bytes_of (put_back bs es) ≡ bs ++ bytes_of es
bytes_of-put_back [] es = refl
bytes_of-put_back (b ∷ bs) es = refl

NotBroken-put_back : (bs : List ℕ) (es : List Event) → NotBroken es → NotBroken (put_back bs es)
NotBroken-put_back [] es h = h
NotBroken-put_back (b ∷ bs) es h = h

-- A list that starts with `ys` and is at least as long.
append-split :
    (xs rest ys zs : List ℕ)
    → xs ++ rest ≡ ys ++ zs
    → length ys ≤ length xs
    → (ws : List ℕ) × (xs ≡ ys ++ ws) × (zs ≡ ws ++ rest)
append-split xs rest [] zs e h = (xs, refl, sym e)
append-split [] rest (y ∷ ys) zs e h = absurd (omega arith)
append-split (x ∷ xs) rest (y ∷ ys) zs e h =
    let (ws, p, q) = append-split xs rest ys zs (ground (arith, e)) (omega arith) in
    (ws, ground (arith, e, p), q)

recv_loop-Leaves :
    (got xs rest : List ℕ) (n : ℕ) (es : List Event)
    → n ≡ length xs
    → bytes_of es ≡ xs ++ rest
    → NotBroken es
    → (es' : List Event) × (recv_loop got n es ≡ (pos (length got + n), got ++ xs, es'))
      × (bytes_of es' ≡ rest)
      × NotBroken es'
unfolding recv_loop
recv_loop-Leaves got [] rest zero es l e h = (es, ground (arith, append-nil got), e, h)
recv_loop-Leaves got [] rest (suc n) es l e h = absurd (omega arith)
recv_loop-Leaves got (x ∷ xs) rest zero es l e h = absurd (omega arith)
recv_loop-Leaves got (x ∷ xs) rest (suc n) [] l e h = cc
recv_loop-Leaves got (x ∷ xs) rest (suc n) (interrupted ∷ es) l e h =
    recv_loop-Leaves got (x ∷ xs) rest (suc n) es l e h
recv_loop-Leaves got (x ∷ xs) rest (suc n) (broken ∷ es) l e h = absurd h
recv_loop-Leaves got (x ∷ xs) rest (suc n) (chunk b bs ∷ es) l e h =
    elim (Bool-cases (leb (length (b ∷ bs)) (suc n))) [
      | inl fits ↦
          let (ws, p, q) =
            append-split (x ∷ xs) rest (b ∷ bs) (bytes_of es) (sym e) (ground arith) in
          let g : (got ++ b ∷ bs) ++ ws ≡ got ++ x ∷ xs =
            append_assoc got (b ∷ bs) ws ∙ ap (◌++◌ got) (sym p) in
          let size : length ws + length (b ∷ bs) ≡ suc n =
            omega (arith, ap length p, length-append (b ∷ bs) ws) in
          let (es', r, s, t) =
            recv_loop-Leaves (got ++ b ∷ bs) ws rest (suc n - length (b ∷ bs)) es (omega arith) q
              h in
          let count : length (got ++ b ∷ bs) + (suc n - length (b ∷ bs)) ≡ length got + suc n =
            omega (arith, length-append got (b ∷ bs)) in
          (es', rw (fits, ← g, ← count) r, s, t)
      | inr more ↦
          let (ws, p, q) = append-split (b ∷ bs) (bytes_of es) (x ∷ xs) rest e (ground arith) in
          let taken : take (suc n) (b ∷ bs) ≡ x ∷ xs =
            ap (take (suc n)) p ∙ take-append (suc n) (x ∷ xs) ws l in
          let left : drop (suc n) (b ∷ bs) ≡ ws =
            ap (drop (suc n)) p ∙ drop-append (suc n) (x ∷ xs) ws l in
          (
            put_back ws es,
            rw more (ground (arith, taken, left)),
            bytes_of-put_back ws es ∙ sym q,
            NotBroken-put_back ws es h,
          )
    ]

-- recv_exact, asked for at least one byte, takes exactly what was asked for if it comes, whatever
-- chunks it comes in.
pub received-Leaves :
    (xs rest : List ℕ) (n : ℕ) (es : List Event)
    → n ≡ length xs
    → 0 < n
    → bytes_of es ≡ xs ++ rest
    → NotBroken es
    → Leaves (received (recv_exact n es)) xs rest
unfolding recv_exact
received-Leaves xs rest zero es l k e h = absurd (omega arith)
received-Leaves xs rest (suc n) es l k e h =
    let (es', r, s, t) = recv_loop-Leaves [] xs rest (suc n) es l e h in
    (es', ground (arith, r), s, t)

-- One byte.
pub received-one :
    (c : ℕ) (rest : List ℕ) (es : List Event)
    → bytes_of es ≡ c ∷ rest
    → NotBroken es
    → Leaves (received (recv_exact 1 es)) (c ∷ []) rest
received-one c rest es e h = received-Leaves (c ∷ []) rest 1 es (omega arith) (omega arith) e h

-- recv_exact never reports success for no bytes, since 0 stands for the end of the stream.
pub received-zero : (es : List Event) → received (recv_exact 0 es) ≡ none
unfolding recv_exact recv_loop
received-zero es = refl

line_loop-Leaves :
    (left : ℕ) (out text rest : List ℕ) (es : List Event)
    → length text < left
    → All (λ c. c ≢ 13) text
    → bytes_of es ≡ text ++ (13 ∷ 10 ∷ rest)
    → NotBroken es
    → Leaves (line_loop left out es) (out ++ text) rest
unfolding line_loop line_end
line_loop-Leaves zero out text rest es l a e h = absurd (omega arith)
line_loop-Leaves (suc left) out [] rest es l a e h =
    let (es1, r1, b1, h1) = received-one 13 (10 ∷ rest) es e h in
    let (es2, r2, b2, h2) = received-one 10 rest es1 b1 h1 in
    (es2, rw (r1, r2) (ground (arith, append-nil out)), b2, h2)
line_loop-Leaves (suc left) out (c ∷ text) rest es l a e h =
    let (es1, r1, b1, h1) = received-one c (text ++ (13 ∷ 10 ∷ rest)) es e h in
    let (es2, r2, b2, h2) =
      line_loop-Leaves left (out ++ c ∷ []) text rest es1 (omega arith) a.1 b1 h1 in
    (es2, rw r1 (ground (arith, r2, a.0, append_assoc out (c ∷ []) text)), b2, h2)

-- A line without carriage returns that leaves room for the zero byte is read up to its end.
pub recv_crlf_line-Leaves :
    (text rest : List ℕ) (out_sz : ℕ) (es : List Event)
    → length text + 1 < out_sz
    → All (λ c. c ≢ 13) text
    → bytes_of es ≡ text ++ (13 ∷ 10 ∷ rest)
    → NotBroken es
    → Leaves (recv_crlf_line out_sz es) text rest
unfolding recv_crlf_line
recv_crlf_line-Leaves text rest out_sz es l a e h =
    line_loop-Leaves (out_sz - 1) [] text rest es (omega arith) a e h
