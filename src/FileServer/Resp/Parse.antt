-- ===== src/FileServer/Resp/Parse.antt =====
-- A request that a client encodes in RESP is read back.

use ncsc210_g.Base.{
  ℕ, ◌+◌, ◌*◌, ◌^◌, ◌≤◌, ◌<◌, ◌≡◌, ◌≢◌, refl, Bool, true, List, [], ◌∷◌, ◌++◌, none, length, leb,
  ltb, ◌&&◌, arith, All,
}
use ncsc210_g.Base.Maybe.{guard-none}
use ncsc210_g.FileServer.Resp.{
  Event, recv_crlf_line, line_sz, read_item, read_items, resp_read_array,
}
use ncsc210_g.FileServer.Resp.Number.{
  decimal, IsDigit, decimal-IsDigit, length-decimal, parse_int-decimal,
}
use ncsc210_g.FileServer.Resp.Receive.{
  bytes_of, NotBroken, Leaves, received-Leaves, received-one, received-zero, recv_crlf_line-Leaves,
}

-- The encoding of a request: an array of bulk strings. `rest` follows it.
abbrev pub encode_item : List ℕ → List ℕ → List ℕ
encode_item body rest = b'$' ∷ (decimal (length body) ++ (13 ∷ 10 ∷ (body ++ (13 ∷ 10 ∷ rest))))

abbrev pub encode_items : List (List ℕ) → List ℕ → List ℕ
encode_items [] rest = rest
encode_items (body ∷ items) rest = encode_item body (encode_items items rest)

abbrev pub encode_request : List (List ℕ) → List ℕ → List ℕ
encode_request items rest = b'*' ∷ (decimal (length items) ++ (13 ∷ 10 ∷ encode_items items rest))

-- A string that resp_read_array takes: not empty, its length an `int`, and room for it.
abbrev pub IsItem : (ℕ → Bool) → List ℕ → Type 0
IsItem malloc body = (0 < length body) × (length body < 2 ^ 31) × (malloc (length body + 1) ≡ true)

digits-not-cr : (cs : List ℕ) → All IsDigit cs → All (λ c. c ≢ 13) cs
digits-not-cr [] h = tt
digits-not-cr (c ∷ cs) h = ((λ e. omega arith), digits-not-cr cs h.1)

-- A line that holds a number.
number_line-Leaves :
    (n : ℕ) (rest : List ℕ) (es : List Event)
    → bytes_of es ≡ decimal n ++ (13 ∷ 10 ∷ rest)
    → NotBroken es
    → Leaves (recv_crlf_line line_sz es) (decimal n) rest
number_line-Leaves n rest es e h =
    recv_crlf_line-Leaves (decimal n) rest line_sz es (omega (arith, length-decimal n))
      (digits-not-cr (decimal n) (decimal-IsDigit n)) e h

read_item-Leaves :
    (malloc : ℕ → Bool) (body rest : List ℕ) (es : List Event)
    → IsItem malloc body
    → bytes_of es ≡ encode_item body rest
    → NotBroken es
    → Leaves (read_item malloc es) body rest
unfolding read_item
read_item-Leaves malloc body rest es (some_bytes, int, room) e h =
    let (es1, r1, b1, h1) = received-one _ _ es e h in
    let (es2, r2, b2, h2) = number_line-Leaves (length body) _ es1 b1 h1 in
    let (es3, r3, b3, h3) =
      received-Leaves body (13 ∷ 10 ∷ rest) (length body) es2 refl some_bytes b2 h2 in
    let (es4, r4, b4, h4) =
      received-Leaves (13 ∷ 10 ∷ []) rest 2 es3 (omega arith) (omega arith) b3 h3 in
    (es4, rw (r1, r2, parse_int-decimal (length body) int, room, r3, r4), b4, h4)

read_items-Leaves :
    (malloc : ℕ → Bool) (items : List (List ℕ)) (rest : List ℕ) (es : List Event)
    → All (IsItem malloc) items
    → bytes_of es ≡ encode_items items rest
    → NotBroken es
    → Leaves (read_items malloc (length items) es) items rest
unfolding read_items
read_items-Leaves malloc [] rest es a e h = (es, refl, e, h)
read_items-Leaves malloc (body ∷ items) rest es a e h =
    let (es1, r1, b1, h1) = read_item-Leaves malloc body (encode_items items rest) es a.0 e h in
    let (es2, r2, b2, h2) = read_items-Leaves malloc items rest es1 a.1 b1 h1 in
    (es2, rw (r1, r2), b2, h2)

in_range : (n : ℕ) → 0 < n → n ≤ 128 → (ltb 0 n && leb n 128) ≡ true
in_range n low high = ground arith

-- A request of 1 to 128 nonempty strings is read back from its encoding, whatever chunks it comes
-- in and however often a call is interrupted, and what follows it is left for the next request. No
-- `recv` fails, and the allocations succeed.
pub resp_read_array-encode :
    (malloc : ℕ → Bool) (items : List (List ℕ)) (rest : List ℕ) (es : List Event)
    → 0 < length items
    → length items ≤ 128
    → malloc (length items * 16) ≡ true
    → All (IsItem malloc) items
    → bytes_of es ≡ encode_request items rest
    → NotBroken es
    → Leaves (resp_read_array malloc es) items rest
unfolding resp_read_array
resp_read_array-encode malloc items rest es low high room a e h =
    let (es1, r1, b1, h1) = received-one _ _ es e h in
    let (es2, r2, b2, h2) = number_line-Leaves (length items) _ es1 b1 h1 in
    let (es3, r3, b3, h3) = read_items-Leaves malloc items rest es2 a b2 h2 in
    (
      es3,
      rw (
        r1,
        r2,
        parse_int-decimal (length items) (omega arith),
        in_range (length items) low high,
        room,
        r3,
      ),
      b3,
      h3,
    )

read_item-empty :
    (malloc : ℕ → Bool) (rest : List ℕ) (es : List Event)
    → bytes_of es ≡ encode_item [] rest
    → NotBroken es
    → read_item malloc es ≡ none
unfolding read_item
read_item-empty malloc rest es e h =
    let (es1, r1, b1, h1) = received-one _ _ es e h in
    let (es2, r2, b2, h2) = number_line-Leaves 0 _ es1 b1 h1 in
    rw (r1, r2, parse_int-decimal 0 (omega arith), received-zero es2) (guard-none (malloc 1) refl)

read_items-empty :
    (malloc : ℕ → Bool) (items others : List (List ℕ)) (rest : List ℕ) (es : List Event)
    → All (IsItem malloc) items
    → bytes_of es ≡ encode_items (items ++ [] ∷ others) rest
    → NotBroken es
    → read_items malloc (length (items ++ [] ∷ others)) es ≡ none
unfolding read_items
read_items-empty malloc [] others rest es a e h = rw (read_item-empty malloc _ es e h)
read_items-empty malloc (body ∷ items) others rest es a e h =
    let (es1, r1, b1, h1) = read_item-Leaves malloc body _ es a.0 e h in
    rw (r1, read_items-empty malloc items others rest es1 a.1 b1 h1)

-- A request with an empty string in it, behind strings that are taken, is refused, whatever chunks
-- it comes in, although RESP allows one: so SETFILE cannot write an empty file.
pub resp_read_array-empty :
    (malloc : ℕ → Bool) (items others : List (List ℕ)) (rest : List ℕ) (es : List Event)
    → All (IsItem malloc) items
    → length (items ++ [] ∷ others) ≤ 128
    → bytes_of es ≡ encode_request (items ++ [] ∷ others) rest
    → NotBroken es
    → resp_read_array malloc es ≡ none
unfolding resp_read_array
resp_read_array-empty malloc items others rest es a high e h =
    let all = items ++ [] ∷ others in
    let (es1, r1, b1, h1) = received-one _ _ es e h in
    let (es2, r2, b2, h2) = number_line-Leaves (length all) _ es1 b1 h1 in
    let refused = read_items-empty malloc items others rest es2 a b2 h2 in
    rw (r1, r2, parse_int-decimal (length all) (omega arith), refused)
      (guard-none (ltb 0 (length all) && leb (length all) 128)
        (guard-none (malloc (length all * 16)) refl))
