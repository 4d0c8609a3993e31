-- ===== src/FileServer/Resp.antt =====
-- The request half of G16_Project_3/src/resp.c: how bytes from a socket become the strings of a
-- request. A connection is the list of what the calls of `recv` still meet.
mod Tests
pub mod Number
pub mod Receive
pub mod Parse
pub mod Bounds
use ncsc210_g.Base.{
  ℕ, zero, suc, ◌+◌, ◌*◌, ◌-◌, ◌^◌, Bool, ◌&&◌, ◌||◌, List, [], ◌∷◌, ◌++◌, Option, none, some, ℤ,
  pos, negsuc, minus_one, length, take, drop, get_or, leb, ltb, ◌==◌, if◌then◌else◌,
}
use ncsc210_g.Base.Maybe.{◌>>=◌, ◌>>◌, guard}

-- Bytes that have come in (at least one), a call that fails with EINTR, one that fails otherwise.
-- At the end of the list the peer has closed, and `recv` returns 0.
pub data Event : Type 0 where
  chunk : ℕ → List ℕ → Event
  interrupted : Event
  broken : Event

-- Bytes that a `recv` leaves for the next.
abbrev pub put_back : List ℕ → List Event → List Event
put_back [] es = es
put_back (b ∷ bs) es = chunk b bs ∷ es

-- The loop of recv_exact: `got` is in the buffer, `left` bytes are wanted. Of a chunk that is too
-- long the rest waits. The result is the return value, the buffer and what is left.
pub recv_loop : (got : List ℕ) (left : ℕ) → List Event → ℤ × List ℕ × List Event
recv_loop got zero es = (pos (length got), got, es)
recv_loop got (suc left) [] = (pos 0, got, [])
recv_loop got (suc left) (interrupted ∷ es) = recv_loop got (suc left) es
recv_loop got (suc left) (broken ∷ es) = (minus_one, got, es)
recv_loop got (suc left) (chunk b bs ∷ es) =
    let n = length (b ∷ bs) in
    let all = recv_loop (got ++ b ∷ bs) (suc left - n) es in
    if leb n (suc left) then all else (
      pos (length got + suc left),
      got ++ take (suc left) (b ∷ bs),
      put_back (drop (suc left) (b ∷ bs)) es,
    )

unfoldable pub recv_exact : ℕ → List Event → ℤ × List ℕ × List Event
unfolding recv_loop
recv_exact n es = recv_loop [] n es

-- The test `recv_exact(…) <= 0` that every caller makes.
abbrev pub received : ℤ × List ℕ × List Event → Option (List ℕ × List Event)
received (pos (suc n), got, es) = some (got, es)
received (pos zero, got, es) = none
received (negsuc n, got, es) = none

-- Behind a carriage return: the line is over if a line feed follows.
line_end : (out : List ℕ) → List Event → Option (List ℕ × List Event)
line_end out es = do
  (next, es') ← received (recv_exact 1 es)
  guard (get_or next 0 0 == 10)
  some (out, es')

-- The loop of recv_crlf_line, with `left` rounds to go: `out` is the line so far.
pub line_loop : (left : ℕ) (out : List ℕ) → List Event → Option (List ℕ × List Event)
unfolding line_end
line_loop zero out es = none
line_loop (suc left) out es = do
  (c, es') ← received (recv_exact 1 es)
  let more = line_loop left (out ++ get_or c 0 0 ∷ []) es'
  if get_or c 0 0 == 13 then line_end out es' else more

unfoldable pub recv_crlf_line : (out_sz : ℕ) → List Event → Option (List ℕ × List Event)
unfolding line_loop recv_exact
recv_crlf_line out_sz es = line_loop (out_sz - 1) [] es

-- The bytes before the first zero byte: how C reads a buffer as a string.
unfoldable pub cstr : List ℕ → List ℕ
cstr [] = []
cstr (zero ∷ cs) = []
cstr (suc c ∷ cs) = suc c ∷ cstr cs

pub is_space : ℕ → Bool
is_space c = c == 32 || leb 9 c && leb c 13

pub skip_space : List ℕ → List ℕ
skip_space [] = []
skip_space (c ∷ cs) = if is_space c then skip_space cs else c ∷ cs

-- The value of a run of digits up to the end of the string.
pub digits_value : (acc : ℕ) → List ℕ → Option ℕ
digits_value acc [] = some acc
digits_value acc (c ∷ cs) =
    let rest = digits_value (acc * 10 + (c - 48)) cs in if leb 48 c && leb c 57 then rest else none

magnitude : List ℕ → Option ℕ
magnitude [] = none
magnitude (c ∷ cs) = digits_value 0 (c ∷ cs)

negated : ℕ → ℤ
negated zero = pos 0
negated (suc n) = negsuc n

-- `strtol` in base 10, behind the white space; `none` if no number fills the string.
signed : List ℕ → Option ℤ
signed [] = none
signed (c ∷ cs) =
    if c == b'-'
    then (do n ← magnitude cs; some (negated n))
    else if c == b'+'
    then (do n ← magnitude cs; some (pos n))
    else (do n ← magnitude (c ∷ cs); some (pos n))

fits_int : ℤ → Bool
fits_int (pos n) = ltb n (2 ^ 31)
fits_int (negsuc n) = ltb n (2 ^ 31)

unfoldable pub parse_int : List ℕ → Option ℤ
unfolding cstr is_space skip_space digits_value magnitude negated signed fits_int
parse_int s = do v ← signed (skip_space (cstr s)); guard (fits_int v); some v

abbrev not_negative : ℤ → Option ℕ
not_negative (pos n) = some n
not_negative (negsuc n) = none

abbrev pub line_sz : ℕ
line_sz = 64

-- The body of the `for` loop of resp_read_array: one bulk string.
read_item : (malloc : ℕ → Bool) → List Event → Option (List ℕ × List Event)
unfolding recv_exact recv_crlf_line parse_int
read_item malloc es = do
  (kind, es1) ← received (recv_exact 1 es)
  guard (get_or kind 0 0 == b'$')
  (line, es2) ← recv_crlf_line line_sz es1
  v ← parse_int line
  blen ← not_negative v
  guard (malloc (blen + 1))
  (body, es3) ← received (recv_exact blen es2)
  (crlf, es4) ← received (recv_exact 2 es3)
  guard (get_or crlf 0 0 == 13 && get_or crlf 1 0 == 10)
  some (body, es4)

pub read_items : (malloc : ℕ → Bool) (left : ℕ) → List Event → Option (List (List ℕ) × List Event)
read_items malloc zero es = some ([], es)
read_items malloc (suc left) es = do
  (body, es1) ← read_item malloc es
  (rest, es2) ← read_items malloc left es1
  some (body ∷ rest, es2)

-- `none` is the result -1; `malloc n` says whether an allocation of `n` bytes succeeds. An entry of
-- the array of strings takes 16 bytes.
unfoldable pub resp_read_array :
    (malloc : ℕ → Bool) → List Event → Option (List (List ℕ) × List Event)
unfolding recv_exact recv_crlf_line parse_int read_item read_items
resp_read_array malloc es = do
  (lead, es1) ← received (recv_exact 1 es)
  guard (get_or lead 0 0 == b'*')
  (line, es2) ← recv_crlf_line line_sz es1
  v ← parse_int line
  nitems ← not_negative v
  guard (ltb 0 nitems && leb nitems 128)
  guard (malloc (nitems * 16))
  read_items malloc nitems es2
