-- ===== src/FileServer/Resp/Bounds.antt =====
-- What every request that is read satisfies, whatever bytes come in.
use ncsc210_g.Base.{
  ℕ, zero, suc, ◌+◌, ◌-◌, ◌*◌, ◌^◌, ◌≤◌, ◌<◌, ◌≡◌, ap, ◌∙◌, Bool, true, ◌&&◌, some, List, [], ◌∷◌,
  ◌++◌, arith, ltb, leb, ◌==◌, length, length-append, get_or, take, length-take, All, ℤ, pos,
  negsuc,
}
use ncsc210_g.Base.Maybe.{>>=-eq-some, guard-eq-some, some_pair_fst}
use ncsc210_g.FileServer.Resp.{
  Event, chunk, interrupted, broken, recv_loop, recv_exact, received, recv_crlf_line, cstr,
  skip_space, signed, fits_int, parse_int, not_negative, line_sz, read_item, read_items,
  resp_read_array,
}

-- A successful recv_exact has filled the buffer.
recv_loop-full :
    (got : List ℕ) (left : ℕ) (es es' : List Event) (n : ℕ) (out : List ℕ)
    → recv_loop got left es ≡ (pos (suc n), out, es')
    → (length out ≡ length got + left) × (suc n ≡ length out)
unfolding recv_loop
recv_loop-full got zero es es' n out h = ground arith
recv_loop-full got (suc left) [] es' n out h = ground arith
recv_loop-full got (suc left) (interrupted ∷ es) es' n out h =
    recv_loop-full got (suc left) es es' n out h
recv_loop-full got (suc left) (broken ∷ es) es' n out h = ground arith
recv_loop-full got (suc left) (chunk b bs ∷ es) es' n out h = ground (
  arith,
  recv_loop-full (got ++ b ∷ bs) (suc left - length (b ∷ bs)) es es' n out,
  length-append got (b ∷ bs),
  length-append got (b ∷ take left bs),
  length-take left bs,
)

received_lem :
    (r : ℤ × List ℕ × List Event) (out : List ℕ) (es : List Event)
    → received r ≡ some (out, es)
    → (n : ℕ) × (r ≡ (pos (suc n), out, es))
received_lem (pos zero, got, es') out es h = cc
received_lem (pos (suc n), got, es') out es h = (n, ground arith)
received_lem (negsuc n, got, es') out es h = cc

received-length :
    (n : ℕ) (es es' : List Event) (out : List ℕ)
    → received (recv_exact n es) ≡ some (out, es')
    → (length out ≡ n) × (0 < length out)
unfolding recv_exact
received-length n es es' out h =
    let (m, e) = received_lem (recv_loop [] n es) out es' h in
    omega (arith, recv_loop-full [] n es es' m out e)

parse_int_bounds : (s : List ℕ) (n : ℕ) → parse_int s ≡ some (pos n) → n < 2 ^ 31
unfolding parse_int
parse_int_bounds s n h =
    let (v, _, h') = >>=-eq-some (signed (skip_space (cstr s))) _ h in
    let (fits, e) = guard-eq-some (fits_int v) (some v) h' in ground (arith, fits, e)

-- A string that a request holds: not empty, and its length an `int`.
abbrev pub Within : List ℕ → Type 0
Within body = (0 < length body) × (length body < 2 ^ 31)

not_negative_lem : (v : ℤ) (n : ℕ) → not_negative v ≡ some n → v ≡ pos n
not_negative_lem (pos m) n h = ground arith
not_negative_lem (negsuc m) n h = cc

read_item-Within :
    (malloc : ℕ → Bool) (es es' : List Event) (body : List ℕ)
    → read_item malloc es ≡ some (body, es')
    → Within body
unfolding read_item
read_item-Within malloc es es' body h0 =
    let (r1, _, h1) = >>=-eq-some (received (recv_exact 1 es)) _ h0 in
    let (_, h2) = guard-eq-some (get_or r1.0 0 0 == b'$') _ h1 in
    let (r2, _, h3) = >>=-eq-some (recv_crlf_line line_sz r1.1) _ h2 in
    let (v, q, h4) = >>=-eq-some (parse_int r2.0) _ h3 in
    let (blen, p, h5) = >>=-eq-some (not_negative v) _ h4 in
    let (_, h6) = guard-eq-some (malloc (blen + 1)) _ h5 in
    let (r3, full, h7) = >>=-eq-some (received (recv_exact blen r2.1)) _ h6 in
    let (r4, _, h8) = >>=-eq-some (received (recv_exact 2 r3.1)) _ h7 in
    let (_, h9) = guard-eq-some (get_or r4.0 0 0 == 13 && get_or r4.0 1 0 == 10) _ h8 in
    let size = received-length blen r2.1 r3.1 r3.0 full in
    let small = parse_int_bounds r2.0 blen (q ∙ ap some (not_negative_lem v blen p)) in
    let same : r3.0 ≡ body = some_pair_fst h9 in rw (← same) (omega (arith, size, small))

read_items-Within :
    (malloc : ℕ → Bool) (left : ℕ) (es es' : List Event) (items : List (List ℕ))
    → read_items malloc left es ≡ some (items, es')
    → (length items ≡ left) × All Within items
unfolding read_items
read_items-Within malloc zero es es' items h = ground arith
read_items-Within malloc (suc left) es es' items h =
    let (r1, first, h1) = >>=-eq-some (read_item malloc es) _ h in
    let (r2, others, h2) = >>=-eq-some (read_items malloc left r1.1) _ h1 in
    let w = read_item-Within malloc es r1.1 r1.0 first in
    let (n, ws) = read_items-Within malloc left r1.1 r2.1 r2.0 others in
    let same : r1.0 ∷ r2.0 ≡ items = ground (arith, h2) in rw (← same) (ap suc n, (w, ws))

in_range : (n : ℕ) → (ltb 0 n && leb n 128) ≡ true → (0 < n) × (n ≤ 128)
in_range n h = ground arith

-- Whatever bytes come in, a request that is accepted has 1 to 128 strings, none of them empty, each
-- shorter than 2 GiB.
pub resp_read_array_bounds :
    (malloc : ℕ → Bool) (es es' : List Event) (items : List (List ℕ))
    → resp_read_array malloc es ≡ some (items, es')
    → (0 < length items) × (length items ≤ 128) × All Within items
unfolding resp_read_array
resp_read_array_bounds malloc es es' items h0 =
    let (r1, _, h1) = >>=-eq-some (received (recv_exact 1 es)) _ h0 in
    let (_, h2) = guard-eq-some (get_or r1.0 0 0 == b'*') _ h1 in
    let (r2, _, h3) = >>=-eq-some (recv_crlf_line line_sz r1.1) _ h2 in
    let (v, _, h4) = >>=-eq-some (parse_int r2.0) _ h3 in
    let (n, _, h5) = >>=-eq-some (not_negative v) _ h4 in
    let (range, h6) = guard-eq-some (ltb 0 n && leb n 128) _ h5 in
    let (_, h7) = guard-eq-some (malloc (n * 16)) _ h6 in
    let (count, all) = read_items-Within malloc n r2.1 es' items h7 in
    let (low, high) = in_range n range in (omega arith, omega arith, all)
