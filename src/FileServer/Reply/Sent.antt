-- ===== src/FileServer/Reply/Sent.antt =====
-- What of a reply goes out on the wire.
use mathlib.Core.List.{append-nil, append_assoc}
use ncsc210_g.Base.{
  ℕ, zero, suc, ◌+◌, ◌^◌, ◌<◌, ◌≡◌, refl, sym, ap, ◌∙◌, ◌≢◌, true, false, List, [], ◌∷◌, ◌++◌,
  arith, ltb, leb, if◌then◌else◌, length, length-append, take, drop, take-append-drop, All, ℤ, pos,
  negsuc, codes,
}
use ncsc210_g.FileServer.Reply.{
  Reply, simple, error, bulk, null_bulk, integer, SendResult, accepts, interrupted, broken, Wire,
  send_loop, send_all, send_line, crlf, and_then, resp_reply_simple, resp_reply_error,
  resp_reply_bulk, resp_reply_null_bulk, resp_reply_integer, send_reply,
}
use ncsc210_g.FileServer.Resp.{cstr}
use ncsc210_g.FileServer.Resp.Number.{decimal, length-decimal}

abbrev pub NotBroken : List SendResult → Type 0
NotBroken [] = Unit
NotBroken (accepts n ∷ es) = NotBroken es
NotBroken (interrupted ∷ es) = NotBroken es
NotBroken (broken ∷ es) = ⊥

-- All the bytes have gone out, and the connection is good for more.
abbrev pub Sends : ℤ × Wire → (out bytes : List ℕ) → Type 0
Sends r out bytes = (r.0 ≡ pos 0) × (r.1.out ≡ out ++ bytes) × NotBroken r.1.sends

send_loop-Sends :
    (es : List SendResult) (bytes out : List ℕ)
    → NotBroken es
    → Sends (send_loop es bytes out) out bytes
unfolding send_loop
send_loop-Sends es [] out h = (refl, sym (append-nil out), h)
send_loop-Sends [] (b ∷ bs) out h = (refl, refl, tt)
send_loop-Sends (accepts n ∷ es) (b ∷ bs) out h =
    let (r, o, k) = send_loop-Sends es (drop n (b ∷ bs)) (out ++ take n (b ∷ bs)) h in
    (
      r,
      o
          ∙ append_assoc out (take n (b ∷ bs)) (drop n (b ∷ bs))
          ∙ ap (◌++◌ out) (take-append-drop n (b ∷ bs)),
      k,
    )
send_loop-Sends (interrupted ∷ es) (b ∷ bs) out h = send_loop-Sends es (b ∷ bs) out h
send_loop-Sends (broken ∷ es) (b ∷ bs) out h = absurd h

send_all-Sends :
    (bytes : List ℕ) (w : Wire) → NotBroken w.sends → Sends (send_all bytes w) w.out bytes
unfolding send_all
send_all-Sends bytes w h = send_loop-Sends w.sends bytes w.out h

send_line-Sends :
    (size : ℕ) (line : List ℕ) (w : Wire)
    → length line < size
    → NotBroken w.sends
    → Sends (send_line size line w) w.out line
send_line-Sends size line w l h =
    let e : leb size (length line) ≡ false = ground arith in rw e (send_all-Sends line w h)

and_then-Sends :
    (r : ℤ × Wire) (f : Wire → ℤ × Wire) (out bytes more : List ℕ)
    → Sends r out bytes
    → ((w : Wire) → NotBroken w.sends → Sends (f w) w.out more)
    → Sends (and_then r f) out (bytes ++ more)
unfolding and_then
and_then-Sends (pos zero, w) f out bytes more (z, o, h) k =
    let (r, p, q) = k w h in (r, p ∙ ap (λ x. x ++ more) o ∙ append_assoc out bytes more, q)
and_then-Sends (pos (suc n), w) f out bytes more (z, o, h) k = absurd (ground (arith, z))
and_then-Sends (negsuc n, w) f out bytes more (z, o, h) k = absurd (ground (arith, z))

-- A message that the client reads as it is: no zero byte, and no carriage return.
abbrev pub IsText : List ℕ → Type 0
IsText msg = All (λ c. (c ≢ 0) × (c ≢ 13)) msg

cstr-IsText : (msg : List ℕ) → IsText msg → cstr msg ≡ msg
unfolding cstr
cstr-IsText [] h = refl
cstr-IsText (zero ∷ cs) h = absurd (h.0.0 refl)
cstr-IsText (suc c ∷ cs) h = ap (◌∷◌ (suc c)) (cstr-IsText cs h.1)

-- A reply whose line fits its buffer, and whose numbers fit 64 bits.
abbrev pub IsReply : Reply → Type 0
IsReply (simple msg) = IsText msg × (length msg + 3 < 256)
IsReply (error msg) = IsText msg × (length msg + 7 < 512)
IsReply (bulk bytes) = length bytes < 2 ^ 64
IsReply null_bulk = Unit
IsReply (integer value) = value < 2 ^ 63

-- The bytes of a reply in RESP.
abbrev pub encode_reply : Reply → List ℕ
encode_reply (simple msg) = b'+' ∷ (msg ++ crlf)
encode_reply (error msg) = codes "-ERR " ++ (msg ++ crlf)
encode_reply (bulk bytes) = b'$' ∷ (decimal (length bytes) ++ (crlf ++ (bytes ++ crlf)))
encode_reply null_bulk = codes "$-1" ++ crlf
encode_reply (integer value) = b':' ∷ (decimal value ++ crlf)

body-Sends :
    (bytes : List ℕ) (w : Wire)
    → NotBroken w.sends
    → Sends (if ltb 0 (length bytes) then send_all bytes w else (pos 0, w)) w.out bytes
body-Sends [] w h = (refl, sym (append-nil w.out), h)
body-Sends (b ∷ bs) w h =
    let e : ltb 0 (length (b ∷ bs)) ≡ true = ground arith in rw e (send_all-Sends (b ∷ bs) w h)

bulk-Sends :
    (bytes : List ℕ) (w : Wire)
    → NotBroken w.sends
    → Sends (resp_reply_bulk bytes w) w.out (encode_reply (bulk bytes))
unfolding resp_reply_bulk
bulk-Sends bytes w h =
    let head = b'$' ∷ (decimal (length bytes) ++ crlf) in
    let short : length head < 64 =
      omega (arith, length-decimal (length bytes), length-append (decimal (length bytes)) crlf) in
    let (r, o, k) =
      and_then-Sends (send_line 64 head w)
        (λ w1.
          and_then (if ltb 0 (length bytes) then send_all bytes w1 else (pos 0, w1))
            (λ w2. send_all crlf w2))
        w.out head (bytes ++ crlf) (send_line-Sends 64 head w short h)
        (λ w1 h1.
          and_then-Sends _ (λ w2. send_all crlf w2) w1.out bytes crlf (body-Sends bytes w1 h1)
            (λ w2 h2. send_all-Sends crlf w2 h2)) in
    (
      r,
      o ∙ ap (λ x. w.out ++ b'$' ∷ x) (append_assoc (decimal (length bytes)) crlf (bytes ++ crlf)),
      k,
    )

-- A reply goes out whole on a connection that does not break, however often a call is interrupted or
-- takes only a part.
pub send_reply-Sends :
    (r : Reply) (w : Wire)
    → IsReply r
    → NotBroken w.sends
    → Sends (send_reply r w) w.out (encode_reply r)
unfolding send_reply resp_reply_simple resp_reply_error resp_reply_null_bulk resp_reply_integer
send_reply-Sends (simple msg) w (text, short) h =
    rw (cstr-IsText msg text)
      (send_line-Sends 256 (b'+' ∷ (msg ++ crlf)) w (omega (arith, length-append msg crlf)) h)
send_reply-Sends (error msg) w (text, short) h = rw (cstr-IsText msg text) (
    send_line-Sends 512 (codes "-ERR " ++ (msg ++ crlf)) w (omega (arith, length-append msg crlf))
      h)
send_reply-Sends (bulk bytes) w fits h = bulk-Sends bytes w h
send_reply-Sends null_bulk w fits h = send_all-Sends (codes "$-1" ++ crlf) w h
send_reply-Sends (integer value) w fits h =
    send_line-Sends 128 (b':' ∷ (decimal value ++ crlf)) w
      (omega (arith, length-decimal value, length-append (decimal value) crlf)) h
