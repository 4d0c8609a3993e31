-- ===== src/FileServer/Reply/Read.antt =====
-- A client that reads replies in RESP, and what it gets from the server's.
use mathlib.Core.List.{append-nil, append_assoc}
use ncsc210_g.Base.{
  ℕ, zero, suc, ◌+◌, ◌^◌, ◌<◌, ◌≡◌, refl, sym, ap, ◌∙◌, ◌≢◌, true, false, ◌&&◌, Option, none, some,
  List, [], ◌∷◌, ◌++◌, arith, leb, ◌==◌, if◌then◌else◌, length, length-append, get_or, take, drop,
  take-append, drop-append, All, codes,
}
use ncsc210_g.Base.Maybe.{◌>>=◌, ◌>>◌, guard}
use ncsc210_g.FileServer.Reply.{
  Reply, simple, error, bulk, null_bulk, integer, SendResult, Wire, crlf, send_reply,
}
use ncsc210_g.FileServer.Reply.Sent.{NotBroken, IsText, IsReply, encode_reply, send_reply-Sends}
use ncsc210_g.FileServer.Resp.{digits_value}
use ncsc210_g.FileServer.Resp.Number.{
  decimal, IsDigit, digits_value-decimal_digits, decimal-IsDigit,
}

-- The bytes in front of the first line end, and those behind it.
pub split_line : List ℕ → Option (List ℕ × List ℕ)
split_line [] = none
split_line (c ∷ cs) =
    let longer = (do (line, rest) ← split_line cs; some (c ∷ line, rest)) in
    if c == 13 && get_or cs 0 0 == 10 then some ([], drop 1 cs) else longer

-- A bulk string behind its line: no string at all if the line is `-1`.
read_bulk : (line rest : List ℕ) → Option (Reply × List ℕ)
read_bulk line rest = if get_or line 0 0 == b'-' then some (null_bulk, rest) else (do
  n ← digits_value 0 line
  guard (leb (n + 2) (length rest))
  some (bulk (take n rest), drop (n + 2) rest))

abbrev read_integer : (line rest : List ℕ) → Option (Reply × List ℕ)
read_integer line rest = do v ← digits_value 0 line; some (integer v, rest)

-- The reply that a line starts whose first byte is `kind`.
abbrev read_kind : (kind : ℕ) (line rest : List ℕ) → Option (Reply × List ℕ)
read_kind kind line rest =
    if kind == b'+'
    then some (simple line, rest)
    else if kind == b'-'
    then some (error (drop 4 line), rest)
    else if kind == b'$'
    then read_bulk line rest
    else if kind == b':'
    then read_integer line rest
    else none

pub read_reply : List ℕ → Option (Reply × List ℕ)
unfolding read_bulk
read_reply [] = none
read_reply (kind ∷ bytes) = do (line, rest) ← split_line bytes; read_kind kind line rest

pub read_replies : (count : ℕ) → List ℕ → Option (List Reply × List ℕ)
read_replies zero bytes = some ([], bytes)
read_replies (suc count) bytes = do
  (r, bytes1) ← read_reply bytes
  (rs, bytes2) ← read_replies count bytes1
  some (r ∷ rs, bytes2)

-- The replies of a connection, one after the other.
pub send_replies : List Reply → Wire → Wire
send_replies [] w = w
send_replies (r ∷ rs) w = send_replies rs (send_reply r w).1

split_line-append :
    (line rest : List ℕ)
    → All (λ c. c ≢ 13) line
    → split_line (line ++ (crlf ++ rest)) ≡ some (line, rest)
unfolding split_line
split_line-append [] rest h = refl
split_line-append (c ∷ cs) rest h = ground (arith, split_line-append cs rest h.1, h.0)

digits-not-cr : (cs : List ℕ) → All IsDigit cs → All (λ c. c ≢ 13) cs
digits-not-cr [] h = tt
digits-not-cr (c ∷ cs) h = ((λ e. omega (arith, h.0, e)), digits-not-cr cs h.1)

text-not-cr : (cs : List ℕ) → IsText cs → All (λ c. c ≢ 13) cs
text-not-cr [] h = tt
text-not-cr (c ∷ cs) h = (h.0.1, text-not-cr cs h.1)

digits-first : (cs : List ℕ) → All IsDigit cs → (get_or cs 0 0 == b'-') ≡ false
digits-first [] h = refl
digits-first (c ∷ cs) h = ground (arith, h.0)

digits_value-decimal : (n : ℕ) → n < 2 ^ 64 → digits_value 0 (decimal n) ≡ some n
unfolding decimal
digits_value-decimal n h = digits_value-decimal_digits 19 n (omega arith)

bulk-read :
    (bytes rest : List ℕ)
    → length bytes < 2 ^ 64
    → read_bulk (decimal (length bytes)) (bytes ++ (crlf ++ rest)) ≡ some (bulk bytes, rest)
unfolding read_bulk
bulk-read bytes rest fits =
    let first = digits-first (decimal (length bytes)) (decimal-IsDigit (length bytes)) in
    let value = digits_value-decimal (length bytes) fits in
    let room : leb (length bytes + 2) (length (bytes ++ (crlf ++ rest))) ≡ true =
      ground (arith, length-append bytes (crlf ++ rest)) in
    let taken = take-append (length bytes) bytes (crlf ++ rest) refl in
    let left : drop (length bytes + 2) (bytes ++ (crlf ++ rest)) ≡ rest =
      ap (drop (length bytes + 2)) (sym (append_assoc bytes crlf rest))
      ∙ drop-append (length bytes + 2) (bytes ++ crlf) rest (sym (length-append bytes crlf)) in
    rw (first, value, room, taken, left) refl

null-read : (rest : List ℕ) → read_bulk (codes "-1") rest ≡ some (null_bulk, rest)
unfolding read_bulk
null-read rest = refl

err-not-cr : (msg : List ℕ) → IsText msg → All (λ c. c ≢ 13) (codes "ERR " ++ msg)
err-not-cr msg h = (
  (λ e. omega (arith, e)),
  (
    (λ e. omega (arith, e)),
    ((λ e. omega (arith, e)), ((λ e. omega (arith, e)), text-not-cr msg h)),
  ),
)

-- A reply that the server sends, in front of any other bytes, is read back.
read_reply-encode :
    (r : Reply) (rest : List ℕ) → IsReply r → read_reply (encode_reply r ++ rest) ≡ some (r, rest)
unfolding read_reply
read_reply-encode (simple msg) rest (text, short) =
    let e = split_line-append msg rest (text-not-cr msg text) in
    rw (append_assoc msg crlf rest, e) refl
read_reply-encode (error msg) rest (text, short) =
    let e = split_line-append (codes "ERR " ++ msg) rest (err-not-cr msg text) in
    rw (append_assoc msg crlf rest, e) refl
read_reply-encode (bulk bytes) rest fits =
    let n = decimal (length bytes) in
    let e =
      split_line-append n (bytes ++ (crlf ++ rest))
        (digits-not-cr n (decimal-IsDigit (length bytes))) in
    let shape : (n ++ (crlf ++ (bytes ++ crlf))) ++ rest
        ≡ n ++ (crlf ++ (bytes ++ (crlf ++ rest))) =
      append_assoc n (crlf ++ (bytes ++ crlf)) rest
      ∙ ap (λ x. n ++ (crlf ++ x)) (append_assoc bytes crlf rest) in
    rw (shape, e) (bulk-read bytes rest fits)
read_reply-encode null_bulk rest fits =
    let e =
      split_line-append (codes "-1") rest
        ((λ h. omega (arith, h)), ((λ h. omega (arith, h)), tt)) in
    rw e (null-read rest)
read_reply-encode (integer value) rest fits =
    let e =
      split_line-append (decimal value) rest
        (digits-not-cr (decimal value) (decimal-IsDigit value)) in
    let v = digits_value-decimal value (omega arith) in
    rw (append_assoc (decimal value) crlf rest, e, v) refl

encode_replies : List Reply → List ℕ
encode_replies [] = []
encode_replies (r ∷ rs) = encode_reply r ++ encode_replies rs

send_replies-lem :
    (rs : List Reply) (w : Wire)
    → All IsReply rs
    → NotBroken w.sends
    → (send_replies rs w).out ≡ w.out ++ encode_replies rs
unfolding send_replies encode_replies
send_replies-lem [] w a h = sym (append-nil w.out)
send_replies-lem (r ∷ rs) w a h =
    let (z, o, k) = send_reply-Sends r w a.0 h in
    send_replies-lem rs (send_reply r w).1 a.1 k
    ∙ ap (λ x. x ++ encode_replies rs) o
    ∙ append_assoc w.out (encode_reply r) (encode_replies rs)

read_replies-encode :
    (rs : List Reply)
    → All IsReply rs
    → read_replies (length rs) (encode_replies rs) ≡ some (rs, [])
unfolding read_replies encode_replies
read_replies-encode [] a = refl
read_replies-encode (r ∷ rs) a =
    rw (read_reply-encode r (encode_replies rs) a.0, read_replies-encode rs a.1) refl

-- A client reads back the replies that the server sends on a new connection, in their order and with
-- nothing left over, however the calls of `send` cut them and are interrupted, if the connection does
-- not break, the messages hold no zero byte and no carriage return, every line fits its buffer, and
-- lengths and values fit 64 bits.
pub read_replies-send_replies :
    (rs : List Reply) (sends : List SendResult)
    → All IsReply rs
    → NotBroken sends
    → read_replies (length rs) (send_replies rs (record { out = []; sends = sends })).out
      ≡ some (rs, [])
read_replies-send_replies rs sends a h =
    rw (send_replies-lem rs (record { out = []; sends = sends }) a h) (read_replies-encode rs a)
