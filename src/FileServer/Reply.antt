-- ===== src/FileServer/Reply.antt =====
-- The replies of G16_Project_3/src/resp.c: resp_reply_simple and its kin, and send_all. A connection is
-- what has gone out on it, and what the calls of `send` still meet.
mod Tests
pub mod Broken
pub mod Sent
pub mod Read
use ncsc210_g.Base.{
  ℕ, zero, suc, List, [], ◌∷◌, ◌++◌, ltb, leb, if◌then◌else◌, length, take, drop, ℤ, pos, negsuc,
  minus_one, codes,
}
use ncsc210_g.FileServer.Resp.{cstr}
use ncsc210_g.FileServer.Resp.Number.{decimal}

-- resp_reply_simple, _error, _bulk, _null_bulk and _integer.
pub data Reply : Type 0 where
  simple : (msg : List ℕ) → Reply
  error : (msg : List ℕ) → Reply
  bulk : (bytes : List ℕ) → Reply
  null_bulk : Reply
  integer : (value : ℕ) → Reply

-- A `send` that takes at most so many bytes of what it is offered, one that fails with EINTR, one that
-- fails otherwise. At the end of the list every call takes all.
pub data SendResult : Type 0 where
  accepts : ℕ → SendResult
  interrupted : SendResult
  broken : SendResult

pub record Wire : Type 0 where
  pub out : List ℕ
  pub sends : List SendResult

-- The loop of send_all: `left` is what is still to be sent.
send_loop : List SendResult → (left out : List ℕ) → ℤ × Wire
send_loop es [] out = (pos 0, record { out = out; sends = es })
send_loop [] (b ∷ bs) out = (pos 0, record { out = out ++ b ∷ bs; sends = [] })
send_loop (accepts n ∷ es) (b ∷ bs) out = send_loop es (drop n (b ∷ bs)) (out ++ take n (b ∷ bs))
send_loop (interrupted ∷ es) (b ∷ bs) out = send_loop es (b ∷ bs) out
send_loop (broken ∷ es) (b ∷ bs) out = (minus_one, record { out = out; sends = es })

unfoldable pub send_all : List ℕ → Wire → ℤ × Wire
unfolding send_loop
send_all bytes w = send_loop w.sends bytes w.out

-- A line that snprintf makes in a buffer of `size` bytes is sent if it was not cut.
abbrev send_line : (size : ℕ) (line : List ℕ) → Wire → ℤ × Wire
send_line size line w = if leb size (length line) then (minus_one, w) else send_all line w

abbrev crlf : List ℕ
crlf = 13 ∷ 10 ∷ []

-- `if (… != 0) return -1;`
and_then : ℤ × Wire → (Wire → ℤ × Wire) → ℤ × Wire
and_then (pos zero, w) f = f w
and_then (pos (suc n), w) f = (minus_one, w)
and_then (negsuc n, w) f = (minus_one, w)

resp_reply_simple : List ℕ → Wire → ℤ × Wire
unfolding send_all
resp_reply_simple msg w = send_line 256 (b'+' ∷ (cstr msg ++ crlf)) w

resp_reply_error : List ℕ → Wire → ℤ × Wire
unfolding send_all
resp_reply_error msg w = send_line 512 (codes "-ERR " ++ (cstr msg ++ crlf)) w

resp_reply_bulk : List ℕ → Wire → ℤ × Wire
unfolding send_all and_then
resp_reply_bulk bytes w = and_then (send_line 64 (b'$' ∷ (decimal (length bytes) ++ crlf)) w) (λ w1.
    and_then (if ltb 0 (length bytes) then send_all bytes w1 else (pos 0, w1))
      (λ w2. send_all crlf w2))

resp_reply_null_bulk : Wire → ℤ × Wire
unfolding send_all
resp_reply_null_bulk w = send_all (codes "$-1" ++ crlf) w

resp_reply_integer : ℕ → Wire → ℤ × Wire
unfolding send_all
resp_reply_integer value w = send_line 128 (b':' ∷ (decimal value ++ crlf)) w

-- The function that a reply stands for.
unfoldable pub send_reply : Reply → Wire → ℤ × Wire
unfolding resp_reply_simple resp_reply_error resp_reply_bulk resp_reply_null_bulk resp_reply_integer
send_reply (simple msg) w = resp_reply_simple msg w
send_reply (error msg) w = resp_reply_error msg w
send_reply (bulk bytes) w = resp_reply_bulk bytes w
send_reply null_bulk w = resp_reply_null_bulk w
send_reply (integer value) w = resp_reply_integer value w
