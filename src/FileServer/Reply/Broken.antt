-- ===== src/FileServer/Reply/Broken.antt =====
-- What has gone out of a reply when its function reports a failure.
use mathlib.Core.List.{append-nil, append_assoc}
use ncsc210_g.Base.{
  ℕ, zero, suc, ◌≡◌, refl, sym, ap, subst, ◌∙◌, ◌⊎◌, inl, inr, true, List, [], ◌∷◌, ◌++◌, arith,
  ltb, leb, if◌then◌else◌, Bool-cases, length, take, drop, take-append-drop, ℤ, pos, negsuc,
  minus_one, codes,
}
use ncsc210_g.FileServer.Reply.{
  Reply, simple, error, bulk, null_bulk, integer, SendResult, accepts, interrupted, broken, Wire,
  send_loop, send_all, send_line, crlf, and_then, resp_reply_simple, resp_reply_error,
  resp_reply_bulk, resp_reply_null_bulk, resp_reply_integer, send_reply,
}
use ncsc210_g.FileServer.Reply.Sent.{encode_reply}
use ncsc210_g.FileServer.Resp.{cstr}
use ncsc210_g.FileServer.Resp.Number.{decimal}

-- A part of the bytes has gone out, from the front; all of them if the result is 0.
abbrev pub Partly : ℤ × Wire → (out bytes : List ℕ) → Type 0
Partly r out bytes =
    ((r.0 ≡ pos 0) × (r.1.out ≡ out ++ bytes))
    ⊎ ((sent : List ℕ) × (left : List ℕ) × (r.0 ≡ minus_one)
        × (bytes ≡ sent ++ left)
        × (r.1.out ≡ out ++ sent))

send_loop-Partly :
    (es : List SendResult) (bytes out : List ℕ) → Partly (send_loop es bytes out) out bytes
unfolding send_loop
send_loop-Partly es [] out = inl (refl, sym (append-nil out))
send_loop-Partly [] (b ∷ bs) out = inl (refl, refl)
send_loop-Partly (accepts n ∷ es) (b ∷ bs) out =
    let whole = take-append-drop n (b ∷ bs) in
    let front = take n (b ∷ bs) in
    elim (send_loop-Partly es (drop n (b ∷ bs)) (out ++ front)) [
      | inl (r, o) ↦ inl (r, o ∙ append_assoc out front (drop n (b ∷ bs)) ∙ ap (◌++◌ out) whole)
      | inr (sent, left, r, split, o) ↦ inr (
        front ++ sent,
        left,
        r,
        sym whole ∙ ap (◌++◌ front) split ∙ sym (append_assoc front sent left),
        o ∙ append_assoc out front sent,
      )
    ]
send_loop-Partly (interrupted ∷ es) (b ∷ bs) out = send_loop-Partly es (b ∷ bs) out
send_loop-Partly (broken ∷ es) (b ∷ bs) out = inr ([], b ∷ bs, refl, refl, sym (append-nil out))

send_all-Partly : (bytes : List ℕ) (w : Wire) → Partly (send_all bytes w) w.out bytes
unfolding send_all
send_all-Partly bytes w = send_loop-Partly w.sends bytes w.out

-- Nothing of a line that was cut goes out.
send_line-Partly : (size : ℕ) (line : List ℕ) (w : Wire) → Partly (send_line size line w) w.out line
send_line-Partly size line w = elim (Bool-cases (leb size (length line))) [
  | inl e ↦ rw e (inr ([], line, refl, refl, sym (append-nil w.out)))
  | inr e ↦ rw e (send_all-Partly line w)
]

and_then-Partly :
    (r : ℤ × Wire) (f : Wire → ℤ × Wire) (out bytes more : List ℕ)
    → Partly r out bytes
    → ((w : Wire) → Partly (f w) w.out more)
    → Partly (and_then r f) out (bytes ++ more)
unfolding and_then
and_then-Partly (pos zero, w) f out bytes more p k = elim p [
  | inl (z, o) ↦ elim (k w) [
    | inl (r, q) ↦ inl (r, q ∙ ap (λ x. x ++ more) o ∙ append_assoc out bytes more)
    | inr (sent, left, r, split, q) ↦ inr (
      bytes ++ sent,
      left,
      r,
      ap (◌++◌ bytes) split ∙ sym (append_assoc bytes sent left),
      q ∙ ap (λ x. x ++ sent) o ∙ append_assoc out bytes sent,
    )
  ]
  | inr (_, _, z, _, _) ↦ absurd (cc)
]
and_then-Partly (pos (suc n), w) f out bytes more p k = elim p [
  | inl (z, _) ↦ absurd (ground (arith, z))
  | inr (_, _, z, _, _) ↦ absurd (cc)
]
and_then-Partly (negsuc n, w) f out bytes more p k = elim p [
  | inl (z, _) ↦ absurd (cc)
  | inr (sent, left, z, split, o) ↦
      inr (sent, left ++ more, refl, ap (λ x. x ++ more) split ∙ append_assoc sent left more, o)
]

body-Partly :
    (bytes : List ℕ) (w : Wire)
    → Partly (if ltb 0 (length bytes) then send_all bytes w else (pos 0, w)) w.out bytes
body-Partly [] w = inl (refl, sym (append-nil w.out))
body-Partly (b ∷ bs) w =
    let e : ltb 0 (length (b ∷ bs)) ≡ true = ground arith in rw e (send_all-Partly (b ∷ bs) w)

bulk-Partly :
    (bytes : List ℕ) (w : Wire) → Partly (resp_reply_bulk bytes w) w.out (encode_reply (bulk bytes))
unfolding resp_reply_bulk
bulk-Partly bytes w =
    let head = b'$' ∷ (decimal (length bytes) ++ crlf) in
    let p =
      and_then-Partly (send_line 64 head w)
        (λ w1.
          and_then (if ltb 0 (length bytes) then send_all bytes w1 else (pos 0, w1))
            (λ w2. send_all crlf w2))
        w.out head (bytes ++ crlf) (send_line-Partly 64 head w)
        (λ w1.
          and_then-Partly _ (λ w2. send_all crlf w2) w1.out bytes crlf (body-Partly bytes w1)
            (λ w2. send_all-Partly crlf w2)) in
    subst (Partly (resp_reply_bulk bytes w) w.out)
      (ap (◌∷◌ (b'$')) (append_assoc (decimal (length bytes)) crlf (bytes ++ crlf))) p

-- The message of a reply as C reads it: up to its first zero byte.
abbrev pub as_sent : Reply → Reply
as_sent (simple msg) = simple (cstr msg)
as_sent (error msg) = error (cstr msg)
as_sent r = r

-- Whatever the connection does: a reply's function returns 0 and the whole reply has gone out, or it
-- returns -1 and a front part of the reply has, and nothing else.
pub send_reply_lem :
    (r : Reply) (w : Wire) → Partly (send_reply r w) w.out (encode_reply (as_sent r))
unfolding send_reply resp_reply_simple resp_reply_error resp_reply_null_bulk resp_reply_integer
send_reply_lem (simple msg) w = send_line-Partly 256 (b'+' ∷ (cstr msg ++ crlf)) w
send_reply_lem (error msg) w = send_line-Partly 512 (codes "-ERR " ++ (cstr msg ++ crlf)) w
send_reply_lem (bulk bytes) w = bulk-Partly bytes w
send_reply_lem null_bulk w = send_all-Partly (codes "$-1" ++ crlf) w
send_reply_lem (integer value) w = send_line-Partly 128 (b':' ∷ (decimal value ++ crlf)) w
