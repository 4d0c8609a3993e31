-- ===== src/Kernel/Msg/Copies.antt =====
-- How much recvmsg copies to user memory.
use ncsc210_g.Base.{
  ℕ, ◌-◌, ◌^◌, ◌≤◌, ◌<◌, ◌≡◌, inl, inr, true, false, ◌&&◌, some, arith, leb, Option-cases, ℤ, pos,
  negsuc, minus_one,
}
use ncsc210_g.Kernel.Msg.{
  max_msg_len, Queues, queue_of, CopyOut, copy_length, as_uint64, find_type, receive_from,
  sys_recvmsg,
}
use ncsc210_g.Kernel.Msg.Counts.{Inv, queue_of-lt, find_type-some}

-- A `copyout` that refuses to read past the bytes of a message.
abbrev pub guarded : CopyOut → CopyOut
guarded copyout msgptr bytes len = leb len max_msg_len && copyout msgptr bytes len

copy_length-le : (len b : ℕ) → len ≤ max_msg_len → as_uint64 (copy_length len (pos b)) ≤ max_msg_len
copy_length-le len b h = ground arith

-- With a buffer length that is not negative recvmsg never reads past the MAX_MSG_LEN bytes of a
-- message: it does what it would do with a `copyout` that refuses to.
pub recvmsg_reads_within :
    (copyout : CopyOut) (qs : Queues) (quid type : ℤ) (msgptr b : ℕ)
    → Inv qs
    → sys_recvmsg copyout qs quid type msgptr (pos b)
      ≡ sys_recvmsg (guarded copyout) qs quid type msgptr (pos b)
unfolding sys_recvmsg
recvmsg_reads_within copyout qs quid type msgptr b v = elim (Option-cases (queue_of qs quid)) [
  | inl e ↦ rw (e, sys_recvmsg)
  | inr (n, e) ↦ elim (Option-cases (find_type (qs n) type)) [
    | inl f ↦ rw (e, f, sys_recvmsg)
    | inr (idx, f) ↦
        let found = find_type-some (qs n) type idx f in
        let size = (v n (queue_of-lt qs quid n e).1).sized idx found.1 in
        let small : leb (as_uint64 (copy_length ((qs n).msg idx).len (pos b))) max_msg_len ≡ true =
          ground (arith, copy_length-le ((qs n).msg idx).len b, size) in
        rw (e, f, small, sys_recvmsg, receive_from)
  ]
]

-- A negative buffer length is not refused: if the queue has a message of the type, `copyout` is
-- asked for more bytes than any message has, and if it obliges, the call succeeds and returns the
-- negative length.
pub recvmsg_negative :
    (qs : Queues) (quid type : ℤ) (n idx msgptr b : ℕ)
    → queue_of qs quid ≡ some n
    → find_type (qs n) type ≡ some idx
    → b < 2 ^ 31
    → ((sys_recvmsg (λ _ _ _. true) qs quid type msgptr (negsuc b)).1 ≡ negsuc b)
      × (sys_recvmsg (guarded (λ _ _ _. true)) qs quid type msgptr (negsuc b) ≡ (qs, minus_one))
unfolding sys_recvmsg
recvmsg_negative qs quid type n idx msgptr b e f small =
    let big : leb (2 ^ 64 - 1 - b) max_msg_len ≡ false = ground arith in
    (rw (e, f, sys_recvmsg, receive_from), rw (e, f, big, sys_recvmsg, receive_from))
