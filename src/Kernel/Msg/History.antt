-- ===== src/Kernel/Msg/History.antt =====
-- Any history of calls on the message queues.
use ncsc210_g.Base.{
  ℕ, ◌≤◌, ◌<◌, ◌≡◌, refl, ap, true, false, some, List, [], ◌∷◌, ℤ, pos, count_below, count_below-le,
}
use ncsc210_g.Kernel.Msg.{
  max_msg, max_msg_len, Queues, msginit, sys_msgget, queue_of, CopyIn, sys_sendmsg, CopyOut,
  sys_recvmsg, sys_msgcount,
}
use ncsc210_g.Kernel.Msg.Counts.{
  Inv, msginit-Inv, queue_of-lt, msgget-Inv, sendmsg-Inv, recvmsg-Inv,
}

-- The calls, with what `copyin` and `copyout` do in each.
pub data Call : Type 0 where
  msgget : (key : ℤ) → Call
  sendmsg : CopyIn → (quid type : ℤ) (msgptr : ℕ) (len : ℤ) → Call
  recvmsg : CopyOut → (quid type : ℤ) (msgptr : ℕ) (bufflen : ℤ) → Call

unfoldable pub run : Queues → List Call → Queues
run qs [] = qs
run qs (msgget key ∷ cs) = run (sys_msgget qs key).0 cs
run qs (sendmsg copyin quid type msgptr len ∷ cs) =
    run (sys_sendmsg copyin qs quid type msgptr len).0 cs
run qs (recvmsg copyout quid type msgptr bufflen ∷ cs) =
    run (sys_recvmsg copyout qs quid type msgptr bufflen).0 cs

pub run-Inv : (qs : Queues) (cs : List Call) → Inv qs → Inv (run qs cs)
unfolding run
run-Inv qs [] v = v
run-Inv qs (msgget key ∷ cs) v = run-Inv (sys_msgget qs key).0 cs (msgget-Inv qs key v)
run-Inv qs (sendmsg copyin quid type msgptr len ∷ cs) v =
    run-Inv (sys_sendmsg copyin qs quid type msgptr len).0 cs
      (sendmsg-Inv copyin qs quid type msgptr len v)
run-Inv qs (recvmsg copyout quid type msgptr bufflen ∷ cs) v =
    run-Inv (sys_recvmsg copyout qs quid type msgptr bufflen).0 cs
      (recvmsg-Inv copyout qs quid type msgptr bufflen v)

-- The queues of zeroed memory.
abbrev pub zeroed : Queues
zeroed n = record {
  key = pos 0;
  used = false;
  msg = λ i. record { type = pos 0; bytes = []; len = 0; valid = false };
  count = 0;
}

-- After msginit and any history of calls, whatever the copies to and from user memory do, msgcount
-- of a queue in use is the number of its valid messages, at most MAX_MSG, and each of them has 1 to
-- MAX_MSG_LEN bytes.
pub msgcount_lem :
    (cs : List Call) (quid : ℤ) (n : ℕ)
    → let qs = run (msginit zeroed) cs in
      queue_of qs quid ≡ some n
      → (sys_msgcount qs quid ≡ pos (count_below (λ i. ((qs n).msg i).valid) max_msg))
        × (count_below (λ i. ((qs n).msg i).valid) max_msg ≤ max_msg)
        × ((i : ℕ)
            → ((qs n).msg i).valid ≡ true
            → (0 < ((qs n).msg i).len) × (((qs n).msg i).len ≤ max_msg_len))
unfolding sys_msgcount
msgcount_lem cs quid n e =
    let qs = run (msginit zeroed) cs in
    let v =
      run-Inv (msginit zeroed) cs (msginit-Inv zeroed (λ n i h. refl)) n
        (queue_of-lt qs quid n e).1 in
    (
      rw (e, sys_msgcount) (ap pos v.counted),
      count_below-le (λ i. ((qs n).msg i).valid) max_msg,
      v.sized,
    )
