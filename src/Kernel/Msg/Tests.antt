-- ===== src/Kernel/Msg/Tests.antt =====
-- A queue with two messages, and the theorems there.
use mathlib.Core.List.{Perm}
use ncsc210_g.Base.{
  ℕ, ◌≤◌, ◌<◌, min, ◌≡◌, refl, ◌≢◌, true, List, [], ◌∷◌, arith, replicate, length-replicate, pos,
  negsuc, minus_one, count_below,
}
use ncsc210_g.Kernel.Msg.{
  max_msg, max_msg_len, Queues, msginit, sys_msgget, CopyIn, sys_sendmsg, CopyOut, find_type,
  sys_recvmsg, sys_msgcount,
}
use ncsc210_g.Kernel.Msg.Counts.{Inv, msginit-Inv}
use ncsc210_g.Kernel.Msg.History.{Call, msgget, sendmsg, run, run-Inv, zeroed, msgcount_lem}
use ncsc210_g.Kernel.Msg.Keys.{Unique}
use ncsc210_g.Kernel.Msg.Bag.{payload, contents, CopiesAll, sendmsg-contents, recvmsg-contents}
use ncsc210_g.Kernel.Msg.Copies.{guarded, recvmsg_negative}

-- User memory that holds zeros.
abbrev zeros : CopyIn
zeros msgptr len = (true, replicate len 0)

abbrev obliging : CopyOut
obliging msgptr bytes len = true

abbrev history : List Call
history =
    msgget (pos 7)
    ∷ sendmsg zeros (pos 0) (pos 1) 0 (pos 4)
    ∷ sendmsg zeros (pos 0) (pos 2) 0 (pos 5)
    ∷ []

-- Queue 0, of key 7, holds a message of type 1 and one of type 2.
abbrev two : Queues
two = run (msginit zeroed) history

two-Inv : Inv two
two-Inv = run-Inv (msginit zeroed) history (msginit-Inv zeroed (λ n i h. refl))

count_two : sys_msgcount two (pos 0) ≡ pos 2
unfolding sys_msgcount run msginit sys_msgget sys_sendmsg
count_two = refl

receive_type : (sys_recvmsg obliging two (pos 0) (pos 2) 0 (pos 3)).1 ≡ pos 3
unfolding run msginit sys_msgget sys_sendmsg sys_recvmsg
receive_type = refl

receive_missing : (sys_recvmsg obliging two (pos 0) (pos 9) 0 (pos 3)).1 ≡ minus_one
unfolding run msginit sys_msgget sys_sendmsg sys_recvmsg
receive_missing = refl

msgcount_lem_example :
    (sys_msgcount two (pos 0) ≡ pos (count_below (λ i. ((two 0).msg i).valid) max_msg))
    × (count_below (λ i. ((two 0).msg i).valid) max_msg ≤ max_msg)
    × ((i : ℕ)
        → ((two 0).msg i).valid ≡ true
        → (0 < ((two 0).msg i).len) × (((two 0).msg i).len ≤ max_msg_len))
unfolding run msginit sys_msgget sys_sendmsg
msgcount_lem_example = msgcount_lem history (pos 0) 0 refl

zeros-CopiesAll : CopiesAll zeros
zeros-CopiesAll msgptr len h = length-replicate len 0

sendmsg-contents_example :
    let r = sys_sendmsg zeros two (pos 0) (pos 3) 0 (pos 2) in
    (r.1 ≡ pos 0)
    × Perm (contents (r.0 0)) ((pos 3, replicate 2 0) ∷ contents (two 0))
    × ((m : ℕ) → m ≢ 0 → r.0 m ≡ two m)
unfolding run msginit sys_msgget sys_sendmsg
sendmsg-contents_example =
    sendmsg-contents zeros two (pos 0) (pos 3) 0 0 2 zeros-CopiesAll two-Inv refl (omega arith)
      (omega arith) (omega arith) refl

recvmsg-contents_example :
    let r = sys_recvmsg obliging two (pos 0) (pos 2) 0 (pos 3) in
    let m = (two 0).msg 1 in
    (r.1 ≡ pos (min m.len 3))
    × (m.type ≡ pos 2)
    × Perm (contents (two 0)) (payload m ∷ contents (r.0 0))
    × ((k : ℕ) → k ≢ 0 → r.0 k ≡ two k)
unfolding run msginit sys_msgget sys_sendmsg find_type
recvmsg-contents_example =
    recvmsg-contents obliging two (pos 0) (pos 2) 0 1 0 3 refl refl (λ bytes len. refl)

recvmsg_negative_example :
    ((sys_recvmsg obliging two (pos 0) (pos 2) 0 (negsuc 0)).1 ≡ negsuc 0)
    × (sys_recvmsg (guarded obliging) two (pos 0) (pos 2) 0 (negsuc 0) ≡ (two, minus_one))
unfolding run msginit sys_msgget sys_sendmsg find_type
recvmsg_negative_example = recvmsg_negative two (pos 0) (pos 2) 0 1 0 0 refl refl (omega arith)

zeroed-Unique : Unique zeroed
zeroed-Unique i j li lj hi hj same = cc
