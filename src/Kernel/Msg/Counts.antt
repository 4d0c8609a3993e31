-- ===== src/Kernel/Msg/Counts.antt =====
-- The counters of the message queues are right.
use ncsc210_g.Base.{
  ℕ, ◌+◌, ◌-◌, ◌%◌, ◌^◌, ◌≤◌, ◌<◌, ◌≡◌, refl, sym, ◌∙◌, inl, inr, true, false, not, ◌&&◌, some,
  arith, ◌==◌, lt→ltb, Bool-cases, Option-cases, ℤ, pos, negsuc, ◌==ℤ◌, ==ℤ_iff, update, find_from,
  find_from-some, count_below, count_below-cong, count_below-change, count_below-le,
  count_below-zero,
}
use ncsc210_g.Kernel.Msg.{
  max_msg, max_q, max_msg_len, Message, MsgQueue, Queues, msginit, sys_msgget, queue_of, length_of,
  CopyIn, send_to, sys_sendmsg, CopyOut, copy_length, as_uint64, find_type, receive_from,
  sys_recvmsg,
}

-- A queue: the counter counts the valid messages, which have 1 to 128 bytes; one that is not in use
-- has none.
pub record QueueInv (q : MsgQueue) : Type 0 where
  pub counted : q.count ≡ count_below (λ i. (q.msg i).valid) max_msg
  pub sized : (i : ℕ) → (q.msg i).valid ≡ true → (0 < (q.msg i).len) × ((q.msg i).len ≤ max_msg_len)
  pub empty : q.used ≡ false → q.count ≡ 0

abbrev pub Inv : Queues → Type 0
Inv qs = (n : ℕ) → n < max_q → QueueInv (qs n)

pub msginit-Inv :
    (qs : Queues) → ((n i : ℕ) → max_msg ≤ i → ((qs n).msg i).valid ≡ false) → Inv (msginit qs)
unfolding msginit
msginit-Inv qs clear n low = rw (lt→ltb n max_q low) (record {
  counted = sym (count_below-zero _ max_msg (λ i below. rw (lt→ltb i max_msg below)));
  sized = λ i h. ground (arith, clear n i);
  empty = λ h. refl;
})

pub queue_of-lt :
    (qs : Queues) (quid : ℤ) (n : ℕ)
    → queue_of qs quid ≡ some n
    → (quid ≡ pos n) × (n < max_q) × ((qs n).used ≡ true)
queue_of-lt qs (negsuc k) n h = cc
queue_of-lt qs (pos k) n h = ground arith

pub length_of_bounds :
    (len : ℤ) (l : ℕ) → length_of len ≡ some l → (len ≡ pos l) × (0 < l) × (l ≤ max_msg_len)
length_of_bounds (negsuc k) l h = cc
length_of_bounds (pos k) l h = ground arith

-- A change of one queue.
update-Inv : (qs : Queues) (n : ℕ) (q : MsgQueue) → Inv qs → QueueInv q → Inv (update qs n q)
update-Inv qs n q v w m low = elim (Bool-cases (n == m)) [ inl e ↦ rw e w | inr e ↦ rw e (v m low) ]

get-QueueInv :
    (q : MsgQueue) (key : ℤ)
    → QueueInv q
    → q.used ≡ false
    → QueueInv (record q { used = true; key = key; count = 0 })
get-QueueInv q key v free = record {
  counted = sym (v.empty free) ∙ v.counted;
  sized = v.sized;
  empty = λ h. refl;
}

pub msgget-Inv : (qs : Queues) (key : ℤ) → Inv qs → Inv (sys_msgget qs key).0
unfolding sys_msgget
msgget-Inv qs key v =
    elim (Option-cases (find_from (λ i. (qs i).used && (qs i).key ==ℤ key) max_q 0)) [
      | inr (i, e) ↦ rw (e, sys_msgget) v
      | inl e ↦ elim (Option-cases (find_from (λ i. not (qs i).used) max_q 0)) [
        | inl f ↦ rw (e, f, sys_msgget) v
        | inr (i, f) ↦
            let found = find_from-some (λ j. not (qs j).used) max_q 0 i f in
            rw (e, f, sys_msgget)
              (update-Inv qs i _ v
                (get-QueueInv (qs i) key (v i (omega (arith, found))) (ground (arith, found))))
      ]
    ]

module _ (q : MsgQueue) (idx : ℕ) (v : QueueInv q) (low : idx < max_msg) where
  -- A message is put into a slot that is not valid.
  put-QueueInv :
      (m : Message)
      → (q.msg idx).valid ≡ false
      → m.valid ≡ true
      → (0 < m.len) × (m.len ≤ max_msg_len)
      → q.used ≡ true
      → QueueInv (record q { msg = update q.msg idx m; count = (q.count + 1) % 2 ^ 32 })
  put-QueueInv m free now size used = record {
    counted = ground (
      arith,
      v.counted,
      count_below-le (λ i. (q.msg i).valid) max_msg,
      count_below-change (λ i. (q.msg i).valid) (λ i. (update q.msg idx m i).valid) max_msg idx low
          (λ i ne. ground (arith, ne)),
    );
    sized = λ i h. ground (arith, v.sized i, size, h);
    empty = λ h. ground (arith, used, h);
  }

  -- A message that is not valid is overwritten.
  scratch-QueueInv :
      (m : Message)
      → (q.msg idx).valid ≡ false
      → m.valid ≡ false
      → QueueInv (record q { msg = update q.msg idx m })
  scratch-QueueInv m free now = record {
    counted =
        v.counted
        ∙ count_below-cong (λ i. (q.msg i).valid) (λ i. (update q.msg idx m i).valid) max_msg
            (λ i _. ground (arith, free, now));
    sized = λ i h. ground (arith, v.sized i, now, h);
    empty = v.empty;
  }

  -- A valid message is taken.
  drop-QueueInv :
      (q.msg idx).valid ≡ true
      → q.used ≡ true
      → QueueInv (record q {
        msg = update q.msg idx (record (q.msg idx) { valid = false });
        count = (q.count + 2 ^ 32 - 1) % 2 ^ 32;
      })
  drop-QueueInv there used = record {
    counted = ground (
      arith,
      v.counted,
      there,
      count_below-le (λ i. (q.msg i).valid) max_msg,
      count_below-change (λ i. (q.msg i).valid)
          (λ i. (update q.msg idx (record (q.msg idx) { valid = false }) i).valid) max_msg idx low
          (λ i ne. ground (arith, ne)),
    );
    sized = λ i h. ground (arith, v.sized i, h);
    empty = λ h. ground (arith, used, h);
  }

pub find_type-some :
    (q : MsgQueue) (type : ℤ) (idx : ℕ)
    → find_type q type ≡ some idx
    → (idx < max_msg) × ((q.msg idx).valid ≡ true) × ((q.msg idx).type ≡ type)
unfolding find_type
find_type-some q type idx h =
    let found = find_from-some (λ i. (q.msg i).valid && (q.msg i).type ==ℤ type) max_msg 0 idx h in
    (
      omega (arith, found),
      ground (arith, found),
      ground (arith, found, ==ℤ_iff (q.msg idx).type type),
    )

send_to-Inv :
    (copyin : CopyIn) (qs : Queues) (n idx : ℕ) (type : ℤ) (msgptr len : ℕ)
    → Inv qs
    → n < max_q
    → idx < max_msg
    → (qs n).used ≡ true
    → ((qs n).msg idx).valid ≡ false
    → (0 < len) × (len ≤ max_msg_len)
    → Inv (send_to copyin qs n idx type msgptr len).0
unfolding send_to
send_to-Inv copyin qs n idx type msgptr len v low room used free size =
    elim (Bool-cases (copyin msgptr len).0) [
      | inl done ↦
          rw (done, send_to)
            (update-Inv qs n _ v (put-QueueInv (qs n) idx (v n low) room _ free refl size used))
      | inr failed ↦
          rw (failed, send_to)
            (update-Inv qs n _ v (scratch-QueueInv (qs n) idx (v n low) room _ free free))
    ]

pub sendmsg-Inv :
    (copyin : CopyIn) (qs : Queues) (quid type : ℤ) (msgptr : ℕ) (len : ℤ)
    → Inv qs
    → Inv (sys_sendmsg copyin qs quid type msgptr len).0
unfolding sys_sendmsg
sendmsg-Inv copyin qs quid type msgptr len v = elim (Option-cases (queue_of qs quid)) [
  | inl e ↦ rw (e, sys_sendmsg) v
  | inr (n, e) ↦ elim (Option-cases (length_of len)) [
    | inl f ↦ rw (e, f, sys_sendmsg) v
    | inr (l, f) ↦ elim (Bool-cases ((qs n).count == max_msg)) [
      | inl full ↦ rw (e, f, full, sys_sendmsg) v
      | inr room ↦ elim (Option-cases (find_from (λ i. not ((qs n).msg i).valid) max_msg 0)) [
        | inl g ↦ rw (e, f, room, g, sys_sendmsg) v
        | inr (idx, g) ↦
            let (_, low, used) = queue_of-lt qs quid n e in
            let found = find_from-some (λ i. not ((qs n).msg i).valid) max_msg 0 idx g in
            rw (e, f, room, g, sys_sendmsg)
              (send_to-Inv copyin qs n idx type msgptr l v low (omega (arith, found)) used
                (ground (arith, found)) (omega (arith, length_of_bounds len l f)))
      ]
    ]
  ]
]

pub recvmsg-Inv :
    (copyout : CopyOut) (qs : Queues) (quid type : ℤ) (msgptr : ℕ) (bufflen : ℤ)
    → Inv qs
    → Inv (sys_recvmsg copyout qs quid type msgptr bufflen).0
unfolding sys_recvmsg
recvmsg-Inv copyout qs quid type msgptr bufflen v = elim (Option-cases (queue_of qs quid)) [
  | inl e ↦ rw (e, sys_recvmsg) v
  | inr (n, e) ↦ elim (Option-cases (find_type (qs n) type)) [
    | inl f ↦ rw (e, f, sys_recvmsg) v
    | inr (idx, f) ↦
        let (_, low, used) = queue_of-lt qs quid n e in
        let found = find_type-some (qs n) type idx f in
        let m = (qs n).msg idx in
        elim (Bool-cases (copyout msgptr m.bytes (as_uint64 (copy_length m.len bufflen)))) [
          | inr failed ↦ rw (e, f, failed, sys_recvmsg, receive_from) v
          | inl done ↦
              rw (e, f, done, sys_recvmsg, receive_from)
                (update-Inv qs n _ v (drop-QueueInv (qs n) idx (v n low) found.0 found.1 used))
        ]
  ]
]
