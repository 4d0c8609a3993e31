-- ===== src/Kernel/Msg/Bag.antt =====
-- A queue as the bag of its messages: what sendmsg puts in and recvmsg takes out.
use mathlib.Core.List.{Perm}
use mathlib.Core.List.Perm
use ncsc210_g.Base.{
  ℕ, zero, suc, ◌≤◌, ◌<◌, min, ◌≡◌, refl, sym, ap, ◌≢◌, inl, inr, true, false, not, some, List, [],
  ◌∷◌, arith, ◌==◌, if◌then◌else◌, ==_iff, Bool-cases, Option-cases, length, take, take-append, ℤ,
  pos, update, find_from, find_from-some, find_from-none, count_below-full,
}
use ncsc210_g.Kernel.Msg.{
  max_msg, max_msg_len, Message, MsgQueue, Queues, queue_of, length_of, CopyIn, overwrite, send_to,
  sys_sendmsg, CopyOut, copy_length, as_uint64, find_type, receive_from, sys_recvmsg,
}
use ncsc210_g.Kernel.Msg.Counts.{Inv, queue_of-lt, find_type-some}

-- A message as its type and its bytes.
abbrev pub Payload : Type 0
Payload = ℤ × List ℕ

abbrev pub payload : Message → Payload
payload m = (m.type, take m.len m.bytes)

-- The valid messages of the slots below `n`.
pub contents_below : (ℕ → Message) → ℕ → List Payload
contents_below msg zero = []
contents_below msg (suc n) =
    let rest = contents_below msg n in if (msg n).valid then payload (msg n) ∷ rest else rest

abbrev pub contents : MsgQueue → List Payload
contents q = contents_below q.msg max_msg

contents_below-cong :
    (f g : ℕ → Message) (n : ℕ)
    → ((i : ℕ) → i < n → f i ≡ g i)
    → contents_below f n ≡ contents_below g n
unfolding contents_below
contents_below-cong f g zero h = refl
contents_below-cong f g (suc n) h =
    rw (h n (omega arith), contents_below-cong f g n (λ i low. h i (omega arith)))

-- Slot `k` of `f` is valid, in `g` it is not, and the other slots agree.
contents_below-perm :
    (f g : ℕ → Message) (n k : ℕ)
    → k < n
    → (f k).valid ≡ true
    → (g k).valid ≡ false
    → ((i : ℕ) → i ≢ k → f i ≡ g i)
    → Perm (contents_below f n) (payload (f k) ∷ contents_below g n)
unfolding contents_below
contents_below-perm f g zero k low hf hg h = absurd (omega arith)
contents_below-perm f g (suc n) k low hf hg h = elim (Bool-cases (n == k)) [
  | inl e ↦
      let same : n ≡ k = (==_iff n k).0 e in
      let rest = contents_below-cong f g n (λ i below. h i (λ e'. omega arith)) in
      let hf' : (f n).valid ≡ true = rw same hf in
      let hg' : (g n).valid ≡ false = rw same hg in
      rw (hf', hg', rest) (Perm.cons' (ap (λ (i : ℕ). payload (f i)) same) Perm.rfl)
  | inr e ↦
      let ih = contents_below-perm f g n k (ground (arith, e)) hf hg h in
      rw (h n (λ e'. ground (arith, e, e'))) (elim (Bool-cases (g n).valid) [
        | inr skip ↦ rw skip ih
        | inl there ↦ rw there (
            Perm.trans (Perm.cons (payload (g n)) ih) (Perm.swap (payload (f k)) (payload (g n)) _))
      ])
]

refl_test : (n : ℕ) → (n == n) ≡ true
refl_test n = ground arith

-- A successful `copyin` of `len` bytes gives `len` bytes.
abbrev pub CopiesAll : CopyIn → Type 0
CopiesAll copyin =
    (msgptr len : ℕ) → (copyin msgptr len).0 ≡ true → length (copyin msgptr len).1 ≡ len

-- A message that `copyin` delivers to a queue in use with room, with 1 to MAX_MSG_LEN bytes, is
-- added to the queue's bag, with its type and its bytes; nothing else there changes.
pub sendmsg-contents :
    (copyin : CopyIn) (qs : Queues) (quid type : ℤ) (n msgptr len : ℕ)
    → CopiesAll copyin
    → Inv qs
    → queue_of qs quid ≡ some n
    → 0 < len
    → len ≤ max_msg_len
    → (qs n).count < max_msg
    → (copyin msgptr len).0 ≡ true
    → let r = sys_sendmsg copyin qs quid type msgptr (pos len) in
      (r.1 ≡ pos 0)
      × Perm (contents (r.0 n)) ((type, (copyin msgptr len).1) ∷ contents (qs n))
      × ((m : ℕ) → m ≢ n → r.0 m ≡ qs m)
unfolding sys_sendmsg
sendmsg-contents copyin qs quid type n msgptr len all v e low high room done =
    let q = qs n in
    let some_len : length_of (pos len) ≡ some len = ground arith in
    let not_full : (q.count == max_msg) ≡ false = ground arith in
    let test = λ (i : ℕ). not (q.msg i).valid in
    elim (Option-cases (find_from test max_msg 0)) [
      | inl f ↦
          let counted = (v n (queue_of-lt qs quid n e).1).counted in
          let full =
            count_below-full (λ i. (q.msg i).valid) max_msg
              (λ i below. ground (arith, find_from-none test max_msg 0 f i (omega arith) below)) in
          absurd (omega (arith, counted, full))
      | inr (idx, f) ↦
          let found = find_from-some test max_msg 0 idx f in
          let copied = (copyin msgptr len).1 in
          let m : Message = record {
            type = type;
            bytes = overwrite copied (q.msg idx).bytes;
            len = len;
            valid = true;
          } in
          let text : take len (overwrite copied (q.msg idx).bytes) ≡ copied =
            take-append len copied _ (sym (all msgptr len done)) in
          let put =
            contents_below-perm (update q.msg idx m) q.msg max_msg idx (omega (arith, found))
              (ground arith) (ground (arith, found)) (λ i ne. ground (arith, ne)) in
          let added : payload (update q.msg idx m idx) ≡ (type, copied) = ground (arith, text) in
          rw (e, some_len, not_full, f, done, sys_sendmsg, send_to)
            (
              refl,
              rw (refl_test n) (Perm.trans put (Perm.cons' added Perm.rfl)),
              λ k ne. ground (arith, ne),
            )
    ]

-- If a queue in use has a message of the type and `copyout` succeeds, one message of that type is
-- taken out of the queue's bag and nothing else there changes.
pub recvmsg-contents :
    (copyout : CopyOut) (qs : Queues) (quid type : ℤ) (n idx msgptr b : ℕ)
    → queue_of qs quid ≡ some n
    → find_type (qs n) type ≡ some idx
    → ((bytes : List ℕ) (len : ℕ) → copyout msgptr bytes len ≡ true)
    → let r = sys_recvmsg copyout qs quid type msgptr (pos b) in
      let m = (qs n).msg idx in
      (r.1 ≡ pos (min m.len b))
      × (m.type ≡ type)
      × Perm (contents (qs n)) (payload m ∷ contents (r.0 n))
      × ((k : ℕ) → k ≢ n → r.0 k ≡ qs k)
unfolding sys_recvmsg
recvmsg-contents copyout qs quid type n idx msgptr b e f copies =
    let q = qs n in
    let m = q.msg idx in
    let found = find_type-some q type idx f in
    let done = copies m.bytes (as_uint64 (copy_length m.len (pos b))) in
    let taken =
      contents_below-perm q.msg (update q.msg idx (record m { valid = false })) max_msg idx found.0
        found.1 (ground arith) (λ i ne. ground (arith, ne)) in
    rw (e, f, done, sys_recvmsg, receive_from)
      (ground arith, found.2, rw (refl_test n) taken, λ k ne. ground (arith, ne))
