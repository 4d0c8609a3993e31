-- ===== src/Kernel/Msg.antt =====
-- The message queues of xv6-riscv/kernel (msg.h, msg.c and the calls in sysproc.c) in
-- G16_Project1_xv6CustomizeSystemCalls. Every call holds msgqlock from start to end.
mod Tests
pub mod Counts
pub mod History
pub mod Copies
pub mod Bag
pub mod Keys
use ncsc210_g.Base.{
  ℕ, ◌+◌, ◌-◌, ◌%◌, ◌^◌, Bool, true, false, not, ◌&&◌, ◌||◌, Option, none, some, List, ◌++◌, ltb,
  leb, ◌==◌, if◌then◌else◌, length, drop, ℤ, pos, negsuc, minus_one, ◌==ℤ◌, update, find_from,
}

-- MAX_MSG, MAX_Q, MAX_MSG_LEN
abbrev pub max_msg : ℕ
max_msg = 10

abbrev pub max_q : ℕ
max_q = 10

abbrev pub max_msg_len : ℕ
max_msg_len = 128

-- struct message; `valid` is only ever 0 or 1, and `len` is never negative.
pub record Message : Type 0 where
  pub type : ℤ
  pub bytes : List ℕ
  pub len : ℕ
  pub valid : Bool

-- struct msgqueue; `count` is the bit pattern of an int.
pub record MsgQueue : Type 0 where
  pub key : ℤ
  pub used : Bool
  pub msg : ℕ → Message
  pub count : ℕ

-- msgq
abbrev pub Queues : Type 0
Queues = ℕ → MsgQueue

-- The loops of msginit; keys and bytes stay as they are.
unfoldable pub msginit : Queues → Queues
msginit qs i =
    if ltb i max_q
    then record (qs i) {
      used = false;
      count = 0;
      msg = λ j.
          if ltb j max_msg
          then record ((qs i).msg j) { valid = false; len = 0; type = pos 0 }
          else (qs i).msg j;
    }
    else qs i

unfoldable pub sys_msgget : Queues → (key : ℤ) → Queues × ℤ
unfolding find_from
sys_msgget qs key = elim (find_from (λ i. (qs i).used && (qs i).key ==ℤ key) max_q 0) [
  | some i ↦ (qs, pos i)
  | none ↦ elim (find_from (λ i. not (qs i).used) max_q 0) [
    | some i ↦ (update qs i (record (qs i) { used = true; key = key; count = 0 }), pos i)
    | none ↦ (qs, minus_one)
  ]
]

-- The tests on a queue id with which the other calls begin.
abbrev pub queue_of : Queues → ℤ → Option ℕ
queue_of qs (negsuc n) = none
queue_of qs (pos n) = if leb max_q n || not (qs n).used then none else some n

-- The test on a message's length.
abbrev pub length_of : ℤ → Option ℕ
length_of (negsuc n) = none
length_of (pos n) = if n == 0 || ltb max_msg_len n then none else some n

-- What `copyin` does: whether it succeeds, and the bytes that it has copied by then.
abbrev pub CopyIn : Type 0
CopyIn = (msgptr len : ℕ) → Bool × List ℕ

-- A buffer of which the first bytes have been overwritten.
abbrev pub overwrite : List ℕ → List ℕ → List ℕ
overwrite new old = new ++ drop (length new) old

-- From `m->type = type` on: type, length and bytes are written before the copy is known to
-- succeed, and the message counts only if it does.
pub send_to : CopyIn → Queues → (n idx : ℕ) (type : ℤ) (msgptr len : ℕ) → Queues × ℤ
send_to copyin qs n idx type msgptr len =
    let q = qs n in
    let (done, copied) = copyin msgptr len in
    let m = q.msg idx in
    let bytes = overwrite copied m.bytes in
    if done
    then (
      update qs n (record q {
        msg = update q.msg idx (record { type = type; bytes = bytes; len = len; valid = true });
        count = (q.count + 1) % 2 ^ 32;
      }),
      pos 0,
    )
    else (
      update qs n (record q {
        msg = update q.msg idx (record { type = type; bytes = bytes; len = len; valid = m.valid });
      }),
      minus_one,
    )

unfoldable pub sys_sendmsg : CopyIn → Queues → (quid type : ℤ) (msgptr : ℕ) (len : ℤ) → Queues × ℤ
unfolding find_from send_to
sys_sendmsg copyin qs quid type msgptr len = elim (queue_of qs quid) [
  | none ↦ (qs, minus_one)
  | some n ↦ elim (length_of len) [
    | none ↦ (qs, minus_one)
    | some l ↦
        if (qs n).count == max_msg
        then (qs, minus_one)
        else elim (find_from (λ i. not ((qs n).msg i).valid) max_msg 0) [
          | none ↦ (qs, minus_one)
          | some idx ↦ send_to copyin qs n idx type msgptr l
        ]
  ]
]

-- Whether `copyout` of `len` bytes, a uint64, from the bytes of a message succeeds.
abbrev pub CopyOut : Type 0
CopyOut = (msgptr : ℕ) (bytes : List ℕ) (len : ℕ) → Bool

-- `m->len < bufflen ? m->len : bufflen`
abbrev pub copy_length : (len : ℕ) (bufflen : ℤ) → ℤ
copy_length len (pos b) = if ltb len b then pos len else pos b
copy_length len (negsuc b) = negsuc b

-- An int that becomes a uint64.
abbrev pub as_uint64 : ℤ → ℕ
as_uint64 (pos n) = n
as_uint64 (negsuc n) = 2 ^ 64 - 1 - n

unfoldable pub find_type : MsgQueue → (type : ℤ) → Option ℕ
unfolding find_from
find_type q type = find_from (λ i. (q.msg i).valid && (q.msg i).type ==ℤ type) max_msg 0

pub receive_from : CopyOut → Queues → (n idx : ℕ) (msgptr : ℕ) (bufflen : ℤ) → Queues × ℤ
receive_from copyout qs n idx msgptr bufflen =
    let q = qs n in
    let m = q.msg idx in
    let copylen = copy_length m.len bufflen in
    if copyout msgptr m.bytes (as_uint64 copylen)
    then (
      update qs n (record q {
        msg = update q.msg idx (record m { valid = false });
        count = (q.count + 2 ^ 32 - 1) % 2 ^ 32;
      }),
      copylen,
    )
    else (qs, minus_one)

unfoldable pub sys_recvmsg :
    CopyOut → Queues → (quid type : ℤ) (msgptr : ℕ) (bufflen : ℤ) → Queues × ℤ
unfolding find_type receive_from
sys_recvmsg copyout qs quid type msgptr bufflen = elim (queue_of qs quid) [
  | none ↦ (qs, minus_one)
  | some n ↦ elim (find_type (qs n) type) [
    | none ↦ (qs, minus_one)
    | some idx ↦ receive_from copyout qs n idx msgptr bufflen
  ]
]

unfoldable pub sys_msgcount : Queues → (quid : ℤ) → ℤ
sys_msgcount qs quid = elim (queue_of qs quid) [ none ↦ minus_one | some n ↦ pos (qs n).count ]
