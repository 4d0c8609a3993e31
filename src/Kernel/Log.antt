-- ===== src/Kernel/Log.antt =====
-- The log of xv6-riscv/kernel/log.c: transactions of several blocks that survive a crash. A block is the
-- list of its ints. What bread gives is the cache, a function of the block number; bio.c is not looked
-- into. A crash is that the power fails: only so many of the writes that are to come reach the disk.
mod Tests
pub mod Writes
pub mod Installs
pub mod Recovery
pub mod Crash
pub mod Commits
pub mod Operations
pub mod Reserved
pub mod Reached
use ncsc210_g.Base.{
  ℕ, zero, suc, ◌+◌, ◌-◌, ◌*◌, Bool, true, false, ◌||◌, List, [], ◌∷◌, ◌++◌, ltb, leb, ◌==◌,
  if◌then◌else◌, length, take, drop, update,
}

abbrev pub logblocks : ℕ
logblocks = 30

abbrev pub maxopblocks : ℕ
maxopblocks = 10

abbrev pub Block : Type 0
Block = List ℕ

-- `lh` holds the first log.lh.n entries of log.lh.block, and `start`, `outstanding` and `committing` are
-- the fields of struct log. `power` is the number of writes that still reach the disk.
pub record Fs : Type 0 where
  pub disk : ℕ → Block
  pub cache : ℕ → Block
  pub start : ℕ
  pub lh : List ℕ
  pub outstanding : ℕ
  pub committing : Bool
  pub power : ℕ

abbrev pub write_disk : (power b : ℕ) → Block → (ℕ → Block) → ℕ → Block
write_disk zero b v d = d
write_disk (suc power) b v d = update d b v

-- A buffer is changed, and bwrite sends it to the disk.
abbrev pub put : (b : ℕ) → Block → Fs → Fs
put b v s = record s {
  cache = update s.cache b v;
  disk = write_disk s.power b v s.disk;
  power = s.power - 1;
}

-- struct logheader on top of what the block held before.
abbrev pub header_onto : Block → List ℕ → Block
header_onto old blocks = length blocks ∷ (blocks ++ drop (length blocks + 1) old)

-- The entries of a header block, up to its n.
abbrev pub header_of : Block → List ℕ
header_of [] = []
header_of (n ∷ blocks) = take n blocks

pub write_head : Fs → Fs
write_head s = put s.start (header_onto (s.cache s.start) s.lh) s

pub read_head : Fs → Fs
read_head s = record s { lh = header_of (s.cache s.start) }

-- The loop of install_trans, from entry `tail` on.
pub install_from : (tail : ℕ) (blocks : List ℕ) → Fs → Fs
install_from tail [] s = s
install_from tail (b ∷ blocks) s =
    install_from (tail + 1) blocks (put b (s.cache (s.start + tail + 1)) s)

-- The loop of write_log.
pub write_log_from : (tail : ℕ) (blocks : List ℕ) → Fs → Fs
write_log_from tail [] s = s
write_log_from tail (b ∷ blocks) s =
    write_log_from (tail + 1) blocks (put (s.start + tail + 1) (s.cache b) s)

-- The second half of commit and of recover_from_log: the blocks go home, and the log is cleared.
abbrev pub clear : Fs → Fs
clear s = write_head (record s { lh = [] })

-- commit, if there is anything to commit.
pub commit_some : Fs → Fs
unfolding write_head install_from write_log_from
commit_some s = clear (install_from 0 s.lh (write_head (write_log_from 0 s.lh s)))

unfoldable pub commit : Fs → Fs
unfolding commit_some
commit s = if ltb 0 (length s.lh) then commit_some s else s

-- A machine that starts with this disk: nothing is in memory.
abbrev pub boot : (start power : ℕ) → (ℕ → Block) → Fs
boot start power disk = record {
  disk = disk;
  cache = disk;
  start = start;
  lh = [];
  outstanding = 0;
  committing = false;
  power = power;
}

unfoldable pub recover_from_log : Fs → Fs
unfolding read_head install_from write_head
recover_from_log s = let s1 = read_head s in clear (install_from 0 s1.lh s1)

-- What a call of the log comes to: a new state, a sleep on the log, or a panic.
pub data Logged : Type 0 where
  returns : Fs → Logged
  sleeps : Logged
  panics : Logged

-- The tests of begin_op: whether a commit is running, and whether the call may exhaust the log.
begin_round : (committing exhausts : Bool) → Fs → Logged
begin_round true exhausts s = sleeps
begin_round false true s = sleeps
begin_round false false s = returns (record s { outstanding = s.outstanding + 1 })

-- A round of the loop in begin_op.
unfoldable pub begin_op : Fs → Logged
unfolding begin_round
begin_op s =
    begin_round s.committing (ltb logblocks (length s.lh + (s.outstanding + 1) * maxopblocks)) s

-- end_op behind the decrement: the last call commits.
end_last : (last : Bool) → Fs → Fs
unfolding commit
end_last true s = record (commit s) { committing = false }
end_last false s = s

end_round : (committing : Bool) → Fs → Logged
unfolding end_last
end_round true s = panics
end_round false s = returns (end_last (s.outstanding == 0) s)

-- A call that has begun ends, so that `outstanding` is not 0.
unfoldable pub end_op : Fs → Logged
unfolding end_round
end_op s = end_round s.committing (record s { outstanding = s.outstanding - 1 })

abbrev pub listed : List ℕ → ℕ → Bool
listed [] x = false
listed (b ∷ blocks) x = (b == x) || listed blocks x

-- The tests of log_write: whether the log is full, and whether no call runs.
log_round : (full outside : Bool) (b : ℕ) (v : Block) → Fs → Logged
log_round true outside b v s = panics
log_round false true b v s = panics
log_round false false b v s =
    returns
      (record s { cache = update s.cache b v; lh = if listed s.lh b then s.lh else s.lh ++ b ∷ [] })

-- The buffer of block `b` holds `v`, and log_write makes it part of the transaction.
unfoldable pub log_write : (b : ℕ) (v : Block) → Fs → Logged
unfolding log_round
log_write b v s = log_round (leb logblocks (length s.lh)) (ltb s.outstanding 1) b v s
