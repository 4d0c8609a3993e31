-- ===== src/Kernel/Pipe/Sleepers/Awake.antt =====
-- Who sleeps on a pipe has reason to.
use ncsc210_g.Base.{
  ℕ, ◌+◌, ◌%◌, ◌^◌, ◌≡◌, refl, ◌≢◌, Bool, true, false, not, ◌||◌, Option, none, some, List, ◌∷◌,
  arith, ◌==◌, minus_one,
}
use ncsc210_g.Kernel.Pipe.{Pipe, put_byte, full, empty, Write, pipewrite, piperead, pipealloc}
use ncsc210_g.Kernel.Pipe.Fifo.{pipewrite_lem, piperead_lem}
use ncsc210_g.Kernel.Pipe.Sleepers.{
  on_nread, on_nwrite, Sleepers, after_write, write_round, read_round, Step, writes, reads, closes,
  kills, Reach, start, next,
}
use ncsc210_g.Kernel.Pipe.Sleepers.Rounds.{
  HasReason, after_write-HasReason, after_read-HasReason, close_round-HasReason,
  kill_round-HasReason,
}

Step-HasReason : {s t : Sleepers} → Step s t → HasReason s → HasReason t
unfolding write_round read_round
Step-HasReason {s} (writes p todo i _ st) h =
    after_write-HasReason p todo i s (pipewrite todo i s.pipe) h st refl
      (pipewrite_lem todo i s.pipe h.is_ring)
Step-HasReason {s} (reads p killed copyout _) h =
    after_read-HasReason p killed copyout s (piperead killed copyout s.pipe) h refl
      (piperead_lem killed copyout s.pipe h.is_ring)
Step-HasReason {s} (closes writable) h = close_round-HasReason writable s h
Step-HasReason {s} (kills p) h = kill_round-HasReason p s h

-- In every state that processes reach by writing to, reading from and closing a pipe, and by being
-- killed, though not in the middle of a round of pipewrite: whoever sleeps in piperead does so on an
-- empty pipe that is open for writing, and whoever sleeps in pipewrite on a full pipe that is open for
-- reading; and the pipe is in order.
pub Reach-HasReason : {page : ℕ → ℕ} {s : Sleepers} → Reach page s → HasReason s
unfolding pipealloc
Reach-HasReason start = record {
  is_ring = record { nread_fits = omega arith; nwrite_fits = omega arith; bounded = omega arith };
  readers = λ q g. absurd (ground (arith, g));
  writers = λ q g. absurd (ground (arith, g));
}
Reach-HasReason (next r st) = Step-HasReason st (Reach-HasReason r)

-- No two processes ever sleep at the two ends of a pipe.
never_both :
    (page : ℕ → ℕ) (s : Sleepers) (p q : ℕ)
    → Reach page s
    → s.sleep p ≡ on_nread
    → s.sleep q ≢ on_nwrite
never_both page s p q r e f =
    let h = Reach-HasReason r in
    let (none_there, _) = h.readers p e in
    let (all_there, _) = h.writers q f in
    let low = h.is_ring.nread_fits in ground (arith, none_there, all_there, low)

-- A killed caller returns at once.
pipewrite-killed_caller :
    (next_byte : Option ℕ) (more : List (Bool × Option ℕ)) (i : ℕ) (pi : Pipe)
    → pipewrite ((true, next_byte) ∷ more) i pi ≡ Write.returns pi minus_one
unfolding pipewrite
pipewrite-killed_caller none more i pi = ground arith
pipewrite-killed_caller (some b) more i pi =
    let e : (not pi.readopen || true) ≡ true = ground arith in rw e refl

-- A process that sleeps in piperead, in a reachable state whose pipe is open for reading, is not woken by
-- a writer that is killed in the middle of a round, after it wrote one byte and before it is through: the
-- byte is in the pipe, and the reader sleeps on.
pub killed_writer_strands_reader :
    (page : ℕ → ℕ) (s : Sleepers) (p q b i : ℕ) (next_byte : Option ℕ)
    (more : List (Bool × Option ℕ))
    → Reach page s
    → s.sleep q ≡ on_nread
    → s.pipe.readopen ≡ true
    → ((write_round p ((false, some b) ∷ (true, next_byte) ∷ more) i s).sleep q ≡ on_nread)
      × (empty (write_round p ((false, some b) ∷ (true, next_byte) ∷ more) i s).pipe ≡ false)
unfolding write_round pipewrite after_write
killed_writer_strands_reader page s p q b i next_byte more r e o =
    let h = Reach-HasReason r in
    let (none_there, _) = h.readers q e in
    let low = h.is_ring.nread_fits in
    let room : full s.pipe ≡ false = ground (arith, none_there, low) in
    let some_there : (s.pipe.nread == (s.pipe.nwrite + 1) % 2 ^ 32) ≡ false =
      ground (arith, none_there, low) in
    let stops = pipewrite-killed_caller next_byte more (i + 1) (put_byte b s.pipe) in
    let goes : (not s.pipe.readopen || false) ≡ false = ground (arith, o) in
    rw (goes, room, stops) (e, some_there)
