-- ===== src/Kernel/Pipe.antt =====
-- xv6-riscv/kernel/pipe.c: a ring of bytes between a writer and a reader. A call is split where it sleeps;
-- a round is what it does while it holds the lock.
mod Tests
pub mod Ring
pub mod Fifo
pub mod Sleepers
pub mod History
use ncsc210_g.Base.{
  ℕ, ◌+◌, ◌%◌, ◌^◌, Bool, true, false, not, ◌&&◌, ◌||◌, Option, none, some, List, [], ◌∷◌, ◌++◌,
  ◌==◌, if◌then◌else◌, length, ℤ, pos, minus_one, update,
}

abbrev pub pipesize : ℕ
pipesize = 512

-- The two counters are uints, and wrap at 2^32.
pub record Pipe : Type 0 where
  pub buffer : ℕ → ℕ
  pub nread : ℕ
  pub nwrite : ℕ
  pub readopen : Bool
  pub writeopen : Bool

-- What pipealloc sets; the bytes are those of the page that kalloc gives.
unfoldable pub pipealloc : (page : ℕ → ℕ) → Pipe
pipealloc page = record { buffer = page; nread = 0; nwrite = 0; readopen = true; writeopen = true }

-- `pi->data[pi->nwrite++ % PIPESIZE] = ch`
abbrev pub put_byte : ℕ → Pipe → Pipe
put_byte ch pi = record pi {
  buffer = update pi.buffer (pi.nwrite % pipesize) ch;
  nwrite = (pi.nwrite + 1) % 2 ^ 32;
}

abbrev pub full : Pipe → Bool
full pi = pi.nwrite == (pi.nread + pipesize) % 2 ^ 32

-- What a round of pipewrite comes to. A sleep comes with what is still to be written.
pub data Write : Type 0 where
  returns : Pipe → ℤ → Write
  sleeps : Pipe → List (Bool × Option ℕ) → (i : ℕ) → Write

-- The loop of pipewrite, from byte `i` on: for each byte whether the caller is killed, and what copyin
-- gives.
unfoldable pub pipewrite : List (Bool × Option ℕ) → (i : ℕ) → Pipe → Write
pipewrite [] i pi = returns pi (pos i)
pipewrite ((killed, none) ∷ more) i pi =
    if not pi.readopen || killed
    then returns pi minus_one
    else if full pi
    then sleeps pi ((killed, none) ∷ more) i
    else returns pi (pos i)
pipewrite ((killed, some ch) ∷ more) i pi =
    let rest = pipewrite more (i + 1) (put_byte ch pi) in
    if not pi.readopen || killed
    then returns pi minus_one
    else if full pi
    then sleeps pi ((killed, some ch) ∷ more) i
    else rest

abbrev pub empty : Pipe → Bool
empty pi = pi.nread == pi.nwrite

abbrev pub take_byte : Pipe → Pipe
take_byte pi = record pi { nread = (pi.nread + 1) % 2 ^ 32 }

-- The `for` loop of piperead, with `got` copied out, for each further byte whether copyout succeeds.
pub read_loop : List Bool → (got : List ℕ) → Pipe → Pipe × ℤ × List ℕ
read_loop [] got pi = (pi, pos (length got), got)
read_loop (false ∷ more) got pi =
    if empty pi
    then (pi, pos (length got), got)
    else if length got == 0
    then (pi, minus_one, got)
    else (pi, pos (length got), got)
read_loop (true ∷ more) got pi =
    let rest = read_loop more (got ++ pi.buffer (pi.nread % pipesize) ∷ []) (take_byte pi) in
    if empty pi then (pi, pos (length got), got) else rest

-- What a round of piperead comes to: a return with the result and the bytes that were copied out.
pub data Read : Type 0 where
  returns : Pipe → ℤ → List ℕ → Read
  sleeps : Read

abbrev pub read_done : Pipe × ℤ × List ℕ → Read
read_done (pi, r, bytes) = returns pi r bytes

unfoldable pub piperead : (killed : Bool) (copyout : List Bool) → Pipe → Read
unfolding read_loop
piperead killed copyout pi =
    if empty pi && pi.writeopen
    then (if killed then returns pi minus_one [] else sleeps)
    else read_done (read_loop copyout [] pi)

-- Whether the page is given back, and the pipe.
unfoldable pub pipeclose : (writable : Bool) → Pipe → Pipe × Bool
pipeclose true pi = (record pi { writeopen = false }, not pi.readopen)
pipeclose false pi = (record pi { readopen = false }, not pi.writeopen)
