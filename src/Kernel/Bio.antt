-- ===== src/Kernel/Bio.antt =====
-- The buffer cache of xv6-riscv/kernel/bio.c: which block is in which buffer. Buffers go by their place in
-- bcache.buf; the linked list is the list of their places, the most recently used first. Each section
-- under bcache.lock is one step; the sleep lock of a buffer, which its user takes next, is left out.
mod Tests
pub mod Kept
pub mod Blocks
pub mod Uses
use ncsc210_g.Base.{
  ℕ, zero, suc, ◌+◌, ◌-◌, ◌%◌, ◌^◌, Bool, true, false, ◌&&◌, Option, none, some, List, [], ◌∷◌,
  ◌==◌, if◌then◌else◌, update,
}

abbrev pub nbuf : ℕ
nbuf = 30

-- struct buf, as far as bcache.lock protects it, and `valid`.
pub record Buf : Type 0 where
  pub dev : ℕ
  pub blockno : ℕ
  pub valid : Bool
  pub refcnt : ℕ

pub record Bcache : Type 0 where
  pub buf : ℕ → Buf
  pub order : List ℕ

-- binit puts each buffer at the head of the list.
binit_order : (left b : ℕ) (order : List ℕ) → List ℕ
binit_order zero b order = order
binit_order (suc left) b order = binit_order left (b + 1) (b ∷ order)

unfoldable pub binit : Bcache
unfolding binit_order
binit = record {
  buf = λ b. record { dev = 0; blockno = 0; valid = false; refcnt = 0 };
  order = binit_order nbuf 0 [];
}

-- The first buffer of a list that passes a test.
pub first_buf : (test : ℕ → Bool) → List ℕ → Option ℕ
first_buf test [] = none
first_buf test (b ∷ bs) = let rest = first_buf test bs in if test b then some b else rest

pub reversed : (bs front : List ℕ) → List ℕ
reversed [] front = front
reversed (b ∷ bs) front = reversed bs (b ∷ front)

abbrev pub set_buf : ℕ → Buf → Bcache → Bcache
set_buf b v c = record c { buf = update c.buf b v }

abbrev pub holds : Bcache → (dev blockno b : ℕ) → Bool
holds c dev blockno b = (c.buf b).dev == dev && (c.buf b).blockno == blockno

-- The second loop of bget: the least recently used buffer without users is recycled. `none` is the panic.
abbrev recycle : (dev blockno : ℕ) → Bcache → Option ℕ → Option (ℕ × Bcache)
recycle dev blockno c none = none
recycle dev blockno c (some b) =
    let fresh : Buf = record { dev = dev; blockno = blockno; valid = false; refcnt = 1 } in
    some (b, set_buf b fresh c)

abbrev pub unused : Bcache → ℕ → Bool
unused c b = (c.buf b).refcnt == 0

abbrev bget_found : (dev blockno : ℕ) → Bcache → Option ℕ → Option (ℕ × Bcache)
bget_found dev blockno c (some b) =
    some (b, set_buf b (record (c.buf b) { refcnt = ((c.buf b).refcnt + 1) % 2 ^ 32 }) c)
bget_found dev blockno c none = recycle dev blockno c (first_buf (unused c) (reversed c.order []))

unfoldable pub bget : (dev blockno : ℕ) → Bcache → Option (ℕ × Bcache)
unfolding first_buf reversed
bget dev blockno c = bget_found dev blockno c (first_buf (holds c dev blockno) c.order)

-- What bread does behind bget: the block is read if the buffer does not hold it.
abbrev pub read_in : ℕ → Bcache → Bcache
read_in b c = set_buf b (record (c.buf b) { valid = true }) c

-- The list without a buffer.
pub without : ℕ → List ℕ → List ℕ
without b [] = []
without b (x ∷ xs) = let rest = without b xs in if x == b then rest else x ∷ rest

abbrev decrement : ℕ → ℕ
decrement n = (n + 2 ^ 32 - 1) % 2 ^ 32

-- The end of brelse: a buffer that nobody uses goes to the head of the list.
unfoldable pub brelse : ℕ → Bcache → Bcache
unfolding without
brelse b c =
    let n = decrement (c.buf b).refcnt in
    record {
      buf = update c.buf b (record (c.buf b) { refcnt = n });
      order = if n == 0 then b ∷ without b c.order else c.order;
    }

unfoldable pub bpin : ℕ → Bcache → Bcache
bpin b c = set_buf b (record (c.buf b) { refcnt = ((c.buf b).refcnt + 1) % 2 ^ 32 }) c

unfoldable pub bunpin : ℕ → Bcache → Bcache
bunpin b c = set_buf b (record (c.buf b) { refcnt = decrement (c.buf b).refcnt }) c
