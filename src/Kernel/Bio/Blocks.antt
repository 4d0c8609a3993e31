-- ===== src/Kernel/Bio/Blocks.antt =====
-- bget of bio.c: a block has one buffer, and a buffer in use stays with its block.
use ncsc210_g.Base.{
  ℕ, ◌+◌, ◌%◌, ◌^◌, ◌<◌, ◌≡◌, refl, sym, ap, ◌∙◌, ◌≢◌, ◌⊎◌, inl, inr, Bool, true, false, ◌||◌,
  Option, none, some, List, [], ◌∷◌, arith, ◌==◌, ==_iff, Bool-cases,
}
use ncsc210_g.Kernel.Bio.{
  nbuf, Buf, Bcache, first_buf, reversed, set_buf, holds, recycle, unused, bget_found, bget,
}

abbrev pub among : List ℕ → ℕ → Bool
among [] x = false
among (b ∷ bs) x = (b == x) || among bs x

-- The list has all buffers, and each block of a device that exists (0 is none) has one buffer at most.
pub record IsCache (c : Bcache) : Type 0 where
  pub complete : (b : ℕ) → b < nbuf → among c.order b ≡ true
  pub in_range : (b : ℕ) → among c.order b ≡ true → b < nbuf
  pub one_buffer :
      (i j : ℕ)
      → i < nbuf
      → j < nbuf
      → (c.buf i).dev ≢ 0
      → (c.buf i).dev ≡ (c.buf j).dev
      → (c.buf i).blockno ≡ (c.buf j).blockno
      → i ≡ j

pub first_buf-some :
    (test : ℕ → Bool) (bs : List ℕ) (b : ℕ)
    → first_buf test bs ≡ some b
    → (test b ≡ true) × (among bs b ≡ true)
unfolding first_buf
first_buf-some test [] b h = cc
first_buf-some test (x ∷ bs) b h = elim (Bool-cases (test x)) [
  | inl hit ↦ let e : x ≡ b = ground (arith, hit, h) in (ap test (sym e) ∙ hit, ground (arith, e))
  | inr miss ↦
      let (t, m) = first_buf-some test bs b (ground (arith, miss, h)) in (t, ground (arith, m))
]

pub first_buf-none :
    (test : ℕ → Bool) (bs : List ℕ) (b : ℕ)
    → first_buf test bs ≡ none
    → among bs b ≡ true
    → test b ≡ false
unfolding first_buf
first_buf-none test [] b h m = cc
first_buf-none test (x ∷ bs) b h m = elim (Bool-cases (test x)) [
  | inl hit ↦ absurd (ground (arith, hit, h))
  | inr miss ↦ elim (Bool-cases (x == b)) [
    | inl e ↦ let s : x ≡ b = (==_iff x b).0 e in ap test (sym s) ∙ miss
    | inr e ↦ first_buf-none test bs b (ground (arith, miss, h)) (ground (arith, e, m))
  ]
]

pub among-reversed :
    (bs front : List ℕ) (x : ℕ) → among (reversed bs front) x ≡ (among bs x || among front x)
unfolding reversed
among-reversed [] front x = refl
among-reversed (b ∷ bs) front x = ground (arith, among-reversed bs (b ∷ front) x)

-- What bget comes to. `none` is the panic.
pub record Got (dev blockno : ℕ) (c c1 : Bcache) (b : ℕ) : Type 0 where
  pub in_table : b < nbuf
  pub holds_it : holds c1 dev blockno b ≡ true
  pub counted : (c1.buf b).refcnt ≡ ((c.buf b).refcnt + 1) % 2 ^ 32
  pub cached_or_not :
      (c1.buf b ≡ record (c.buf b) { refcnt = ((c.buf b).refcnt + 1) % 2 ^ 32 })
      ⊎ (((c.buf b).refcnt ≡ 0) × ((j : ℕ) → j < nbuf → holds c dev blockno j ≡ false))
  pub others : (j : ℕ) → b ≢ j → c1.buf j ≡ c.buf j
  pub order_same : c1.order ≡ c.order

abbrev pub Gets : (dev blockno : ℕ) → Bcache → Option (ℕ × Bcache) → Type 0
Gets dev blockno c (some (b, c1)) = Got dev blockno c c1 b
Gets dev blockno c none =
    (b : ℕ) → b < nbuf → (holds c dev blockno b ≡ false) × (unused c b ≡ false)

pub set_buf-other : (b j : ℕ) (v : Buf) (c : Bcache) → b ≢ j → (set_buf b v c).buf j ≡ c.buf j
set_buf-other b j v c h = let e : (b == j) ≡ false = ground arith in rw e refl

pub set_buf-here : (b : ℕ) (v : Buf) (c : Bcache) → (set_buf b v c).buf b ≡ v
set_buf-here b v c = let e : (b == b) ≡ true = ground arith in rw e refl

pub recycle-Gets :
    (dev blockno : ℕ) (c : Bcache) (found : Option ℕ)
    → IsCache c
    → ((j : ℕ) → j < nbuf → holds c dev blockno j ≡ false)
    → first_buf (unused c) (reversed c.order []) ≡ found
    → Gets dev blockno c (recycle dev blockno c found)
recycle-Gets dev blockno c none k missing e = λ b low.
    let m : among (reversed c.order []) b ≡ true =
      among-reversed c.order [] b ∙ ground (arith, k.complete b low) in
    (missing b low, first_buf-none (unused c) (reversed c.order []) b e m)
recycle-Gets dev blockno c (some b) k missing e =
    let (free, m) = first_buf-some (unused c) (reversed c.order []) b e in
    let there : among c.order b ≡ true = ground (arith, among-reversed c.order [] b, m) in
    let zero_is : (c.buf b).refcnt ≡ 0 = (==_iff (c.buf b).refcnt 0).0 free in
    let fresh : Buf = record { dev = dev; blockno = blockno; valid = false; refcnt = 1 } in
    let here = set_buf-here b fresh c in
    record {
      in_table = k.in_range b there;
      holds_it = rw here (ground arith);
      counted = ap (λ x. x.refcnt) here ∙ rw zero_is refl;
      cached_or_not = inr (zero_is, missing);
      others = λ j ne. set_buf-other b j fresh c ne;
      order_same = refl;
    }

pub bget_found-Gets :
    (dev blockno : ℕ) (c : Bcache) (found : Option ℕ)
    → IsCache c
    → first_buf (holds c dev blockno) c.order ≡ found
    → Gets dev blockno c (bget_found dev blockno c found)
bget_found-Gets dev blockno c none k e =
    recycle-Gets dev blockno c (first_buf (unused c) (reversed c.order [])) k
      (λ j low. first_buf-none (holds c dev blockno) c.order j e (k.complete j low)) refl
bget_found-Gets dev blockno c (some b) k e =
    let (hit, m) = first_buf-some (holds c dev blockno) c.order b e in
    let v : Buf = record (c.buf b) { refcnt = ((c.buf b).refcnt + 1) % 2 ^ 32 } in
    let here = set_buf-here b v c in
    record {
      in_table = k.in_range b m;
      holds_it = rw here hit;
      counted = ap (λ x. x.refcnt) here;
      cached_or_not = inl here;
      others = λ j ne. set_buf-other b j v c ne;
      order_same = refl;
    }

-- In a cache that is in order, bget gives a buffer with the block, and counts a user more: the buffer that
-- had the block, with nothing else in it changed, or, if none had it, one that nobody used; all other
-- buffers are as before. It panics only if no buffer has the block and all are in use.
pub bget_lem : (dev blockno : ℕ) (c : Bcache) → IsCache c → Gets dev blockno c (bget dev blockno c)
unfolding bget
bget_lem dev blockno c k =
    bget_found-Gets dev blockno c (first_buf (holds c dev blockno) c.order) k refl
