-- ===== src/Kernel/Pipe/Sleepers/Rounds.antt =====
-- What the rounds of pipewrite, piperead and pipeclose do to those who sleep.
use ncsc210_g.Base.{
  ℕ, ◌+◌, ◌≡◌, refl, sym, ap, subst, ◌∙◌, ◌≢◌, inl, inr, Bool, true, false, not, ◌&&◌, ◌||◌, Option,
  none, some, List, [], ◌∷◌, arith, ◌==◌, Bool-cases, All, ℤ, minus_one, ◌==ℤ◌, ==ℤ_iff,
}
use ncsc210_g.Kernel.Pipe.{
  Pipe, put_byte, full, empty, Write, pipewrite, Read, read_loop, read_done, piperead, pipeclose,
}
use ncsc210_g.Kernel.Pipe.Ring.{IsRing}
use ncsc210_g.Kernel.Pipe.Fifo.{Written, ReadOut, still_open}
use ncsc210_g.Kernel.Pipe.Sleepers.{
  Sleep, awake, on_nread, on_nwrite, Sleepers, not_on_nread, not_on_nwrite, after_write, after_read,
  close_round, kill_round, Steady,
}

pub record HasReason (s : Sleepers) : Type 0 where
  pub is_ring : IsRing s.pipe
  pub readers : (p : ℕ) → s.sleep p ≡ on_nread → (empty s.pipe ≡ true) × (s.pipe.writeopen ≡ true)
  pub writers : (p : ℕ) → s.sleep p ≡ on_nwrite → (full s.pipe ≡ true) × (s.pipe.readopen ≡ true)

-- A caller that is not killed gets -1 only from a pipe that nobody reads.
pipewrite-killed :
    (todo : List (Bool × Option ℕ)) (i : ℕ) (pi pi1 : Pipe)
    → All (λ x. x.0 ≡ false) todo
    → pi.readopen ≡ true
    → pipewrite todo i pi ≡ Write.returns pi1 minus_one
    → ⊥
unfolding pipewrite
pipewrite-killed [] i pi pi1 st o h = ground (arith, h)
pipewrite-killed ((k, none) ∷ more) i pi pi1 (e, st) o h = ground (arith, e, o, h)
pipewrite-killed ((k, some b) ∷ more) i pi pi1 (e, st) o h = elim (Bool-cases (full pi)) [
  | inl f ↦ ground (arith, e, o, f, h)
  | inr f ↦
      let passes : (not pi.readopen || k) ≡ false = ground (arith, e, o) in
      pipewrite-killed more (i + 1) (put_byte b pi) pi1 st o (rw (passes, f) at h)
]

-- A steady round that returns -1 has changed nothing.
pipewrite-Steady :
    (todo : List (Bool × Option ℕ)) (i : ℕ) (pi pi1 : Pipe)
    → Steady todo
    → pipewrite todo i pi ≡ Write.returns pi1 minus_one
    → pi1 ≡ pi
unfolding pipewrite
pipewrite-Steady [] i pi pi1 st h = absurd (ground (arith, h))
pipewrite-Steady ((k, none) ∷ more) i pi pi1 st h = ground (arith, h)
pipewrite-Steady ((k, some b) ∷ more) i pi pi1 st h = elim (Bool-cases (not pi.readopen || k)) [
  | inl e ↦ let r : Write.returns pi minus_one ≡ Write.returns pi1 minus_one = rw e at h in sym (cc)
  | inr e ↦ elim (Bool-cases (full pi)) [
    | inl f ↦ absurd (ground (arith, e, f, h))
    | inr f ↦
        let alive : k ≡ false = ground (arith, e) in
        absurd (
          pipewrite-killed more (i + 1) (put_byte b pi) pi1
            (subst (λ c. All (λ x. x.0 ≡ c) more) alive st) (still_open pi.readopen k e)
            (rw (e, f) at h))
  ]
]

abbrev pipe_of : Write → Pipe
pipe_of (Write.returns pi r) = pi
pipe_of (Write.sleeps pi left i) = pi

-- A full pipe is not written to.
pipewrite-full :
    (todo : List (Bool × Option ℕ)) (i : ℕ) (pi : Pipe)
    → full pi ≡ true
    → pipe_of (pipewrite todo i pi) ≡ pi
unfolding pipewrite
pipewrite-full [] i pi f = refl
pipewrite-full ((k, none) ∷ more) i pi f = elim (Bool-cases (not pi.readopen || k)) [
  | inl e ↦ rw e refl
  | inr e ↦ rw (e, f) refl
]
pipewrite-full ((k, some b) ∷ more) i pi f = elim (Bool-cases (not pi.readopen || k)) [
  | inl e ↦ rw e refl
  | inr e ↦ rw (e, f) refl
]

read_done-returns : (x : Pipe × ℤ × List ℕ) → read_done x ≢ Read.sleeps
read_done-returns (pi, r, bytes) h = ground (arith, h)

-- piperead sleeps only on an empty pipe that is open for writing.
piperead-sleeps :
    (killed : Bool) (copyout : List Bool) (pi : Pipe)
    → piperead killed copyout pi ≡ Read.sleeps
    → (empty pi ≡ true) × (pi.writeopen ≡ true)
unfolding piperead
piperead-sleeps killed copyout pi h = elim (Bool-cases (empty pi && pi.writeopen)) [
  | inl e ↦ (ground (arith, e), ground (arith, e))
  | inr e ↦ absurd (read_done-returns (read_loop copyout [] pi) (rw e at h))
]

-- The wakeups.
woken_reader : (x : Sleep) → not_on_nread x ≢ on_nread
woken_reader awake h = ground (arith, h)
woken_reader on_nread h = ground (arith, h)
woken_reader on_nwrite h = ground (arith, h)

woken_writer : (x : Sleep) → not_on_nwrite x ≢ on_nwrite
woken_writer awake h = ground (arith, h)
woken_writer on_nread h = ground (arith, h)
woken_writer on_nwrite h = ground (arith, h)

writer_sleeps : (x : Sleep) → not_on_nread x ≡ on_nwrite → x ≡ on_nwrite
writer_sleeps awake h = absurd (ground (arith, h))
writer_sleeps on_nread h = absurd (ground (arith, h))
writer_sleeps on_nwrite h = refl

reader_sleeps : (x : Sleep) → not_on_nwrite x ≡ on_nread → x ≡ on_nread
reader_sleeps awake h = absurd (ground (arith, h))
reader_sleeps on_nwrite h = absurd (ground (arith, h))
reader_sleeps on_nread h = refl

pub after_write-HasReason :
    (p : ℕ) (todo : List (Bool × Option ℕ)) (i : ℕ) (s : Sleepers) (w : Write)
    → HasReason s
    → Steady todo
    → pipewrite todo i s.pipe ≡ w
    → Written todo i s.pipe w
    → HasReason (after_write p s w)
unfolding after_write
after_write-HasReason p todo i s (Write.returns pi r) h st e (left, n, a, _) =
    elim (Bool-cases (r ==ℤ minus_one)) [
      | inl m ↦
          let failed : r ≡ minus_one = (==ℤ_iff r minus_one).0 m in
          let same : pi ≡ s.pipe =
            pipewrite-Steady todo i s.pipe pi st (e ∙ ap (Write.returns pi) failed) in
          rw (m, same) h
      | inr m ↦ rw m (record {
        is_ring = a.is_ring;
        readers = λ q g. absurd (woken_reader (s.sleep q) g);
        writers = λ q g.
            let was = h.writers q (writer_sleeps (s.sleep q) g) in
            let same : pi ≡ s.pipe = sym (ap pipe_of e) ∙ pipewrite-full todo i s.pipe was.0 in
            rw same was;
      })
    ]
after_write-HasReason p todo i s (Write.sleeps pi left j) h st e (n, a, _, f, o) = record {
  is_ring = a.is_ring;
  readers = λ q g. absurd (elim (Bool-cases (p == q)) [
    | inl same ↦ ground (arith, same, g)
    | inr other ↦ woken_reader (s.sleep q) (rw other at g)
  ]);
  writers = λ q g. (f, o);
}

pub after_read-HasReason :
    (p : ℕ) (killed : Bool) (copyout : List Bool) (s : Sleepers) (r : Read)
    → HasReason s
    → piperead killed copyout s.pipe ≡ r
    → ReadOut s.pipe killed r
    → HasReason (after_read p s r)
unfolding after_read
after_read-HasReason p killed copyout s (Read.returns pi r bytes) h e (m, _) =
    elim (Bool-cases (empty s.pipe && s.pipe.writeopen)) [
      | inl waits ↦ rw waits h
      | inr goes ↦ rw goes (record {
        is_ring = m.is_ring;
        readers = λ q g.
            let (none_there, open_there) = h.readers q (reader_sleeps (s.sleep q) g) in
            absurd (ground (arith, none_there, open_there, goes));
        writers = λ q g. absurd (woken_writer (s.sleep q) g);
      })
    ]
after_read-HasReason p killed copyout s Read.sleeps h e _ = record {
  is_ring = h.is_ring;
  readers = λ q g. piperead-sleeps killed copyout s.pipe e;
  writers = λ q g. elim (Bool-cases (p == q)) [
    | inl same ↦ absurd (ground (arith, same, g))
    | inr other ↦ h.writers q (rw other at g)
  ];
}

pub close_round-HasReason :
    (writable : Bool) (s : Sleepers) → HasReason s → HasReason (close_round writable s)
unfolding close_round pipeclose
close_round-HasReason true s h = record {
  is_ring = record {
    nread_fits = h.is_ring.nread_fits;
    nwrite_fits = h.is_ring.nwrite_fits;
    bounded = h.is_ring.bounded;
  };
  readers = λ q g. absurd (woken_reader (s.sleep q) g);
  writers = λ q g. h.writers q (writer_sleeps (s.sleep q) g);
}
close_round-HasReason false s h = record {
  is_ring = record {
    nread_fits = h.is_ring.nread_fits;
    nwrite_fits = h.is_ring.nwrite_fits;
    bounded = h.is_ring.bounded;
  };
  readers = λ q g. h.readers q (reader_sleeps (s.sleep q) g);
  writers = λ q g. absurd (woken_writer (s.sleep q) g);
}

pub kill_round-HasReason : (p : ℕ) (s : Sleepers) → HasReason s → HasReason (kill_round p s)
unfolding kill_round
kill_round-HasReason p s h = record {
  is_ring = h.is_ring;
  readers = λ q g. elim (Bool-cases (p == q)) [
    | inl same ↦ absurd (ground (arith, same, g))
    | inr other ↦ h.readers q (rw other at g)
  ];
  writers = λ q g. elim (Bool-cases (p == q)) [
    | inl same ↦ absurd (ground (arith, same, g))
    | inr other ↦ h.writers q (rw other at g)
  ];
}
