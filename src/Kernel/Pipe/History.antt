-- ===== src/Kernel/Pipe/History.antt =====
-- All that is ever written to a pipe and read from it, in any order of calls by any processes.
use mathlib.Core.List.{append_assoc}
use ncsc210_g.Base.{
  ℕ, ◌+◌, ◌≡◌, refl, sym, ap, subst, ◌∙◌, ◌≢◌, inl, inr, Bool, true, false, Option, List, [], ◌∷◌,
  ◌++◌, arith, length, length-append, ℤ, pos, minus_one,
}
use ncsc210_g.Kernel.Pipe.{Pipe, pipealloc, Write, pipewrite, Read, piperead, pipeclose}
use ncsc210_g.Kernel.Pipe.Ring.{count, contents, IsRing, length-window, contents-empty}
use ncsc210_g.Kernel.Pipe.Fifo.{
  Taken, nothing, one, Appends, Written, pipewrite_lem, ReadOut, piperead_lem,
}

-- The pipe, what was taken from the callers of pipewrite, and what was given to those of piperead.
pub record Traffic : Type 0 where
  pub pipe : Pipe
  pub written : List ℕ
  pub got : List ℕ

-- A round of pipewrite that returns a count has taken from its caller as many bytes as it reports beyond
-- byte `i`; one that sleeps, those before what is still to be written. One that returns -1 reports
-- nothing: it has taken as many bytes as the pipe has more behind it.
pub data Step (t : Traffic) : Traffic → Type 0 where
  writes :
      (todo : List (Bool × Option ℕ)) (i : ℕ) (pi : Pipe) (bytes : List ℕ)
      (left : List (Bool × Option ℕ))
      → pipewrite todo i t.pipe ≡ Write.returns pi (pos (i + length bytes))
      → Taken todo bytes left
      → Step t (record t { pipe = pi; written = t.written ++ bytes })
  waits :
      (todo : List (Bool × Option ℕ)) (i : ℕ) (pi : Pipe) (bytes : List ℕ)
      (left : List (Bool × Option ℕ)) (j : ℕ)
      → pipewrite todo i t.pipe ≡ Write.sleeps pi left j
      → Taken todo bytes left
      → Step t (record t { pipe = pi; written = t.written ++ bytes })
  breaks_off :
      (todo : List (Bool × Option ℕ)) (i : ℕ) (pi : Pipe) (bytes : List ℕ)
      (left : List (Bool × Option ℕ))
      → pipewrite todo i t.pipe ≡ Write.returns pi minus_one
      → Taken todo bytes left
      → count pi ≡ count t.pipe + length bytes
      → Step t (record t { pipe = pi; written = t.written ++ bytes })
  reads :
      (killed : Bool) (copyout : List Bool) (pi : Pipe) (r : ℤ) (bytes : List ℕ)
      → piperead killed copyout t.pipe ≡ Read.returns pi r bytes
      → Step t (record t { pipe = pi; got = t.got ++ bytes })
  closes : (writable : Bool) → Step t (record t { pipe = (pipeclose writable t.pipe).0 })

pub data Reach (page : ℕ → ℕ) : Traffic → Type 0 where
  start : Reach page (record { pipe = pipealloc page; written = []; got = [] })
  next : {s t : Traffic} → Reach page s → Step s t → Reach page t

-- Two beginnings of one list that are as long.
Taken-same :
    (todo : List (Bool × Option ℕ)) (xs ys : List ℕ) (left left1 : List (Bool × Option ℕ))
    → Taken todo xs left
    → Taken todo ys left1
    → length xs ≡ length ys
    → xs ≡ ys
Taken-same todo _ _ _ _ nothing nothing h = refl
Taken-same todo _ _ _ _ nothing (one k b t) h = absurd (omega (arith, h))
Taken-same todo _ _ _ _ (one k b t) nothing h = absurd (omega (arith, h))
Taken-same todo _ _ _ _ (one k b t) (one k1 b1 t1) h =
    ap (◌∷◌ b) (Taken-same _ _ _ _ _ t t1 (omega (arith, h)))

pub record InOrder (t : Traffic) : Type 0 where
  pub is_ring : IsRing t.pipe
  pub written_is : t.written ≡ t.got ++ contents t.pipe

-- What a round appends is what it took, if that is as long.
same_bytes :
    (todo left left1 : List (Bool × Option ℕ)) (bytes : List ℕ) (pi pi1 : Pipe) (n : ℕ)
    → Taken todo bytes left
    → Appends todo left1 pi pi1 n
    → length bytes ≡ n
    → contents pi1 ≡ contents pi ++ bytes
same_bytes todo left left1 bytes pi pi1 n t a h =
    a.contents_is
    ∙ ap (λ x. contents pi ++ x)
        (Taken-same todo a.bytes bytes left1 left a.taken t (a.length_is ∙ sym h))

length-Taken :
    (todo left : List (Bool × Option ℕ)) (bytes : List ℕ)
    → Taken todo bytes left
    → length todo ≡ length bytes + length left
length-Taken todo _ _ nothing = omega arith
length-Taken todo left _ (one k b t) = omega (arith, length-Taken _ left _ t)

-- The pipe behind a round has grown by as much as was appended.
count-Appends :
    (todo left : List (Bool × Option ℕ)) (pi pi1 : Pipe) (n : ℕ)
    → Appends todo left pi pi1 n
    → count pi1 ≡ count pi + n
count-Appends todo left pi pi1 n a =
    let before = length-window pi.buffer pi.nread (count pi) in
    let after = length-window pi1.buffer pi1.nread (count pi1) in
    let grown : length (contents pi1) ≡ length (contents pi ++ a.bytes) = ap length a.contents_is in
    let sum = length-append (contents pi) a.bytes in
    let long = a.length_is in omega (arith, before, after, grown, sum, long)

appended :
    (s : Traffic) (pi : Pipe) (bytes : List ℕ)
    → InOrder s
    → IsRing pi
    → contents pi ≡ contents s.pipe ++ bytes
    → InOrder (record s { pipe = pi; written = s.written ++ bytes })
appended s pi bytes h ring c = record {
  is_ring = ring;
  written_is =
      ap (λ x. x ++ bytes) h.written_is
      ∙ append_assoc s.got (contents s.pipe) bytes
      ∙ ap (λ x. s.got ++ x) (sym c);
}

pos_inj : (m n : ℕ) → pos m ≡ pos n → m ≡ n
pos_inj m n h = cc

pos_not_minus_one : (m : ℕ) → pos m ≢ minus_one
pos_not_minus_one m h = cc

Step-InOrder : {s t : Traffic} → Step s t → InOrder s → InOrder t
unfolding pipeclose
Step-InOrder {s} (writes todo i pi bytes left e t) h =
    let (left1, n, a, r) =
      subst (Written todo i s.pipe) e (pipewrite_lem todo i s.pipe h.is_ring) in
    let long : length bytes ≡ n = elim r [
      | inl f ↦ omega (arith, pos_inj (i + length bytes) (i + n) f)
      | inr f ↦ absurd (pos_not_minus_one (i + length bytes) f)
    ] in
    appended s pi bytes h a.is_ring (same_bytes todo left left1 bytes s.pipe pi n t a long)
Step-InOrder {s} (waits todo i pi bytes left j e t) h =
    let (n, a, _, _, _) = subst (Written todo i s.pipe) e (pipewrite_lem todo i s.pipe h.is_ring) in
    let taken = length-Taken todo left bytes t in
    let same = length-Taken todo left a.bytes a.taken in
    let long : length bytes ≡ n = omega (arith, taken, same, a.length_is) in
    appended s pi bytes h a.is_ring (same_bytes todo left left bytes s.pipe pi n t a long)
Step-InOrder {s} (breaks_off todo i pi bytes left e t c) h =
    let (left1, n, a, _) =
      subst (Written todo i s.pipe) e (pipewrite_lem todo i s.pipe h.is_ring) in
    let grown = count-Appends todo left1 s.pipe pi n a in
    let long : length bytes ≡ n = omega (arith, grown, c) in
    appended s pi bytes h a.is_ring (same_bytes todo left left1 bytes s.pipe pi n t a long)
Step-InOrder {s} (reads killed copyout pi r bytes e) h =
    let (m, _) = subst (ReadOut s.pipe killed) e (piperead_lem killed copyout s.pipe h.is_ring) in
    record {
      is_ring = m.is_ring;
      written_is =
          h.written_is
          ∙ ap (λ x. s.got ++ x) m.contents_is
          ∙ sym (append_assoc s.got bytes (contents pi));
    }
Step-InOrder {s} (closes true) h = record {
  is_ring = record {
    nread_fits = h.is_ring.nread_fits;
    nwrite_fits = h.is_ring.nwrite_fits;
    bounded = h.is_ring.bounded;
  };
  written_is = h.written_is;
}
Step-InOrder {s} (closes false) h = record {
  is_ring = record {
    nread_fits = h.is_ring.nread_fits;
    nwrite_fits = h.is_ring.nwrite_fits;
    bounded = h.is_ring.bounded;
  };
  written_is = h.written_is;
}

-- A new pipe has a ring.
pipealloc-IsRing : (page : ℕ → ℕ) → IsRing (pipealloc page)
unfolding pipealloc
pipealloc-IsRing page = record {
  nread_fits = omega arith;
  nwrite_fits = omega arith;
  bounded = omega arith;
}

-- From a new pipe on, whatever rounds of pipewrite and piperead and whatever closes follow one another,
-- kills and failed copies included: the bytes that pipewrite reports as written, those before what it
-- leaves for after a sleep, and those that it stored before it returned -1 are, in their order, the bytes
-- that the readers got and then those in the pipe.
pub Reach-InOrder : {page : ℕ → ℕ} {t : Traffic} → Reach page t → InOrder t
unfolding pipealloc
Reach-InOrder {page} start = record {
  is_ring = pipealloc-IsRing page;
  written_is = sym (contents-empty (pipealloc page) (pipealloc-IsRing page) refl);
}
Reach-InOrder (next r st) = Step-InOrder st (Reach-InOrder r)
