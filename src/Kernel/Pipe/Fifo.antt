-- ===== src/Kernel/Pipe/Fifo.antt =====
-- The rounds of pipewrite and piperead as steps of a queue.
use mathlib.Core.List.{append-nil, append_assoc}
use ncsc210_g.Base.{
  ℕ, ◌+◌, ◌%◌, ◌≡◌, refl, sym, ap, subst, ◌∙◌, ◌⊎◌, inl, inr, Bool, true, false, not, ◌&&◌, ◌||◌,
  Option, none, some, List, [], ◌∷◌, ◌++◌, arith, ◌==◌, Bool-cases, length, ℤ, pos, minus_one,
}
use ncsc210_g.Kernel.Pipe.{
  pipesize, Pipe, put_byte, full, Write, returns, sleeps, pipewrite, empty, take_byte, read_loop,
  Read, read_done, piperead,
}
use ncsc210_g.Kernel.Pipe.Ring.{
  contents, IsRing, put_byte-IsRing, contents-put_byte, take_byte-IsRing, contents-take_byte,
  contents-empty,
}

-- `bytes` are the first bytes of what was to be written, and `left` is what follows them.
pub data Taken
    : List (Bool × Option ℕ) → (bytes : List ℕ) → (left : List (Bool × Option ℕ)) → Type 0 where
  nothing : {todo : List (Bool × Option ℕ)} → Taken todo [] todo
  one :
      {todo : List (Bool × Option ℕ)} {bytes : List ℕ} {left : List (Bool × Option ℕ)}
      (killed : Bool) (b : ℕ)
      → Taken todo bytes left
      → Taken ((killed, some b) ∷ todo) (b ∷ bytes) left

-- The bytes stand behind those that were in the pipe.
pub record Appends (todo : List (Bool × Option ℕ)) (left : List (Bool × Option ℕ)) (pi pi1 : Pipe)
    (n : ℕ) : Type 0 where
  pub bytes : List ℕ
  pub taken : Taken todo bytes left
  pub is_ring : IsRing pi1
  pub contents_is : contents pi1 ≡ contents pi ++ bytes
  pub length_is : length bytes ≡ n

-- What a round of pipewrite that starts at byte `i` may come to.
abbrev pub Written : (todo : List (Bool × Option ℕ)) (i : ℕ) → Pipe → Write → Type 0
Written todo i pi (returns pi1 r) =
    (left : List (Bool × Option ℕ)) × (n : ℕ) × Appends todo left pi pi1 n
    × ((r ≡ pos (i + n)) ⊎ (r ≡ minus_one))
Written todo i pi (sleeps pi1 left i1) =
    (n : ℕ) × Appends todo left pi pi1 n × (i1 ≡ i + n) × (full pi1 ≡ true) × (pi1.readopen ≡ true)

Appends-none : (todo : List (Bool × Option ℕ)) (pi : Pipe) → IsRing pi → Appends todo todo pi pi 0
Appends-none todo pi r = record {
  bytes = [];
  taken = nothing;
  is_ring = r;
  contents_is = sym (append-nil (contents pi));
  length_is = refl;
}

Appends-cons :
    (todo left : List (Bool × Option ℕ)) (pi pi1 : Pipe) (n : ℕ) (killed : Bool) (b : ℕ)
    → IsRing pi
    → full pi ≡ false
    → Appends todo left (put_byte b pi) pi1 n
    → Appends ((killed, some b) ∷ todo) left pi pi1 (n + 1)
Appends-cons todo left pi pi1 n killed b r e a = record {
  bytes = b ∷ a.bytes;
  taken = one killed b a.taken;
  is_ring = a.is_ring;
  contents_is =
      a.contents_is
      ∙ ap (λ x. x ++ a.bytes) (contents-put_byte b pi r e)
      ∙ append_assoc (contents pi) (b ∷ []) a.bytes;
  length_is = omega (arith, a.length_is);
}

Written-cons :
    (todo : List (Bool × Option ℕ)) (i : ℕ) (pi : Pipe) (killed : Bool) (b : ℕ) (w : Write)
    → IsRing pi
    → full pi ≡ false
    → Written todo (i + 1) (put_byte b pi) w
    → Written ((killed, some b) ∷ todo) i pi w
Written-cons todo i pi killed b (returns pi1 x) r e (left, n, a, h) =
    let shift : i + 1 + n ≡ i + (n + 1) = omega arith in
    (
      left,
      n + 1,
      Appends-cons todo left pi pi1 n killed b r e a,
      elim h [ inl g ↦ inl (g ∙ ap pos shift) | inr g ↦ inr g ],
    )
Written-cons todo i pi killed b (sleeps pi1 left i1) r e (n, a, h, f, o) =
    (n + 1, Appends-cons todo left pi pi1 n killed b r e a, omega (arith, h), f, o)

pub still_open : (opened : Bool) (killed : Bool) → (not opened || killed) ≡ false → opened ≡ true
still_open opened killed h = ground arith

-- A round of pipewrite takes bytes from the front of what is to be written and appends them, in their
-- order, to those in the pipe, which stays within PIPESIZE. It returns how many bytes were written since
-- the call began, or -1; it sleeps only on a pipe that is full and open for reading, with the rest still
-- to be written.
pub pipewrite_lem :
    (todo : List (Bool × Option ℕ)) (i : ℕ) (pi : Pipe)
    → IsRing pi
    → Written todo i pi (pipewrite todo i pi)
unfolding pipewrite
pipewrite_lem [] i pi r =
    let z : i ≡ i + 0 = omega arith in ([], 0, Appends-none [] pi r, inl (ap pos z))
pipewrite_lem ((killed, none) ∷ more) i pi r =
    let todo = (killed, none) ∷ more in
    let z : i ≡ i + 0 = omega arith in
    elim (Bool-cases (not pi.readopen || killed)) [
      | inl e ↦ rw e (todo, 0, Appends-none todo pi r, inr refl)
      | inr e ↦ elim (Bool-cases (full pi)) [
        | inl f ↦ rw (e, f) (0, Appends-none todo pi r, z, f, still_open pi.readopen killed e)
        | inr f ↦ rw (e, f) (todo, 0, Appends-none todo pi r, inl (ap pos z))
      ]
    ]
pipewrite_lem ((killed, some b) ∷ more) i pi r =
    let todo = (killed, some b) ∷ more in
    let z : i ≡ i + 0 = omega arith in
    elim (Bool-cases (not pi.readopen || killed)) [
      | inl e ↦ rw e (todo, 0, Appends-none todo pi r, inr refl)
      | inr e ↦ elim (Bool-cases (full pi)) [
        | inl f ↦ rw (e, f) (0, Appends-none todo pi r, z, f, still_open pi.readopen killed e)
        | inr f ↦
            rw (e, f)
              (Written-cons more i pi killed b (pipewrite more (i + 1) (put_byte b pi)) r f
                (pipewrite_lem more (i + 1) (put_byte b pi) (put_byte-IsRing b pi r f)))
      ]
    ]

-- The bytes that a round of piperead gave stood at the front of the pipe.
pub record Removes (pi pi1 : Pipe) (bytes : List ℕ) : Type 0 where
  pub is_ring : IsRing pi1
  pub contents_is : contents pi ≡ bytes ++ contents pi1

abbrev pub ReadOut : Pipe → (killed : Bool) → Read → Type 0
ReadOut pi killed (returns pi1 r bytes) =
    Removes pi pi1 bytes × ((r ≡ pos (length bytes)) ⊎ ((r ≡ minus_one) × (bytes ≡ [])))
ReadOut pi killed sleeps = (contents pi ≡ []) × (pi.writeopen ≡ true) × (killed ≡ false)

Removes-none : (pi : Pipe) → IsRing pi → Removes pi pi []
Removes-none pi r = record { is_ring = r; contents_is = refl }

-- What the loop of piperead, which has got some bytes, comes to.
abbrev Looped : (got : List ℕ) → Pipe → Pipe × ℤ × List ℕ → Type 0
Looped got pi (pi1, r, bytes) =
    (more : List ℕ) × (bytes ≡ got ++ more)
    × Removes pi pi1 more
    × ((r ≡ pos (length bytes)) ⊎ ((r ≡ minus_one) × (bytes ≡ [])))

Looped-stop : (got : List ℕ) (pi : Pipe) → IsRing pi → Looped got pi (pi, pos (length got), got)
Looped-stop got pi r = ([], sym (append-nil got), Removes-none pi r, inl refl)

Looped-cons :
    (got : List ℕ) (pi : Pipe) (x : Pipe × ℤ × List ℕ)
    → IsRing pi
    → empty pi ≡ false
    → Looped (got ++ pi.buffer (pi.nread % pipesize) ∷ []) (take_byte pi) x
    → Looped got pi x
Looped-cons got pi (pi1, r, bytes) ring e (more, b, m, h) =
    let c = pi.buffer (pi.nread % pipesize) in
    (
      c ∷ more,
      b ∙ append_assoc got (c ∷ []) more,
      record {
        is_ring = m.is_ring;
        contents_is = contents-take_byte pi ring e ∙ ap (◌∷◌ c) m.contents_is;
      },
      h,
    )

none_got : (got : List ℕ) → (length got == 0) ≡ true → got ≡ []
none_got [] h = refl
none_got (b ∷ got) h = absurd (ground (arith, h))

read_loop_lem :
    (copyout : List Bool) (got : List ℕ) (pi : Pipe)
    → IsRing pi
    → Looped got pi (read_loop copyout got pi)
unfolding read_loop
read_loop_lem [] got pi r = Looped-stop got pi r
read_loop_lem (false ∷ more) got pi r = elim (Bool-cases (empty pi)) [
  | inl e ↦ rw e (Looped-stop got pi r)
  | inr e ↦ elim (Bool-cases (length got == 0)) [
    | inl f ↦ rw (e, f) ([], sym (append-nil got), Removes-none pi r, inr (refl, none_got got f))
    | inr f ↦ rw (e, f) (Looped-stop got pi r)
  ]
]
read_loop_lem (true ∷ more) got pi r = elim (Bool-cases (empty pi)) [
  | inl e ↦ rw e (Looped-stop got pi r)
  | inr e ↦ rw e (
      Looped-cons got pi _ r e (
        read_loop_lem more (got ++ pi.buffer (pi.nread % pipesize) ∷ []) (take_byte pi)
          (take_byte-IsRing pi r e)))
]

read_done-ReadOut :
    (killed : Bool) (pi : Pipe) (x : Pipe × ℤ × List ℕ)
    → Looped [] pi x
    → ReadOut pi killed (read_done x)
read_done-ReadOut killed pi (pi1, r, bytes) (more, b, m, h) = (subst (Removes pi pi1) (sym b) m, h)

-- A round of piperead takes bytes from the front of the pipe, in their order, and returns how many, or it
-- returns -1 and takes none; it sleeps only on a pipe that is empty and open for writing, when the caller
-- is not killed.
pub piperead_lem :
    (killed : Bool) (copyout : List Bool) (pi : Pipe)
    → IsRing pi
    → ReadOut pi killed (piperead killed copyout pi)
unfolding piperead
piperead_lem killed copyout pi r = elim (Bool-cases (empty pi && pi.writeopen)) [
  | inl e ↦ elim (Bool-cases killed) [
    | inl k ↦ rw (e, k) (Removes-none pi r, inr (refl, refl))
    | inr k ↦ rw (e, k) (contents-empty pi r (ground (arith, e)), ground (arith, e), refl)
  ]
  | inr e ↦
      rw e (read_done-ReadOut killed pi (read_loop copyout [] pi) (read_loop_lem copyout [] pi r))
]
