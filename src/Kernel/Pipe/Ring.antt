-- ===== src/Kernel/Pipe/Ring.antt =====
-- The ring of a pipe as a queue.
use ncsc210_g.Base.{
  ℕ, zero, suc, ◌+◌, ◌-◌, ◌%◌, ◌^◌, ◌≤◌, ◌<◌, ◌≡◌, refl, ap, subst, ◌∙◌, true, false, List, [], ◌∷◌,
  ◌++◌, arith, ◌==◌, length, update,
}
use ncsc210_g.Kernel.Pipe.{pipesize, Pipe, put_byte, full, empty, take_byte}

-- The `n` bytes of the ring from counter `a` on.
pub window : (buffer : ℕ → ℕ) (a n : ℕ) → List ℕ
window buffer a zero = []
window buffer a (suc n) = buffer (a % pipesize) ∷ window buffer (a + 1) n

-- How many bytes are in the pipe.
abbrev pub count : Pipe → ℕ
count pi = (pi.nwrite + 2 ^ 32 - pi.nread) % 2 ^ 32

-- The bytes that were written and not read, the oldest first.
abbrev pub contents : Pipe → List ℕ
contents pi = window pi.buffer pi.nread (count pi)

-- The counters are uints, and at most PIPESIZE apart.
pub record IsRing (pi : Pipe) : Type 0 where
  pub nread_fits : pi.nread < 2 ^ 32
  pub nwrite_fits : pi.nwrite < 2 ^ 32
  pub bounded : count pi ≤ pipesize

window-cong :
    (buffer : ℕ → ℕ) (a b n : ℕ)
    → a % pipesize ≡ b % pipesize
    → window buffer a n ≡ window buffer b n
unfolding window
window-cong buffer a b zero e = refl
window-cong buffer a b (suc n) e =
    let rest = window-cong buffer (a + 1) (b + 1) n (omega (arith, e)) in rw (e, rest) refl

window-snoc :
    (buffer : ℕ → ℕ) (a n : ℕ)
    → window buffer a (suc n) ≡ window buffer a n ++ buffer ((a + n) % pipesize) ∷ []
unfolding window
window-snoc buffer a zero = let e : a + 0 ≡ a = omega arith in rw e refl
window-snoc buffer a (suc n) =
    let e : a + 1 + n ≡ a + suc n = omega arith in
    ap (◌∷◌ (buffer (a % pipesize))) (window-snoc buffer (a + 1) n ∙ rw e refl)

apart : (a b : ℕ) → a < b → b < a + pipesize → (b % pipesize == a % pipesize) ≡ false
apart a b low high = ground arith

-- A byte behind the window.
window-update :
    (buffer : ℕ → ℕ) (a b n v : ℕ)
    → a + n ≤ b
    → b < a + pipesize
    → window (update buffer (b % pipesize) v) a n ≡ window buffer a n
unfolding window
window-update buffer a b zero v low high = refl
window-update buffer a b (suc n) v low high =
    let e : (b % pipesize == a % pipesize) ≡ false = apart a b (omega (arith, low)) high in
    let rest = window-update buffer (a + 1) b n v (omega arith) (omega arith) in rw (e, rest) refl

pub length-window : (buffer : ℕ → ℕ) (a n : ℕ) → length (window buffer a n) ≡ n
unfolding window
length-window buffer a zero = refl
length-window buffer a (suc n) = omega (arith, length-window buffer (a + 1) n)

count-put :
    (nread nwrite : ℕ)
    → nread < 2 ^ 32
    → nwrite < 2 ^ 32
    → (nwrite + 2 ^ 32 - nread) % 2 ^ 32 ≤ pipesize
    → (nwrite == (nread + pipesize) % 2 ^ 32) ≡ false
    → (((nwrite + 1) % 2 ^ 32 + 2 ^ 32 - nread) % 2 ^ 32 ≡ (nwrite + 2 ^ 32 - nread) % 2 ^ 32 + 1)
      × ((nwrite + 2 ^ 32 - nread) % 2 ^ 32 < pipesize)
count-put nread nwrite h k l e = (ground (arith, e), ground (arith, e))

-- A byte goes into a pipe that is not full.
pub put_byte-IsRing : (ch : ℕ) (pi : Pipe) → IsRing pi → full pi ≡ false → IsRing (put_byte ch pi)
put_byte-IsRing ch pi r e =
    let (c, low) = count-put pi.nread pi.nwrite r.nread_fits r.nwrite_fits r.bounded e in
    record { nread_fits = r.nread_fits; nwrite_fits = omega arith; bounded = omega (arith, c, low) }

put-window :
    (buffer : ℕ → ℕ) (nread nwrite ch : ℕ)
    → nread < 2 ^ 32
    → nwrite < 2 ^ 32
    → (nwrite + 2 ^ 32 - nread) % 2 ^ 32 < pipesize
    → window (update buffer (nwrite % pipesize) ch) nread (suc ((nwrite + 2 ^ 32 - nread) % 2 ^ 32))
      ≡ window buffer nread ((nwrite + 2 ^ 32 - nread) % 2 ^ 32) ++ ch ∷ []
put-window buffer nread nwrite ch h k low =
    let n = (nwrite + 2 ^ 32 - nread) % 2 ^ 32 in
    let end : (nread + n) % pipesize ≡ nwrite % pipesize = omega arith in
    let b1 = update buffer (nwrite % pipesize) ch in
    let hit : (nwrite % pipesize == nwrite % pipesize) ≡ true = ground arith in
    let last : b1 ((nread + n) % pipesize) ≡ ch = rw (end, hit) refl in
    let front : window b1 nread n ≡ window buffer nread n =
      subst (λ y. window (update buffer y ch) nread n ≡ window buffer nread n) end
        (window-update buffer nread (nread + n) n ch (omega arith) (omega (arith, low))) in
    window-snoc b1 nread n
    ∙ ap (λ x. x ++ b1 ((nread + n) % pipesize) ∷ []) front
    ∙ ap (λ x. window buffer nread n ++ x ∷ []) last

pub contents-put_byte :
    (ch : ℕ) (pi : Pipe)
    → IsRing pi
    → full pi ≡ false
    → contents (put_byte ch pi) ≡ contents pi ++ ch ∷ []
contents-put_byte ch pi r e =
    let (c, low) = count-put pi.nread pi.nwrite r.nread_fits r.nwrite_fits r.bounded e in
    let more : count (put_byte ch pi) ≡ suc (count pi) = omega (arith, c) in
    ap (window (update pi.buffer (pi.nwrite % pipesize) ch) pi.nread) more
    ∙ put-window pi.buffer pi.nread pi.nwrite ch r.nread_fits r.nwrite_fits low

count-take :
    (nread nwrite : ℕ)
    → nread < 2 ^ 32
    → nwrite < 2 ^ 32
    → (nread == nwrite) ≡ false
    → (nwrite + 2 ^ 32 - nread) % 2 ^ 32 ≡ suc ((nwrite + 2 ^ 32 - (nread + 1) % 2 ^ 32) % 2 ^ 32)
count-take nread nwrite h k e = ground (arith, e)

-- A byte is taken out of a pipe that is not empty: the oldest.
pub take_byte-IsRing : (pi : Pipe) → IsRing pi → empty pi ≡ false → IsRing (take_byte pi)
take_byte-IsRing pi r e =
    let c = count-take pi.nread pi.nwrite r.nread_fits r.nwrite_fits e in
    record {
      nread_fits = omega arith;
      nwrite_fits = r.nwrite_fits;
      bounded = omega (arith, c, r.bounded);
    }

window-suc :
    (buffer : ℕ → ℕ) (a n : ℕ)
    → window buffer a (suc n) ≡ buffer (a % pipesize) ∷ window buffer (a + 1) n
unfolding window
window-suc buffer a n = refl

pub contents-take_byte :
    (pi : Pipe)
    → IsRing pi
    → empty pi ≡ false
    → contents pi ≡ pi.buffer (pi.nread % pipesize) ∷ contents (take_byte pi)
contents-take_byte pi r e =
    let c = count-take pi.nread pi.nwrite r.nread_fits r.nwrite_fits e in
    let n = count (take_byte pi) in
    ap (window pi.buffer pi.nread) c
    ∙ window-suc pi.buffer pi.nread n
    ∙ ap (◌∷◌ (pi.buffer (pi.nread % pipesize)))
        (window-cong pi.buffer (pi.nread + 1) ((pi.nread + 1) % 2 ^ 32) n (omega arith))

count-empty :
    (nread nwrite : ℕ)
    → nread < 2 ^ 32
    → (nread == nwrite) ≡ true
    → (nwrite + 2 ^ 32 - nread) % 2 ^ 32 ≡ 0
count-empty nread nwrite h e = ground (arith, e)

window-none : (buffer : ℕ → ℕ) (a n : ℕ) → n ≡ 0 → window buffer a n ≡ []
unfolding window
window-none buffer a zero e = refl
window-none buffer a (suc n) e = absurd (omega (arith, e))

pub contents-empty : (pi : Pipe) → IsRing pi → empty pi ≡ true → contents pi ≡ []
contents-empty pi r e =
    window-none pi.buffer pi.nread (count pi) (count-empty pi.nread pi.nwrite r.nread_fits e)
