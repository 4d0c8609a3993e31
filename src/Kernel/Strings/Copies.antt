-- ===== src/Kernel/Strings/Copies.antt =====
-- safestrcpy and strlen of string.c.
use ncsc210_g.Base.{
  ℕ, zero, suc, ◌+◌, ◌≤◌, ◌<◌, ◌≡◌, refl, sym, ap, ◌∙◌, ◌≢◌, ◌⊎◌, inl, inr, true, false, some,
  arith, ◌==◌, ==_iff, Bool-cases, pos, update,
}
use ncsc210_g.Kernel.Strings.{Memory, safe_loop, safestrcpy, strlen_loop, strlen}
use ncsc210_g.Kernel.Strings.Moves.{update-here, update-other, out_ne}

-- Two regions of `n` bytes that do not meet.
abbrev pub Apart : (s t n : ℕ) → Type 0
Apart s t n = (s + n ≤ t) ⊎ (t + n ≤ s)

-- `r` is `m` with the string at `t` copied to `s`, cut to `k` bytes of at most `n`, and ended by a zero.
pub record Copy (s t n : ℕ) (m r : Memory) (k : ℕ) : Type 0 where
  pub fits : k ≤ n
  pub ended : r (s + k) ≡ 0
  pub same : (j : ℕ) → j < k → r (s + j) ≡ m (t + j)
  pub no_zero : (j : ℕ) → j < k → m (t + j) ≢ 0
  pub whole : (m (t + k) ≡ 0) ⊎ (k ≡ n)
  pub kept : (x : ℕ) → (x < s) ⊎ (s + n + 1 ≤ x) → r x ≡ m x

next-Apart : (s t n : ℕ) → Apart s t (n + 2) → Apart (s + 1) (t + 1) (n + 1)
next-Apart s t n h = elim h [
  | inl low ↦ inl (omega (arith, low))
  | inr high ↦ inr (omega (arith, high))
]

Apart-ne : (s t n j : ℕ) → Apart s t (n + 2) → j ≤ n → s ≢ t + 1 + j
Apart-ne s t n j h l e = elim h [
  | inl low ↦ omega (arith, low, l, e)
  | inr high ↦ omega (arith, high, l, e)
]

outside_ne : (s n x : ℕ) → (x < s) ⊎ (s + suc n + 1 ≤ x) → (s ≢ x) × (s + 1 ≢ x)
outside_ne s n x h = elim h [
  | inl low ↦ ((λ e. omega (arith, low, e)), (λ e. omega (arith, low, e)))
  | inr high ↦ ((λ e. omega (arith, high, e)), (λ e. omega (arith, high, e)))
]

outside_next : (s n x : ℕ) → (x < s) ⊎ (s + suc n + 1 ≤ x) → (x < s + 1) ⊎ (s + 1 + n + 1 ≤ x)
outside_next s n x h = elim h [
  | inl low ↦ inl (omega (arith, low))
  | inr high ↦ inr (omega (arith, high))
]

-- A zero byte is copied, and a second one is written behind it.
copy_end :
    (s t n : ℕ) (m : Memory) → m t ≡ 0 → Copy s t (suc n) m (update (update m s (m t)) (s + 1) 0) 0
copy_end s t n m e =
    let m1 = update m s (m t) in
    let s_is : s + 0 ≡ s = omega arith in
    let t_is : t + 0 ≡ t = omega arith in
    record {
      fits = omega arith;
      ended =
          ap (update m1 (s + 1) 0) s_is
          ∙ update-other m1 (s + 1) s 0 (λ h. omega (arith, h))
          ∙ update-here m s (m t)
          ∙ e;
      same = λ j low. absurd (omega (arith, low));
      no_zero = λ j low. absurd (omega (arith, low));
      whole = inl (ap m t_is ∙ e);
      kept = λ x h.
          let (a, b) = outside_ne s n x h in
          update-other m1 (s + 1) x 0 b ∙ update-other m s x (m t) a;
    }

out_one : (s x : ℕ) → (x < s) ⊎ (s + 0 + 1 ≤ x) → (x < s) ⊎ (s + 1 ≤ x)
out_one s x h = elim h [ inl low ↦ inl low | inr high ↦ inr (omega (arith, high)) ]

two-Apart : (s t n : ℕ) → Apart s t (suc n + 1) → Apart s t (n + 2)
two-Apart s t n h = elim h [
  | inl low ↦ inl (omega (arith, low))
  | inr high ↦ inr (omega (arith, high))
]

module _ (s t n : ℕ) (m r : Memory) (k : ℕ) (a : Apart s t (n + 2)) (ne : m t ≢ 0)
    (c : Copy (s + 1) (t + 1) n (update m s (m t)) r k) where
  shift : (a j : ℕ) → a + suc j ≡ a + 1 + j
  shift a j = omega arith

  read : (j : ℕ) → j ≤ n → update m s (m t) (t + 1 + j) ≡ m (t + 1 + j)
  read j l = update-other m s (t + 1 + j) (m t) (Apart-ne s t n j a l)

  more_same : (j : ℕ) → j < suc k → r (s + j) ≡ m (t + j)
  more_same zero low =
      let s_is : s + 0 ≡ s = omega arith in
      let t_is : t + 0 ≡ t = omega arith in
      ap r s_is ∙ c.kept s (inl (omega arith)) ∙ update-here m s (m t) ∙ ap m (sym t_is)
  more_same (suc j) low =
      ap r (shift s j)
      ∙ c.same j (omega (arith, low))
      ∙ read j (omega (arith, low, c.fits))
      ∙ ap m (sym (shift t j))

  more_no_zero : (j : ℕ) → j < suc k → m (t + j) ≢ 0
  more_no_zero zero low e = let t_is : t + 0 ≡ t = omega arith in ne (ap m (sym t_is) ∙ e)
  more_no_zero (suc j) low e =
      c.no_zero j (omega (arith, low))
        (read j (omega (arith, low, c.fits)) ∙ ap m (sym (shift t j)) ∙ e)

  -- A byte that is not zero is copied, and the rest behind it.
  copy_more : Copy s t (suc n) m r (suc k)
  copy_more = record {
    fits = omega (arith, c.fits);
    ended = ap r (shift s k) ∙ c.ended;
    same = more_same;
    no_zero = more_no_zero;
    whole = elim c.whole [
      | inl z ↦ inl (ap m (shift t k) ∙ sym (read k c.fits) ∙ z)
      | inr z ↦ inr (ap suc z)
    ];
    kept = λ x h. c.kept x (outside_next s n x h) ∙ update-other m s x (m t) (outside_ne s n x h).0;
  }

safe_loop_lem :
    (left s t : ℕ) (m : Memory)
    → Apart s t (left + 1)
    → (k : ℕ) × Copy s t left m (safe_loop left s t m) k
unfolding safe_loop
safe_loop_lem zero s t m a =
    let s_is : s + 0 ≡ s = omega arith in
    (
      0,
      record {
        fits = omega arith;
        ended = ap (update m s 0) s_is ∙ update-here m s 0;
        same = λ j low. absurd (omega (arith, low));
        no_zero = λ j low. absurd (omega (arith, low));
        whole = inr refl;
        kept = λ x h. update-other m s x 0 (out_ne s 0 x (out_one s x h));
      },
    )
safe_loop_lem (suc left) s t m a = elim (Bool-cases (m t == 0)) [
  | inl e ↦ rw e (0, copy_end s t left m ((==_iff (m t) 0).0 e))
  | inr e ↦
      let a2 = two-Apart s t left a in
      let (k, c) = safe_loop_lem left (s + 1) (t + 1) (update m s (m t)) (next-Apart s t left a2) in
      rw e (suc k, copy_more s t left m _ k a2 (λ z. ground (arith, e, z)) c)
]

-- For a size that is positive, and regions that do not meet: safestrcpy copies the source up to its zero
-- byte, or as many bytes as leave room for one, ends the copy with a zero byte, and changes nothing
-- outside the region.
pub safestrcpy_lem :
    (s t n : ℕ) (m : Memory)
    → Apart s t (n + 1)
    → (k : ℕ) × Copy s t n m (safestrcpy s t (pos (suc n)) m) k
unfolding safestrcpy
safestrcpy_lem s t n m a = safe_loop_lem n s t m a

strlen_loop_lem :
    (fuel i s k : ℕ) (m : Memory)
    → i ≤ k
    → k < i + fuel
    → m (s + k) ≡ 0
    → ((j : ℕ) → j < k → m (s + j) ≢ 0)
    → strlen_loop fuel i s m ≡ some k
unfolding strlen_loop
strlen_loop_lem zero i s k m low high e h = absurd (omega (arith, low, high))
strlen_loop_lem (suc fuel) i s k m low high e h = elim (Bool-cases (i == k)) [
  | inl same ↦
      let i_is : i ≡ k = (==_iff i k).0 same in
      let z : (m (s + i) == 0) ≡ true = (==_iff (m (s + i)) 0).1 (ap (λ x. m (s + x)) i_is ∙ e) in
      rw z (ap some i_is)
  | inr other ↦
      let below : i < k = ground (arith, other, low) in
      let z : (m (s + i) == 0) ≡ false = ground (arith, h i below) in
      rw z (strlen_loop_lem fuel (i + 1) s k m (omega (arith, below)) (omega (arith, high)) e h)
]

-- strlen ends on what safestrcpy left, within the size that was given, and its result is where the copy
-- ends: where the source does, or one byte before the end of the region.
pub strlen-safestrcpy :
    (s t n : ℕ) (m : Memory)
    → Apart s t (n + 1)
    → (k : ℕ) × (strlen (suc n) s (safestrcpy s t (pos (suc n)) m) ≡ some k)
      × (k ≤ n)
      × ((strlen (suc n) t m ≡ some k) ⊎ (k ≡ n))
unfolding strlen
strlen-safestrcpy s t n m a =
    let (k, c) = safestrcpy_lem s t n m a in
    let r = safestrcpy s t (pos (suc n)) m in
    (
      k,
      strlen_loop_lem (suc n) 0 s k r (omega arith) (omega (arith, c.fits)) c.ended
          (λ j low e. c.no_zero j low (sym (c.same j low) ∙ e)),
      c.fits,
      elim c.whole [
        | inl z ↦
            inl (strlen_loop_lem (suc n) 0 t k m (omega arith) (omega (arith, c.fits)) z c.no_zero)
        | inr z ↦ inr z
      ],
    )
