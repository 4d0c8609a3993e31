-- ===== src/Kernel/Strings/Moves.antt =====
-- memmove of string.c, where the regions overlap too.
use ncsc210_g.Base.{
  ℕ, zero, suc, ◌+◌, ◌-◌, ◌≤◌, ◌<◌, ◌≡◌, refl, sym, ap, subst, ◌∙◌, ◌≢◌, ◌⊎◌, inl, inr, true, false,
  ◌&&◌, arith, ltb, leb, ◌==◌, if◌then◌else◌, ==_iff, Bool-cases, update,
}
use ncsc210_g.Kernel.Strings.{Memory, move_up, move_down, memmove}

-- Memory after the `n` bytes at `src` have been copied to `dst` at one go.
abbrev pub copied : (dst src n : ℕ) → Memory → Memory
copied dst src n m x = if leb dst x && ltb x (dst + n) then m (src + (x - dst)) else m x

-- The bytes that are still to be read have not been written.
abbrev Below : (d s n : ℕ) → Type 0
Below d s n = (d ≤ s) ⊎ (s + n ≤ d)

pub update-here : (m : Memory) (a v : ℕ) → update m a v a ≡ v
update-here m a v = let e : (a == a) ≡ true = ground arith in rw e refl

pub update-other : (m : Memory) (a x v : ℕ) → a ≢ x → update m a v x ≡ m x
update-other m a x v h = let e : (a == x) ≡ false = ground arith in rw e refl

copied-in :
    (dst src n : ℕ) (m : Memory) (x : ℕ)
    → dst ≤ x
    → x < dst + n
    → copied dst src n m x ≡ m (src + (x - dst))
copied-in dst src n m x low high =
    let e : (leb dst x && ltb x (dst + n)) ≡ true = ground arith in rw e refl

copied-out :
    (dst src n : ℕ) (m : Memory) (x : ℕ) → (x < dst) ⊎ (dst + n ≤ x) → copied dst src n m x ≡ m x
copied-out dst src n m x h =
    let e : (leb dst x && ltb x (dst + n)) ≡ false = elim h [
      | inl low ↦ ground (arith, low)
      | inr high ↦ ground (arith, high)
    ] in
    rw e refl

-- Where an address stands in a region: at its first byte, further up, or outside.
place_up : (d n x : ℕ) → (x ≡ d) ⊎ ((d + 1 ≤ x) × (x < d + 1 + n)) ⊎ ((x < d) ⊎ (d + suc n ≤ x))
place_up d n x = elim (Bool-cases (d == x)) [
  | inl e ↦ inl (sym ((==_iff d x).0 e))
  | inr e ↦ inr (elim (Bool-cases (ltb x d)) [
    | inl low ↦ inr (inl (ground (arith, low)))
    | inr high ↦ elim (Bool-cases (ltb x (d + suc n))) [
      | inl inside ↦ inl (ground (arith, e, high), ground (arith, inside))
      | inr above ↦ inr (inr (ground (arith, above)))
    ]
  ])
]

below_or_above : (d x : ℕ) → (x < d) ⊎ (d + 0 ≤ x)
below_or_above d x = elim (Bool-cases (ltb x d)) [
  | inl low ↦ inl (ground (arith, low))
  | inr high ↦ inr (ground (arith, high))
]

next-Below : (d s n : ℕ) → Below d s (suc n) → Below (d + 1) (s + 1) n
next-Below d s n h = elim h [
  | inl low ↦ inl (omega (arith, low))
  | inr high ↦ inr (omega (arith, high))
]

not_written :
    (d s n x : ℕ) → Below d s (suc n) → d + 1 ≤ x → x < d + 1 + n → d ≢ s + 1 + (x - (d + 1))
not_written d s n x h low high e = elim h [
  | inl below ↦ omega (arith, below, low, e)
  | inr above ↦ omega (arith, above, low, high, e)
]

out_next : (d n x : ℕ) → (x < d) ⊎ (d + suc n ≤ x) → (x < d + 1) ⊎ (d + 1 + n ≤ x)
out_next d n x h = elim h [
  | inl low ↦ inl (omega (arith, low))
  | inr high ↦ inr (omega (arith, high))
]

pub out_ne : (d n x : ℕ) → (x < d) ⊎ (d + suc n ≤ x) → d ≢ x
out_ne d n x h e = elim h [ inl low ↦ omega (arith, low, e) | inr high ↦ omega (arith, high, e) ]

move_up_lem : (n d s : ℕ) (m : Memory) (x : ℕ) → Below d s n → move_up n d s m x ≡ copied d s n m x
unfolding move_up
move_up_lem zero d s m x h = sym (copied-out d s 0 m x (below_or_above d x))
move_up_lem (suc n) d s m x h =
    let m1 = update m d (m s) in
    let ih = move_up_lem n (d + 1) (s + 1) m1 x (next-Below d s n h) in
    elim (place_up d n x) [
      | inl e ↦
          ih
          ∙ copied-out (d + 1) (s + 1) n m1 x (inl (omega (arith, e)))
          ∙ subst (λ y. m1 y ≡ m s) (sym e) (update-here m d (m s))
          ∙ ap m (omega (arith, e))
          ∙ sym (copied-in d s (suc n) m x (omega (arith, e)) (omega (arith, e)))
      | inr (inl (low, high)) ↦
          ih
          ∙ copied-in (d + 1) (s + 1) n m1 x low high
          ∙ update-other m d (s + 1 + (x - (d + 1))) (m s) (not_written d s n x h low high)
          ∙ ap m (omega (arith, low))
          ∙ sym (copied-in d s (suc n) m x (omega (arith, low)) (omega (arith, high)))
      | inr (inr out) ↦
          ih
          ∙ copied-out (d + 1) (s + 1) n m1 x (out_next d n x out)
          ∙ update-other m d x (m s) (out_ne d n x out)
          ∙ sym (copied-out d s (suc n) m x out)
    ]

-- At the last byte of a region, further down, or outside.
place_down : (d n x : ℕ) → (x ≡ d + n) ⊎ ((d ≤ x) × (x < d + n)) ⊎ ((x < d) ⊎ (d + suc n ≤ x))
place_down d n x = elim (Bool-cases (d + n == x)) [
  | inl e ↦ inl (sym ((==_iff (d + n) x).0 e))
  | inr e ↦ inr (elim (Bool-cases (ltb x d)) [
    | inl low ↦ inr (inl (ground (arith, low)))
    | inr high ↦ elim (Bool-cases (ltb x (d + n))) [
      | inl inside ↦ inl (ground (arith, high), ground (arith, inside))
      | inr above ↦ inr (inr (ground (arith, above, e)))
    ]
  ])
]

out_last : (d n x : ℕ) → (x < d) ⊎ (d + suc n ≤ x) → d + n ≢ x
out_last d n x h e = elim h [ inl low ↦ omega (arith, low, e) | inr high ↦ omega (arith, high, e) ]

out_less : (d n x : ℕ) → (x < d) ⊎ (d + suc n ≤ x) → (x < d) ⊎ (d + n ≤ x)
out_less d n x h = elim h [ inl low ↦ inl low | inr high ↦ inr (omega (arith, high)) ]

move_down_lem :
    (n d s : ℕ) (m : Memory) (x : ℕ) → s < d → move_down n (d + n) (s + n) m x ≡ copied d s n m x
unfolding move_down
move_down_lem zero d s m x h = sym (copied-out d s 0 m x (below_or_above d x))
move_down_lem (suc n) d s m x h =
    let d_is : d + suc n - 1 ≡ d + n = omega arith in
    let s_is : s + suc n - 1 ≡ s + n = omega arith in
    let m1 = update m (d + n) (m (s + n)) in
    let ih = move_down_lem n d s m1 x h in
    let found : copied d s n m1 x ≡ copied d s (suc n) m x = elim (place_down d n x) [
      | inl e ↦
          copied-out d s n m1 x (inr (omega (arith, e)))
          ∙ subst (λ y. m1 y ≡ m (s + n)) (sym e) (update-here m (d + n) (m (s + n)))
          ∙ ap m (omega (arith, e))
          ∙ sym (copied-in d s (suc n) m x (omega (arith, e)) (omega (arith, e)))
      | inr (inl (low, high)) ↦
          copied-in d s n m1 x low high
          ∙ update-other m (d + n) (s + (x - d)) (m (s + n)) (λ e. omega (arith, e, low, high, h))
          ∙ sym (copied-in d s (suc n) m x low (omega (arith, high)))
      | inr (inr out) ↦
          copied-out d s n m1 x (out_less d n x out)
          ∙ update-other m (d + n) x (m (s + n)) (out_last d n x out)
          ∙ sym (copied-out d s (suc n) m x out)
    ] in
    rw (d_is, s_is) (ih ∙ found)

up_is : (dst src n : ℕ) → (ltb src dst && ltb dst (src + n)) ≡ false → Below dst src n
up_is dst src n h = elim (Bool-cases (ltb src dst)) [
  | inl e ↦ inr (ground (arith, h, e))
  | inr e ↦ inl (ground (arith, e))
]

-- memmove copies as if it read all the bytes before it wrote the first, however the two regions overlap,
-- and changes nothing else.
pub memmove_lem :
    (dst src n : ℕ) (m : Memory) (x : ℕ) → memmove dst src n m x ≡ copied dst src n m x
unfolding memmove
memmove_lem dst src n m x = elim (Bool-cases (n == 0)) [
  | inl e ↦
      let none_is : n ≡ 0 = (==_iff n 0).0 e in
      rw (none_is) (sym (copied-out dst src 0 m x (below_or_above dst x)))
  | inr e ↦ elim (Bool-cases (ltb src dst && ltb dst (src + n))) [
    | inl down ↦ rw (e, down) (move_down_lem n dst src m x (ground (arith, down)))
    | inr up ↦ rw (e, up) (move_up_lem n dst src m x (up_is dst src n up))
  ]
]
