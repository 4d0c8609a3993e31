-- ===== src/Kernel/Msg/Keys.antt =====
-- msgget: a key names one queue.
use ncsc210_g.Base.{
  ℕ, ◌<◌, ◌≡◌, sym, ap, ◌∙◌, ◌≢◌, ◌⊎◌, inl, inr, true, false, not, ◌&&◌, arith, ◌==◌, Bool-cases,
  Option-cases, ℤ, pos, minus_one, ◌==ℤ◌, ==ℤ_iff, update, find_from, find_from-some,
  find_from-none,
}
use ncsc210_g.Kernel.Msg.{max_q, Queues, sys_msgget}

-- No two queues in use have one key.
abbrev pub Unique : Queues → Type 0
Unique qs =
    (i j : ℕ)
    → i < max_q
    → j < max_q
    → (qs i).used ≡ true
    → (qs j).used ≡ true
    → (qs i).key ≡ (qs j).key
    → i ≡ j

-- msgget of a key that a queue in use has gives that queue and changes nothing. Of a new key it
-- takes the first queue that is not in use, gives it the key and leaves the others alone; it fails
-- exactly if the key is new and all queues are in use.
pub msgget_cases :
    (qs : Queues) (key : ℤ)
    → ((n : ℕ) × (n < max_q)
        × ((qs n).used ≡ true)
        × ((qs n).key ≡ key)
        × (sys_msgget qs key ≡ (qs, pos n)))
      ⊎ (((j : ℕ) → j < max_q → (qs j).used ≡ true → (qs j).key ≢ key)
          × (((n : ℕ) × (n < max_q)
                × ((qs n).used ≡ false)
                × ((j : ℕ) → j < n → (qs j).used ≡ true)
                × (sys_msgget qs key
                    ≡ (update qs n (record (qs n) { used = true; key = key; count = 0 }), pos n)))
              ⊎ (((j : ℕ) → j < max_q → (qs j).used ≡ true)
                  × (sys_msgget qs key ≡ (qs, minus_one)))))
unfolding sys_msgget
msgget_cases qs key =
    let hit = λ (i : ℕ). (qs i).used && (qs i).key ==ℤ key in
    let free = λ (i : ℕ). not (qs i).used in
    elim (Option-cases (find_from hit max_q 0)) [
      | inr (n, e) ↦
          let found = find_from-some hit max_q 0 n e in
          inl (
            n,
            omega (arith, found),
            ground (arith, found),
            ground (arith, found, ==ℤ_iff (qs n).key key),
            rw (e, sys_msgget),
          )
      | inl e ↦
          let new : (j : ℕ) → j < max_q → (qs j).used ≡ true → (qs j).key ≢ key = λ j low used same.
            ground (
              arith,
              find_from-none hit max_q 0 e j (omega arith) low,
              ==ℤ_iff (qs j).key key,
              used,
              same,
            ) in
          elim (Option-cases (find_from free max_q 0)) [
            | inr (n, f) ↦
                let (_, low, hit', before) = find_from-some free max_q 0 n f in
                inr (
                  new,
                  inl (
                    n,
                    low,
                    ground (arith, hit'),
                    λ j below. ground (arith, before j (omega arith) below),
                    rw (e, f, sys_msgget),
                  ),
                )
            | inl f ↦ inr (
              new,
              inr (
                λ j low. ground (arith, find_from-none free max_q 0 f j (omega arith) low),
                rw (e, f, sys_msgget),
              ),
            )
          ]
    ]

update-Unique :
    (qs : Queues) (n : ℕ) (key : ℤ)
    → Unique qs
    → ((j : ℕ) → j < max_q → (qs j).used ≡ true → (qs j).key ≢ key)
    → Unique (update qs n (record (qs n) { used = true; key = key; count = 0 }))
update-Unique qs n key u new i j li lj hi hj same = elim (Bool-cases (n == i)) [
  | inl a ↦ elim (Bool-cases (n == j)) [
    | inl b ↦ ground (arith, a, b)
    | inr b ↦ absurd (new j lj (ground (arith, b, hj)) (ground (arith, a, b, same)))
  ]
  | inr a ↦ elim (Bool-cases (n == j)) [
    | inl b ↦ absurd (new i li (ground (arith, a, hi)) (ground (arith, a, b, same)))
    | inr b ↦
        u i j li lj (ground (arith, a, hi)) (ground (arith, b, hj)) (ground (arith, a, b, same))
  ]
]

-- A queue in use with the key is the one that msgget finds.
find_again :
    (qs : Queues) (key : ℤ) (n : ℕ)
    → Unique qs
    → n < max_q
    → (qs n).used ≡ true
    → (qs n).key ≡ key
    → sys_msgget qs key ≡ (qs, pos n)
find_again qs key n u low used e = elim (msgget_cases qs key) [
  | inl (m, low', used', e', r) ↦
      r ∙ ap (λ (k : ℕ). (qs, pos k)) (u m n low' low used' used (e' ∙ sym e))
  | inr (new, _) ↦ absurd (new n low used e)
]

-- A key goes on naming one queue, and once a msgget of it has succeeded, another gives the same
-- queue and changes nothing.
pub msgget_stable :
    (qs : Queues) (key : ℤ) (n : ℕ)
    → Unique qs
    → (sys_msgget qs key).1 ≡ pos n
    → Unique (sys_msgget qs key).0
      × (sys_msgget (sys_msgget qs key).0 key ≡ ((sys_msgget qs key).0, pos n))
msgget_stable qs key n u h = elim (msgget_cases qs key) [
  | inl (m, low, used, e, r) ↦
      let same : m ≡ n = ground (arith, r, h) in rw r (u, rw r (ap (λ (k : ℕ). (qs, pos k)) same))
  | inr (new, inr (_, r)) ↦ absurd (ground (arith, r, h))
  | inr (new, inl (m, low, free, _, r)) ↦
      let same : m ≡ n = ground (arith, r, h) in
      let v = update-Unique qs m key u new in
      let after = update qs m (record (qs m) { used = true; key = key; count = 0 }) in
      rw r (
        v,
        find_again after key m v low (ground arith) (ground arith)
            ∙ ap (λ (k : ℕ). (after, pos k)) same,
      )
]
