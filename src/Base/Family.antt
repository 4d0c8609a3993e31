-- ===== src/Base/Family.antt =====
-- Arrays and per-process data as functions of the index, and scans over an array.
use Prim.Native.Nat.{ℕ, zero, suc, ◌+◌, ◌≤◌, ◌<◌}
use mathlib.Core.Path.{◌≡◌, refl}
use mathlib.Core.Bool.{Bool, true, false}
use mathlib.Core.Option.{Option, none, some}
use mathlib.Core.Logic.{◌≢◌, inl, inr}
use native.Mathlib.Omega.{arith}
use ncsc210_g.Base.Tests.{◌==◌, if◌then◌else◌, Bool-cases}

abbrev pub update {ℓ} : {A : Type ℓ} → (ℕ → A) → ℕ → A → ℕ → A
update f i a j = if i == j then a else f j

-- `for(i = from; i < from + left; i++) if(test(i)) …`: the first index that passes.
unfoldable pub find_from : (test : ℕ → Bool) (left i : ℕ) → Option ℕ
find_from test zero i = none
find_from test (suc left) i =
    let next = find_from test left (i + 1) in if test i then some i else next

-- An index that is found lies in the range, passes, and none before it does.
pub find_from-some :
    (test : ℕ → Bool) (left i n : ℕ)
    → find_from test left i ≡ some n
    → (i ≤ n) × (n < i + left) × (test n ≡ true) × ((j : ℕ) → i ≤ j → j < n → test j ≡ false)
unfolding find_from
find_from-some test zero i n h = cc
find_from-some test (suc left) i n h = elim (Bool-cases (test i)) [
  | inl hit ↦
      let e : i ≡ n = ground (arith, hit) in
      (omega arith, omega arith, ground (arith, hit, e), λ j low high. absurd (omega arith))
  | inr miss ↦
      let (low, high, hit, before) = find_from-some test left (i + 1) n (ground (arith, miss)) in
      (
        omega arith,
        omega arith,
        hit,
        λ j a b. elim (Bool-cases (i == j)) [
          | inl e ↦ ground (arith, miss, e)
          | inr e ↦ before j (ground (arith, e)) b
        ],
      )
]

-- If none is found, none of the range passes.
pub find_from-none :
    (test : ℕ → Bool) (left i : ℕ)
    → find_from test left i ≡ none
    → (j : ℕ) → i ≤ j
    → j < i + left
    → test j ≡ false
unfolding find_from
find_from-none test zero i h j a b = absurd (omega arith)
find_from-none test (suc left) i h j a b = elim (Bool-cases (test i)) [
  | inl hit ↦ absurd (ground (arith, hit))
  | inr miss ↦ elim (Bool-cases (i == j)) [
    | inl e ↦ ground (arith, miss, e)
    | inr e ↦
        find_from-none test left (i + 1) (ground (arith, miss)) j (ground (arith, e)) (omega arith)
  ]
]

-- How many of the indices below `n` pass.
unfoldable pub count_below : (test : ℕ → Bool) (n : ℕ) → ℕ
count_below test zero = 0
count_below test (suc n) = count_below test n + (if test n then 1 else 0)

pub count_below-cong :
    (f g : ℕ → Bool) (n : ℕ) → ((i : ℕ) → i < n → f i ≡ g i) → count_below f n ≡ count_below g n
unfolding count_below
count_below-cong f g zero h = refl
count_below-cong f g (suc n) h =
    ground (arith, count_below-cong f g n (λ i low. h i (omega arith)), h n (omega arith))

-- Two tests that agree everywhere but at one index.
pub count_below-change :
    (f g : ℕ → Bool) (n k : ℕ)
    → k < n
    → ((i : ℕ) → i ≢ k → f i ≡ g i)
    → count_below f n + (if g k then 1 else 0) ≡ count_below g n + (if f k then 1 else 0)
unfolding count_below
count_below-change f g zero k low h = absurd (omega arith)
count_below-change f g (suc n) k low h = elim (Bool-cases (n == k)) [
  | inl e ↦
      ground
        (arith, e, count_below-cong f g n (λ i below. h i (λ same. ground (arith, e, same, below))))
  | inr e ↦ ground (
    arith,
    count_below-change f g n k (ground (arith, e)) h,
    h n (λ same. ground (arith, e, same)),
  )
]

pub count_below-le : (f : ℕ → Bool) (n : ℕ) → count_below f n ≤ n
unfolding count_below
count_below-le f zero = omega arith
count_below-le f (suc n) = ground (arith, count_below-le f n)

pub count_below-zero :
    (f : ℕ → Bool) (n : ℕ) → ((i : ℕ) → i < n → f i ≡ false) → count_below f n ≡ 0
unfolding count_below
count_below-zero f zero h = refl
count_below-zero f (suc n) h =
    ground (arith, count_below-zero f n (λ i low. h i (omega arith)), h n (omega arith))

-- With room left an index fails the test.
pub count_below-full : (f : ℕ → Bool) (n : ℕ) → ((i : ℕ) → i < n → f i ≡ true) → count_below f n ≡ n
unfolding count_below
count_below-full f zero h = refl
count_below-full f (suc n) h =
    ground (arith, count_below-full f n (λ i low. h i (omega arith)), h n (omega arith))

-- Where none is counted, none passes.
pub count_below-none : (f : ℕ → Bool) (n i : ℕ) → count_below f n ≡ 0 → i < n → f i ≡ false
unfolding count_below
count_below-none f zero i h low = absurd (omega arith)
count_below-none f (suc n) i h low = elim (Bool-cases (n == i)) [
  | inl e ↦ ground (arith, e, h)
  | inr e ↦ count_below-none f n i (ground (arith, h)) (ground (arith, e))
]
