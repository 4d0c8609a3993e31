-- ===== src/Kernel/Shm/Pages.antt =====
-- The pages on the free list and in the segments, counted.

use ncsc210_g.Base.{
  ℕ, zero, suc, ◌+◌, ◌<◌, ◌≡◌, refl, sym, ap, subst, ◌≢◌, inl, inr, true, List, [], ◌∷◌, ◌++◌,
  arith, ◌==◌, if◌then◌else◌, ==_iff, Bool-cases, length, length-append, take, update,
}
use ncsc210_g.Kernel.Shm.{max_shm, Shmseg, Memory, kalloc_pages, kfree_pages}

-- How often a page is in a list.
unfoldable pub copies : ℕ → List ℕ → ℕ
copies x [] = 0
copies x (y ∷ ys) = (if x == y then 1 else 0) + copies x ys

copies-append : (x : ℕ) (xs ys : List ℕ) → copies x (xs ++ ys) ≡ copies x xs + copies x ys
unfolding copies
copies-append x [] ys = omega arith
copies-append x (y ∷ xs) ys = omega (arith, copies-append x xs ys)

-- The pages of a segment.
abbrev pub pages_of : Shmseg → List ℕ
pages_of seg = if seg.used then take seg.npages seg.pa else []

unfoldable pub sum_below : (ℕ → ℕ) → ℕ → ℕ
sum_below f zero = 0
sum_below f (suc n) = sum_below f n + f n

-- How often a page is on the free list or in a segment.
unfoldable pub holdings : ℕ → Memory → ℕ
unfolding copies sum_below
holdings x m = copies x m.freelist + sum_below (λ n. copies x (pages_of (m.shmtable n))) max_shm

sum_below-cong :
    (f g : ℕ → ℕ) (n : ℕ) → ((i : ℕ) → i < n → f i ≡ g i) → sum_below f n ≡ sum_below g n
unfolding sum_below
sum_below-cong f g zero h = refl
sum_below-cong f g (suc n) h =
    omega (arith, sum_below-cong f g n (λ i low. h i (omega arith)), h n (omega arith))

sum_below-change :
    (f g : ℕ → ℕ) (n k : ℕ)
    → k < n
    → ((i : ℕ) → i ≢ k → f i ≡ g i)
    → sum_below f n + g k ≡ sum_below g n + f k
unfolding sum_below
sum_below-change f g zero k low h = absurd (omega arith)
sum_below-change f g (suc n) k low h = elim (Bool-cases (n == k)) [
  | inl e ↦
      let same : n ≡ k = (==_iff n k).0 e in
      let before = sum_below-cong f g n (λ i below. h i (λ eq. omega (arith, same, eq, below))) in
      subst (λ j. (sum_below f n + f n) + g j ≡ (sum_below g n + g n) + f j) same
        (omega (arith, before))
  | inr e ↦
      let differ : n ≢ k = λ eq. ground (arith, e, eq) in
      omega (arith, sum_below-change f g n k (ground (arith, e, low)) h, h n differ)
]

pub kalloc_pages-copies :
    (x n : ℕ) (got free : List ℕ)
    → copies x (kalloc_pages n got free).1 + copies x (kalloc_pages n got free).2
      ≡ copies x got + copies x free
unfolding kalloc_pages copies
kalloc_pages-copies x zero got free = refl
kalloc_pages-copies x (suc n) got [] = refl
kalloc_pages-copies x (suc n) got (page ∷ free) =
    omega (arith, kalloc_pages-copies x n (got ++ page ∷ []) free, copies-append x got (page ∷ []))

pub length-kalloc_pages :
    (n : ℕ) (got free : List ℕ)
    → (kalloc_pages n got free).0 ≡ true
    → length (kalloc_pages n got free).1 ≡ n + length got
unfolding kalloc_pages
length-kalloc_pages zero got free h = omega arith
length-kalloc_pages (suc n) got [] h = cc
length-kalloc_pages (suc n) got (page ∷ free) h =
    omega (arith, length-kalloc_pages n (got ++ page ∷ []) free h, length-append got (page ∷ []))

pub kfree_pages-copies :
    (x : ℕ) (pages free : List ℕ)
    → copies x (kfree_pages pages free) ≡ copies x pages + copies x free
unfolding kfree_pages copies
kfree_pages-copies x [] free = omega arith
kfree_pages-copies x (page ∷ pages) free = omega (arith, kfree_pages-copies x pages (page ∷ free))

pub take_all : (n : ℕ) (xs : List ℕ) → length xs ≡ n → take n xs ≡ xs
take_all zero [] h = refl
take_all zero (x ∷ xs) h = absurd (omega arith)
take_all (suc n) [] h = absurd (omega arith)
take_all (suc n) (x ∷ xs) h = ap (◌∷◌ x) (take_all n xs (omega arith))

other :
    (x : ℕ) (m : Memory) (i : ℕ) (seg : Shmseg) (n : ℕ)
    → n ≢ i
    → copies x (pages_of (update m.shmtable i seg n)) ≡ copies x (pages_of (m.shmtable n))
other x m i seg n differ = elim (Bool-cases (i == n)) [
  | inl e ↦ absurd (differ (sym ((==_iff i n).0 e)))
  | inr e ↦ rw e refl
]

-- Slot `i` is written and the free list changed, so that no page is lost.
pub write-holdings :
    (x : ℕ) (m m1 : Memory) (i : ℕ) (seg : Shmseg)
    → m1.shmtable ≡ update m.shmtable i seg
    → i < max_shm
    → copies x (pages_of seg) + copies x m1.freelist
      ≡ copies x (pages_of (m.shmtable i)) + copies x m.freelist
    → holdings x m1 ≡ holdings x m
unfolding holdings
write-holdings x m m1 i seg h low balance =
    let f : ℕ → ℕ = λ n. copies x (pages_of (update m.shmtable i seg n)) in
    let g : ℕ → ℕ = λ n. copies x (pages_of (m.shmtable n)) in
    let e : (i == i) ≡ true = ground arith in
    let here : f i ≡ copies x (pages_of seg) = rw e refl in
    let change = sum_below-change f g max_shm i low (λ n differ. other x m i seg n differ) in
    let goal : copies x m1.freelist + sum_below f max_shm
        ≡ copies x m.freelist + sum_below g max_shm =
      omega (arith, change, here, balance) in
    rw h goal
