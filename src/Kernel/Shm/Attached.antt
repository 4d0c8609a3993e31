-- ===== src/Kernel/Shm/Attached.antt =====
-- The reference counts of the shared memory segments, through every call.
use ncsc210_g.Base.{
  ℕ, ◌+◌, ◌<◌, ◌≡◌, refl, sym, ap, subst, ◌∙◌, ◌≢◌, ◌⊎◌, inl, inr, Bool, true, false, not, Option,
  none, List, [], arith, ◌==◌, if◌then◌else◌, ==_iff, Bool-cases, pos, update, count_below,
  count_below-cong, count_below-change, count_below-zero, count_below-none,
}
use ncsc210_g.Kernel.Shm.{nproc, Shmseg, Memory}

abbrev pub attached : Memory → (n p : ℕ) → Bool
attached m n p = not (m.shm_va p n == 0)

-- Each segment counts the processes that are attached to it, and no process is attached to a slot
-- that is not in use.
pub record Inv (m : Memory) : Type 0 where
  pub counted : (n : ℕ) → (m.shmtable n).refcount ≡ count_below (attached m n) nproc
  pub backed : (n p : ℕ) → p < nproc → attached m n p ≡ true → (m.shmtable n).used ≡ true

-- At boot every slot is zero, and no process is attached.
abbrev pub boot : (freelist : List ℕ) → Memory
boot free = record {
  shmtable = λ n. record { used = false; key = pos 0; size = 0; npages = 0; pa = []; refcount = 0 };
  freelist = free;
  shm_va = λ p n. 0;
  pagetable = λ p va. none;
}

pub boot-Inv : (free : List ℕ) → Inv (boot free)
boot-Inv free = record {
  counted = λ n. sym (count_below-zero (attached (boot free) n) nproc (λ i low. refl));
  backed = λ n p low h. cc;
}

-- Nobody is attached to an unused slot.
unused_count :
    (m : Memory) (n : ℕ)
    → Inv m
    → (m.shmtable n).used ≡ false
    → count_below (attached m n) nproc ≡ 0
unused_count m n v h = count_below-zero (attached m n) nproc (λ p low.
    elim (Bool-cases (attached m n p)) [
      | inl e ↦ absurd (ground (arith, h, v.backed n p low e))
      | inr e ↦ e
    ])

-- A slot that is not in use may be written, with a count of zero.
pub write_unused-Inv :
    (m : Memory) (i : ℕ) (seg : Shmseg) (free : List ℕ)
    → Inv m
    → (m.shmtable i).used ≡ false
    → seg.refcount ≡ 0
    → Inv (record m { shmtable = update m.shmtable i seg; freelist = free })
write_unused-Inv m i seg free v h z = record {
  counted = λ n. elim (Bool-cases (i == n)) [
    | inl e ↦
        let h' : (m.shmtable n).used ≡ false =
          subst (λ k. (m.shmtable k).used ≡ false) ((==_iff i n).0 e) h in
        rw e (z ∙ sym (unused_count m n v h'))
    | inr e ↦ rw e (v.counted n)
  ];
  backed = λ n p low a. elim (Bool-cases (i == n)) [
    | inl e ↦
        let h' : (m.shmtable n).used ≡ false =
          subst (λ k. (m.shmtable k).used ≡ false) ((==_iff i n).0 e) h in
        absurd (ground (arith, h', v.backed n p low a))
    | inr e ↦ rw e (v.backed n p low a)
  ];
}

-- shm_va when process `p` gets address `a` for segment `n`.
abbrev set_va : Memory → (p n a : ℕ) → ℕ → ℕ → ℕ
set_va m p n a = update m.shm_va p (update (m.shm_va p) n a)

set_va-other_segment :
    (m : Memory) (p n a k q : ℕ) → (n == k) ≡ false → not (set_va m p n a q k == 0) ≡ attached m k q
set_va-other_segment m p n a k q h = elim (Bool-cases (p == q)) [
  | inl e ↦ rw (e, h) (ap (λ x. not (m.shm_va x k == 0)) ((==_iff p q).0 e))
  | inr e ↦ rw e refl
]

set_va-other_process :
    (m : Memory) (p n a k q : ℕ) → q ≢ p → not (set_va m p n a q k == 0) ≡ attached m k q
set_va-other_process m p n a k q h = elim (Bool-cases (p == q)) [
  | inl e ↦ absurd (h (sym ((==_iff p q).0 e)))
  | inr e ↦ rw e refl
]

set_va-here : (m : Memory) (p n a : ℕ) → not (set_va m p n a p n == 0) ≡ not (a == 0)
set_va-here m p n a =
    let e : (p == p) ≡ true = ground arith in
    let f : (n == n) ≡ true = ground arith in rw (e, f) refl

-- How the count of a segment changes.
count_change :
    (m : Memory) (p n a : ℕ)
    → p < nproc
    → count_below (λ q. not (set_va m p n a q n == 0)) nproc + (if attached m n p then 1 else 0)
      ≡ count_below (attached m n) nproc + (if not (a == 0) then 1 else 0)
count_change m p n a low =
    let changed =
      count_below-change (λ q. not (set_va m p n a q n == 0)) (attached m n) nproc p low
        (λ q differ. set_va-other_process m p n a n q differ) in
    rw (set_va-here m p n a) at changed

-- A process attaches.
pub attach-Inv :
    (m : Memory) (p n a : ℕ) (pt : ℕ → ℕ → Option ℕ)
    → Inv m
    → p < nproc
    → 0 < a
    → (m.shmtable n).used ≡ true
    → attached m n p ≡ false
    → Inv (record m {
      shmtable =
          update m.shmtable n (record (m.shmtable n) { refcount = (m.shmtable n).refcount + 1 });
      shm_va = set_va m p n a;
      pagetable = pt;
    })
attach-Inv m p n a pt v low high u free = record {
  counted = λ k. elim (Bool-cases (n == k)) [
    | inl e ↦
        let change = count_change m p n a low in
        let now : (m.shmtable n).refcount + 1
            ≡ count_below (λ q. not (set_va m p n a q n == 0)) nproc =
          ground (arith, change, v.counted n, free, high) in
        rw e (
          subst
            (λ j.
              (m.shmtable n).refcount + 1 ≡ count_below (λ q. not (set_va m p n a q j == 0)) nproc)
            ((==_iff n k).0 e) now)
    | inr e ↦ rw e (
        v.counted k
        ∙ sym (
            count_below-cong (λ q. not (set_va m p n a q k == 0)) (attached m k) nproc
              (λ q below. set_va-other_segment m p n a k q e)))
  ];
  backed = λ k q below h. elim (Bool-cases (n == k)) [
    | inl e ↦ rw e u
    | inr e ↦ rw e (v.backed k q below (sym (set_va-other_segment m p n a k q e) ∙ h))
  ];
}

-- A process detaches, and the segment is `seg` then.
pub detach_to-Inv :
    (m : Memory) (p n : ℕ) (seg : Shmseg) (free : List ℕ) (pt : ℕ → ℕ → Option ℕ)
    → Inv m
    → p < nproc
    → (m.shmtable n).used ≡ true
    → attached m n p ≡ true
    → seg.refcount + 1 ≡ (m.shmtable n).refcount
    → (seg.used ≡ true) ⊎ (seg.refcount ≡ 0)
    → Inv (record {
      shmtable = update m.shmtable n seg;
      freelist = free;
      shm_va = set_va m p n 0;
      pagetable = pt;
    })
detach_to-Inv m p n seg free pt v low u here less kept =
    let change = count_change m p n 0 low in
    let now : seg.refcount ≡ count_below (λ q. not (set_va m p n 0 q n == 0)) nproc =
      ground (arith, change, v.counted n, here, less) in
    record {
      counted = λ k. elim (Bool-cases (n == k)) [
        | inl e ↦ rw e (
            subst (λ j. seg.refcount ≡ count_below (λ q. not (set_va m p n 0 q j == 0)) nproc)
              ((==_iff n k).0 e) now)
        | inr e ↦ rw e (
            v.counted k
            ∙ sym (
                count_below-cong (λ q. not (set_va m p n 0 q k == 0)) (attached m k) nproc
                  (λ q below. set_va-other_segment m p n 0 k q e)))
      ];
      backed = λ k q below h. elim (Bool-cases (n == k)) [
        | inl e ↦ elim kept [
          | inl used ↦ rw e used
          | inr zeroed ↦
              let none_left =
                count_below-none (λ q. not (set_va m p n 0 q n == 0)) nproc q (sym now ∙ zeroed)
                  below in
              let clash =
                subst (λ j. not (set_va m p n 0 q j == 0) ≡ false) ((==_iff n k).0 e) none_left in
              absurd (ground (arith, clash, h))
        ]
        | inr e ↦ rw e (v.backed k q below (sym (set_va-other_segment m p n 0 k q e) ∙ h))
      ];
    }
