-- ===== src/Kernel/Proc/Waits/Any.antt =====
-- kwait of proc.c.
use ncsc210_g.Base.{
  ℕ, ◌<◌, ◌≡◌, refl, ◌⊎◌, inl, inr, Bool, true, false, Option, none, some, arith, Bool-cases,
  minus_one, find_from, find_from-some, find_from-none,
}
use ncsc210_g.Kernel.Shm.{nproc}
use ncsc210_g.Kernel.Proc.Waits.{
  Waited, returns, sleeps, reap, child_of, kwait_living, kwait_found, zombie_of, kwait, and_left,
  and_right,
}
use ncsc210_g.Kernel.Proc.{Procs, is_zombie, freeproc}

-- No child of `p` has exited.
abbrev pub NoZombies : Procs → (p : ℕ) → Type 0
NoZombies k p = (i : ℕ) → i < nproc → child_of k p i ≡ true → is_zombie (k.proc i).state ≡ false

-- A child of `p` that has exited.
pub record IsZombie (k : Procs) (p i : ℕ) : Type 0 where
  pub in_table : i < nproc
  pub parent_is : child_of k p i ≡ true
  pub has_exited : is_zombie (k.proc i).state ≡ true

-- What a round of kwait may come to.
abbrev pub WaitedAny : (p : ℕ) → Procs → Waited → Type 0
WaitedAny p k (returns k1 r status) =
    ((r ≡ minus_one) × (status ≡ none) × (k1 ≡ k))
    ⊎ ((i : ℕ) × IsZombie k p i
        × (r ≡ (k.proc i).pid)
        × (status ≡ some (k.proc i).xstate)
        × (k1 ≡ freeproc i k))
WaitedAny p k sleeps =
    ((i : ℕ) × (i < nproc) × (child_of k p i ≡ true)) × NoZombies k p × ((k.proc p).killed ≡ false)

reap-WaitedAny :
    (p : ℕ) (copyout : Bool) (i : ℕ) (k : Procs) → IsZombie k p i → WaitedAny p k (reap copyout i k)
unfolding reap
reap-WaitedAny p true i k z = inr (i, z, refl, refl, refl)
reap-WaitedAny p false i k z = inl (refl, refl, refl)

living-WaitedAny :
    (p : ℕ) (k : Procs) (found : Option ℕ)
    → NoZombies k p
    → find_from (child_of k p) nproc 0 ≡ found
    → WaitedAny p k (kwait_living p k found)
unfolding kwait_living
living-WaitedAny p k none n e = inl (refl, refl, refl)
living-WaitedAny p k (some i) n e =
    let (_, low, hit, _) = find_from-some (child_of k p) nproc 0 i e in
    elim (Bool-cases (k.proc p).killed) [
      | inl d ↦ rw d (inl (refl, refl, refl))
      | inr d ↦ rw d ((i, omega (arith, low), hit), n, d)
    ]

found-WaitedAny :
    (p : ℕ) (copyout : Bool) (k : Procs) (found : Option ℕ)
    → find_from (zombie_of k p) nproc 0 ≡ found
    → WaitedAny p k (kwait_found p copyout k found)
unfolding kwait_found
found-WaitedAny p copyout k none e =
    living-WaitedAny p k (find_from (child_of k p) nproc 0)
      (λ i low h.
        ground (arith, h, find_from-none (zombie_of k p) nproc 0 e i (omega arith) (omega arith)))
      refl
found-WaitedAny p copyout k (some i) e =
    let (_, low, hit, _) = find_from-some (zombie_of k p) nproc 0 i e in
    reap-WaitedAny p copyout i k (record {
      in_table = omega (arith, low);
      parent_is = and_left (child_of k p i) (is_zombie (k.proc i).state) hit;
      has_exited = and_right (child_of k p i) (is_zombie (k.proc i).state) hit;
    })

-- A round of kwait returns -1 and changes nothing, or it returns the pid and the status of a child of
-- the caller that has exited, and that child's slot is freed; it sleeps only while the caller has
-- children, none of them has exited, and it is not killed.
pub kwait_lem : (p : ℕ) (copyout : Bool) (k : Procs) → WaitedAny p k (kwait p copyout k)
unfolding kwait
kwait_lem p copyout k = found-WaitedAny p copyout k (find_from (zombie_of k p) nproc 0) refl
