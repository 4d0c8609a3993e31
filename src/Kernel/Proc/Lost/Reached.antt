-- ===== src/Kernel/Proc/Lost/Reached.antt =====
-- What holds in every state that the processes reach.
use ncsc210_g.Base.{
  ℕ, zero, suc, ◌<◌, ◌≡◌, refl, sym, ap, ◌∙◌, ◌≢◌, ◌⊎◌, inl, inr, true, false, none, some, arith,
  ◌==◌, pos, find_from,
}
use ncsc210_g.Kernel.Shm.{nproc}
use ncsc210_g.Kernel.Proc.{runnable, zombie, Procs, freed}
use ncsc210_g.Kernel.Proc.Consistent.{exists_at, is_alive, Consistent}
use ncsc210_g.Kernel.Proc.Exits.{asleep_at}
use ncsc210_g.Kernel.Proc.System.{System, userinit, boot, Reach, start, next}
use ncsc210_g.Kernel.Proc.Lost.{waits_for}
use ncsc210_g.Kernel.Proc.Lost.Gentle.{InOrder}
use ncsc210_g.Kernel.Proc.Lost.Steps.{step-InOrder}

-- After userinit: the first process, and no other.
boot_cases :
    (i : ℕ)
    → ((0 ≡ i) × (boot.procs.proc i ≡ record freed { pid = pos 1; state = runnable }))
      ⊎ ((0 ≢ i) × (boot.procs.proc i ≡ freed))
unfolding userinit find_from
boot_cases zero = inl (refl, refl)
boot_cases (suc i) =
    let e : (0 == suc i) ≡ false = ground arith in inr ((λ h. omega arith), rw e refl)

boot_counts : (boot.procs.nextpid ≡ 2) × (boot.procs.initproc ≡ 0)
unfolding userinit find_from
boot_counts = (refl, refl)

freed-no-pid : (k : Procs) (i : ℕ) → k.proc i ≡ freed → exists_at k i ≢ true
freed-no-pid k i e h = ground (arith, e, h)

no_parent : (i q : ℕ) → (boot.procs.proc i).parent ≢ some q
no_parent i q e = elim (boot_cases i) [
  | inl (s, f) ↦ let clash : none ≡ some q = sym (ap (λ p. p.parent) f) ∙ e in absurd (cc)
  | inr (n, f) ↦ let clash : none ≡ some q = sym (ap (λ p. p.parent) f) ∙ e in absurd (cc)
]

first_lives : is_alive boot.procs 0 ≡ true
unfolding userinit find_from
first_lives = refl

boot-Consistent : Consistent boot.procs
boot-Consistent =
    let (next_is, init_is) = boot_counts in
    record {
      pids_below = λ i low e. elim (boot_cases i) [
        | inl (s, f) ↦ (1, ap (λ p. p.pid) f, omega arith, omega (arith, next_is))
        | inr (n, f) ↦ absurd (freed-no-pid boot.procs i f e)
      ];
      pids_differ = λ i j a b e s. elim (boot_cases i) [
        | inl (t, f) ↦ elim (boot_cases j) [
          | inl (u, g) ↦ sym t ∙ u
          | inr (n, g) ↦
              let clash : pos 1 ≡ pos 0 = sym (ap (λ p. p.pid) f) ∙ s ∙ ap (λ p. p.pid) g in
              absurd (ground (arith, clash))
        ]
        | inr (n, f) ↦ absurd (freed-no-pid boot.procs i f e)
      ];
      slots_clear = λ i low e. elim (boot_cases i) [
        | inl (s, f) ↦ absurd (ground (arith, f, e))
        | inr (n, f) ↦ (ap (λ p. p.pid) f, ap (λ p. p.parent) f)
      ];
      parents_live = λ i q low e. absurd (no_parent i q e);
      orphans_none = λ i low e n. elim (boot_cases i) [
        | inl (s, f) ↦ absurd (n (sym s ∙ sym init_is))
        | inr (m, f) ↦ absurd (freed-no-pid boot.procs i f e)
      ];
      init_lives = rw init_is (omega arith, first_lives);
    }

boot-InOrder : InOrder boot
boot-InOrder = record {
  consistent = boot-Consistent;
  none_lost = λ i q low z f e. absurd (no_parent i q f);
}

reached : {s : System} → Reach s → InOrder s
reached start = boot-InOrder
reached (next r st) = step-InOrder st (reached r)

-- In every state that the processes reach, the process table is in order: the processes that exist
-- have different pids, all of them positive and below nextpid; a free slot has the pid 0 and no parent;
-- the parent of a process exists and is no zombie; only the first process has none, and it has not
-- exited.
pub Reach-Consistent : (s : System) → Reach s → Consistent s.procs
Reach-Consistent s r = (reached r).consistent

-- No wakeup is lost: in every state that the processes reach, a process that sleeps in kwait or
-- kwaitpid does not wait for a child that has exited.
pub no_lost_wakeup :
    (s : System) (i q : ℕ)
    → Reach s
    → i < nproc
    → (s.procs.proc i).state ≡ zombie
    → (s.procs.proc i).parent ≡ some q
    → asleep_at s.procs q q ≡ true
    → waits_for (s.call q) (s.procs.proc i).pid ≡ false
no_lost_wakeup s i q r low z f e = (reached r).none_lost i q low (rw z refl) f e
