-- ===== src/Kernel/Proc/Signals.antt =====
-- kkill, kfreeze and kthaw of proc.c.
use ncsc210_g.Base.{
  ℕ, ◌<◌, ◌≡◌, refl, sym, ap, subst, ◌∙◌, ◌≢◌, ◌⊎◌, inl, inr, Bool, true, false, ◌&&◌, ◌||◌, Option,
  none, some, arith, ltb, if◌then◌else◌, ltb→lt, Bool-cases, ℤ, pos, minus_one, ◌==ℤ◌, find_from,
  find_from-some, find_from-none,
}
use ncsc210_g.Kernel.Proc.Consistent.{set_proc-here, set_proc-other}
use ncsc210_g.Kernel.Shm.{nproc}
use ncsc210_g.Kernel.Proc.Kill.{
  may_run, scheduler, killed_proc, on_found, on_first, kkill, in_use, kfreeze, kthaw,
}
use ncsc210_g.Kernel.Proc.{
  ProcState, unused, used, sleeping, runnable, running, zombie, Proc, Procs, is_sleeping,
  is_runnable,
}

-- Process `i` is the first one that passes the test, and is changed; all others are as before.
pub record Changed (test : Proc → Bool) (change : Proc → Proc) (k k1 : Procs) (i : ℕ) : Type 0 where
  pub in_table : i < nproc
  pub passes : test (k.proc i) ≡ true
  pub is_first : (j : ℕ) → j < i → test (k.proc j) ≡ false
  pub changed : k1.proc i ≡ change (k.proc i)
  pub others : (j : ℕ) → j ≢ i → k1.proc j ≡ k.proc j

-- Nothing passes the test, and nothing is changed.
abbrev pub NoneFound : (Proc → Bool) → Procs → Procs × ℤ → Type 0
NoneFound test k r = (r ≡ (k, minus_one)) × ((j : ℕ) → j < nproc → test (k.proc j) ≡ false)

-- What the loops come to, from what the search finds.
abbrev Outcome : (Proc → Bool) → (Proc → Proc) → Procs → Procs × ℤ → Type 0
Outcome test change k r =
    NoneFound test k r ⊎ ((i : ℕ) × (r.1 ≡ pos 0) × Changed test change k r.0 i)

on_found-Outcome :
    (test : Proc → Bool) (change : Proc → Proc) (k : Procs) (found : Option ℕ)
    → find_from (λ i. test (k.proc i)) nproc 0 ≡ found
    → Outcome test change k (on_found change k found)
on_found-Outcome test change k none e =
    inl
      (refl, λ j low. find_from-none (λ i. test (k.proc i)) nproc 0 e j (omega arith) (omega arith))
on_found-Outcome test change k (some i) e =
    let (_, low, hit, before) = find_from-some (λ i. test (k.proc i)) nproc 0 i e in
    inr (
      i,
      refl,
      record {
        in_table = omega (arith, low);
        passes = hit;
        is_first = λ j below. before j (omega arith) below;
        changed = set_proc-here i (change (k.proc i)) k;
        others = λ j differ. set_proc-other i j (change (k.proc i)) k (λ e. differ (sym e));
      },
    )

on_first-Outcome :
    (test : Proc → Bool) (change : Proc → Proc) (k : Procs)
    → Outcome test change k (on_first test change k)
on_first-Outcome test change k =
    on_found-Outcome test change k (find_from (λ i. test (k.proc i)) nproc 0) refl

killed_may_run :
    (state : ProcState)
    → (is_runnable (if is_sleeping state then runnable else state) && true)
      ≡ (is_runnable state || is_sleeping state)
killed_may_run unused = refl
killed_may_run used = refl
killed_may_run sleeping = refl
killed_may_run runnable = refl
killed_may_run running = refl
killed_may_run zombie = refl

-- kkill either finds no process with the pid, and then fails and changes nothing, or it returns 0
-- and the first process with the pid is marked as killed, is not frozen and not asleep, so that the
-- scheduler may run it exactly if it was asleep or runnable; nothing else is changed.
pub kkill_lem :
    (pid : ℤ) (k : Procs)
    → NoneFound (λ p. p.pid ==ℤ pid) k (kkill pid k)
      ⊎ ((i : ℕ) × ((kkill pid k).1 ≡ pos 0)
          × Changed (λ p. p.pid ==ℤ pid) killed_proc k (kkill pid k).0 i
          × (((kkill pid k).0.proc i).killed ≡ true)
          × (may_run ((kkill pid k).0.proc i)
              ≡ (is_runnable (k.proc i).state || is_sleeping (k.proc i).state)))
unfolding kkill
kkill_lem pid k = elim (on_first-Outcome (λ p. p.pid ==ℤ pid) killed_proc k) [
  | inl missing ↦ inl missing
  | inr (i, zero_is, c) ↦ inr (
    i,
    zero_is,
    c,
    ap (λ p. p.killed) c.changed,
    ap may_run c.changed ∙ killed_may_run (k.proc i).state,
  )
]

not_less : (i j : ℕ) → ltb i j ≡ false → ltb j i ≡ false → j ≡ i
not_less i j e f = ground (arith, e, f)

-- A thaw behind a freeze finds the same process.
same_found :
    (pid : ℤ) (k k1 k2 : Procs) (i j : ℕ)
    → Changed (in_use pid) (λ p. record p { frozen = true }) k k1 i
    → Changed (in_use pid) (λ p. record p { frozen = false }) k1 k2 j
    → j ≡ i
same_found pid k k1 k2 i j c d =
    let here : in_use pid (k1.proc i) ≡ true = ap (in_use pid) c.changed ∙ c.passes in
    elim (Bool-cases (ltb i j)) [
      | inl e ↦ let clash : true ≡ false = sym here ∙ d.is_first i (ltb→lt i j e) in absurd (cc)
      | inr e ↦ elim (Bool-cases (ltb j i)) [
        | inl f ↦
            let low : j < i = ltb→lt j i f in
            let kept = ap (in_use pid) (c.others j (λ q. omega (arith, q, low))) in
            let clash : true ≡ false = sym d.passes ∙ kept ∙ c.is_first j low in absurd (cc)
        | inr f ↦ not_less i j e f
      ]
    ]

not_chosen :
    (pid : ℤ) (k k1 : Procs) (i : ℕ)
    → Changed (in_use pid) (λ p. record p { frozen = true }) k k1 i
    → scheduler k1 ≢ some i
unfolding scheduler
not_chosen pid k k1 i c chosen =
    let (_, _, hit, _) = find_from-some (λ i. may_run (k1.proc i)) nproc 0 i chosen in
    let runs = sym (ap may_run c.changed) ∙ hit in
    elim (Bool-cases (is_runnable (k.proc i).state)) [
      | inl e ↦ absurd (ground (arith, e, runs))
      | inr e ↦ absurd (ground (arith, e, runs))
    ]

abbrev thawed : Proc → Proc
thawed p = record p { frozen = false }

-- When kfreeze returns 0, the scheduler does not choose the process that it found, and after kthaw
-- of the same pid that process is as it was before, but not frozen.
pub freeze_thaw :
    (pid : ℤ) (k : Procs)
    → (kfreeze pid k).1 ≡ pos 0
    → (i : ℕ) × (in_use pid (k.proc i) ≡ true)
      × (scheduler (kfreeze pid k).0 ≢ some i)
      × ((kthaw pid (kfreeze pid k).0).1 ≡ pos 0)
      × ((kthaw pid (kfreeze pid k).0).0.proc i ≡ record (k.proc i) { frozen = false })
unfolding kfreeze kthaw scheduler
freeze_thaw pid k h = elim (on_first-Outcome (in_use pid) (λ p. record p { frozen = true }) k) [
  | inl (failing, missing) ↦ absurd (ground (arith, failing, h))
  | inr (i, zero_is, c) ↦
      let k1 = (kfreeze pid k).0 in
      elim (on_first-Outcome (in_use pid) (λ p. record p { frozen = false }) k1) [
        | inl (failing, missing) ↦
            absurd (ground (arith, missing i c.in_table, ap (in_use pid) c.changed, c.passes))
        | inr (j, zero_too, d) ↦
            let same : j ≡ i = same_found pid k k1 (kthaw pid k1).0 i j c d in
            (
              i,
              c.passes,
              λ chosen. not_chosen pid k k1 i c chosen,
              zero_too,
              subst (λ x. (kthaw pid k1).0.proc x ≡ record (k1.proc x) { frozen = false }) same
                    d.changed
                  ∙ ap thawed c.changed,
            )
      ]
]
