-- ===== src/Kernel/Proc/Lost/Rounds.antt =====
-- The rounds of kwait and kwaitpid: no wakeup is lost where they sleep or return.
use ncsc210_g.Base.{
  ℕ, ◌<◌, ◌≡◌, refl, sym, ap, subst, ◌∙◌, ◌≢◌, ◌⊎◌, inl, inr, true, false, not, Option, none, some,
  arith, ◌==◌, ==_iff, Bool-cases, ℤ, ◌==ℤ◌, ==ℤ_iff, update,
}
use ncsc210_g.Kernel.Shm.{nproc}
use ncsc210_g.Kernel.Proc.{
  ProcState, unused, used, sleeping, runnable, running, zombie, Proc, Procs, is_unused, is_zombie,
  same_place, freeproc,
}
use ncsc210_g.Kernel.Proc.Consistent.{
  exists_at, Alike, Alike-refl, AllAlike, AllAlike-Consistent, differ, set_proc-here,
  set_proc-other, set_proc-AllAlike,
}
use ncsc210_g.Kernel.Proc.Exits.Keeps.{freeproc_cases, freeproc-Consistent}
use ncsc210_g.Kernel.Proc.Waits.{Waited, returns, sleeps, WaitedFor}
use ncsc210_g.Kernel.Proc.Waits.Any.{WaitedAny}
use ncsc210_g.Kernel.Proc.System.{
  Call, no_call, in_wait, in_waitpid, System, sleep, after_round, Runs,
}
use ncsc210_g.Kernel.Proc.Lost.{waits_for, NoneLost, NoSleeper, AllAlike-NoneLost}
use ncsc210_g.Kernel.Proc.Lost.Gentle.{InOrder}

-- The call of `q` after `p` has returned.
call_cases :
    (s : System) (p q : ℕ)
    → (update s.call p no_call q ≡ s.call q) ⊎ (update s.call p no_call q ≡ no_call)
call_cases s p q = elim (Bool-cases (p == q)) [ inl e ↦ rw e (inr refl) | inr e ↦ rw e (inl refl) ]

-- A return that frees nothing.
returned-InOrder :
    (s : System) (p : ℕ) (k : Procs)
    → k ≡ s.procs
    → InOrder s
    → InOrder (record { procs = k; call = update s.call p no_call })
returned-InOrder s p k e o =
    let a : AllAlike s.procs s.procs = record {
      alike = λ i low. Alike-refl (s.procs.proc i);
      nextpid_grows = omega arith;
      init_same = refl;
    } in
    let t : System = record { procs = s.procs; call = update s.call p no_call } in
    let n : NoSleeper s t =
      λ q low h. elim (call_cases s p q) [ inl f ↦ inl (h, f) | inr f ↦ inr f ] in
    rw e (record {
      consistent = o.consistent;
      none_lost = AllAlike-NoneLost s t o.consistent a n o.none_lost;
    })

-- A return that frees a zombie.
freed-InOrder :
    (s : System) (p i : ℕ) (k : Procs)
    → k ≡ freeproc i s.procs
    → is_zombie (s.procs.proc i).state ≡ true
    → InOrder s
    → InOrder (record { procs = k; call = update s.call p no_call })
freed-InOrder s p i k e z o =
    let t : System = record { procs = freeproc i s.procs; call = update s.call p no_call } in
    let n : NoneLost t = λ j q low zj f h. elim (freeproc_cases i j s.procs) [
      | inl (same, g) ↦ absurd (ground (arith, g, zj))
      | inr (ne, g) ↦ elim (freeproc_cases i q s.procs) [
        | inl (same, gq) ↦ absurd (ground (arith, gq, h))
        | inr (neq, gq) ↦ elim (call_cases s p q) [
          | inl c ↦ rw (c, g) (o.none_lost j q low (rw g at zj) (rw g at f) (rw gq at h))
          | inr c ↦ rw c refl
        ]
      ]
    ] in
    rw e (record { consistent = freeproc-Consistent i s.procs o.consistent z; none_lost = n })

pub running_sleeps :
    (p : Proc) (c : ℕ) → p.state ≡ running → Alike p (record p { chan = some c; state = sleeping })
running_sleeps p c e = record {
  unused_same = rw e refl;
  zombie_same = rw e refl;
  pid_same = refl;
  parent_same = refl;
}

-- What a sleeper has made sure of: none of its children that it waits for has exited.
abbrev NothingYet : System → (p : ℕ) (call : Call) → Type 0
NothingYet s p call =
    (j : ℕ)
    → j < nproc
    → is_zombie (s.procs.proc j).state ≡ true
    → (s.procs.proc j).parent ≡ some p
    → waits_for call (s.procs.proc j).pid ≡ false

sleeping_alive :
    (k : Procs) (i : ℕ) → (k.proc i).state ≡ sleeping → is_zombie (k.proc i).state ≢ true
sleeping_alive k i e h = ground (arith, e, h)

asleep-InOrder :
    (s : System) (p : ℕ) (call : Call)
    → Runs s p
    → NothingYet s p call
    → InOrder s
    → InOrder (record { procs = sleep p p s.procs; call = update s.call p call })
asleep-InOrder s p call r yet o =
    let last : Proc = record (s.procs.proc p) { chan = some p; state = sleeping } in
    let k = sleep p p s.procs in
    let t : System = record { procs = k; call = update s.call p call } in
    let here = set_proc-here p last s.procs in
    let one : (p == p) ≡ true = ground arith in
    let n : NoneLost t = λ j q low z f h. elim (Bool-cases (p == j)) [
      | inl e ↦ absurd (
          sleeping_alive k j
            (subst (λ x. (k.proc x).state ≡ sleeping) ((==_iff p j).0 e) (ap (λ x. x.state) here))
            z)
      | inr e ↦
          let g = set_proc-other p j last s.procs (differ p j e) in
          elim (Bool-cases (p == q)) [
            | inl eq ↦
                let same : p ≡ q = (==_iff p q).0 eq in
                let parent : (s.procs.proc j).parent ≡ some p = rw g at f ∙ ap some (sym same) in
                rw (eq, g) (yet j low (rw g at z) parent)
            | inr eq ↦
                let gq = set_proc-other p q last s.procs (differ p q eq) in
                rw (eq, g) (o.none_lost j q low (rw g at z) (rw g at f) (rw gq at h))
          ]
    ] in
    record {
      consistent =
          AllAlike-Consistent s.procs k
            (set_proc-AllAlike p last s.procs (running_sleeps (s.procs.proc p) p r.is_running))
            o.consistent;
      none_lost = n;
    }

same_place-here : (o : Option ℕ) (p : ℕ) → o ≡ some p → same_place o p ≡ true
same_place-here none p e = cc
same_place-here (some q) p e = let f : q ≡ p = cc in ground (arith, f)

pub wait-InOrder :
    (s : System) (p : ℕ) (w : Waited)
    → Runs s p
    → WaitedAny p s.procs w
    → InOrder s
    → InOrder (after_round s p in_wait w)
wait-InOrder s p (returns k x status) r h o = elim h [
  | inl (_, _, e) ↦ returned-InOrder s p k e o
  | inr (i, z, _, _, e) ↦ freed-InOrder s p i k e z.has_exited o
]
wait-InOrder s p sleeps r h o =
    asleep-InOrder s p in_wait r
      (λ j low z f.
        let clash : true ≡ false =
          sym z ∙ h.1 j low (same_place-here (s.procs.proc j).parent p f) in
        absurd (cc))
      o

zombie_used : (st : ProcState) → is_zombie st ≡ true → not (is_unused st) ≡ true
zombie_used unused h = cc
zombie_used used h = refl
zombie_used sleeping h = refl
zombie_used runnable h = refl
zombie_used running h = refl
zombie_used zombie h = refl

zombie_exists : (k : Procs) (i : ℕ) → is_zombie (k.proc i).state ≡ true → exists_at k i ≡ true
zombie_exists k i z = zombie_used (k.proc i).state z

pub waitpid-InOrder :
    (s : System) (p : ℕ) (target : ℤ) (w : Waited)
    → Runs s p
    → WaitedFor p target s.procs w
    → InOrder s
    → InOrder (after_round s p (in_waitpid target) w)
waitpid-InOrder s p target (returns k x status) r h o = elim h [
  | inl (_, _, e) ↦ returned-InOrder s p k e o
  | inr (i, c, z, _, _, e) ↦ freed-InOrder s p i k e z o
]
waitpid-InOrder s p target sleeps r (i, c, living, _) o =
    asleep-InOrder s p (in_waitpid target) r
      (λ j low z f. elim (Bool-cases (target ==ℤ (s.procs.proc j).pid)) [
        | inl e ↦
            let same = c.pid_is ∙ (==ℤ_iff target (s.procs.proc j).pid).0 e in
            let j_is =
              o.consistent.pids_differ j i low c.in_table (zombie_exists s.procs j z) (sym same) in
            let clash : true ≡ false =
              sym (subst (λ x. is_zombie (s.procs.proc x).state ≡ true) j_is z) ∙ living in
            absurd (cc)
        | inr e ↦ e
      ])
      o
