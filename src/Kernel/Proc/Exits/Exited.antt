-- ===== src/Kernel/Proc/Exits/Exited.antt =====
-- reparent and kexit of proc.c.
use ncsc210_g.Base.{
  ℕ, ◌<◌, ◌≡◌, refl, sym, ap, subst, ◌∙◌, ◌≢◌, inl, inr, Bool, true, false, not, ◌&&◌, Option, none,
  some, arith, ltb, ◌==◌, ==_iff, Bool-cases, ℤ, find_from, find_from-none,
}
use ncsc210_g.Kernel.Shm.{nproc}
use ncsc210_g.Kernel.Proc.{
  zombie, Proc, Procs, is_sleeping, same_place, set_proc, wakeup, adopt, wake_init, reparent, kexit,
}
use ncsc210_g.Kernel.Proc.Consistent.{differ, set_proc-here, set_proc-other}
use ncsc210_g.Kernel.Proc.Exits.{
  asleep_at, Rested, and_not_self, Rested-refl, Rested-trans, wakeup-Woken, asleep_on, wakeup_wakes,
}

-- What reparent leaves: the children of `p` belong to the first process, which is awake if there are
-- any.
record Reparented (p : ℕ) (k k1 : Procs) : Type 0 where
  rested : (i : ℕ) → Rested (k.proc i) (k1.proc i)
  adopted :
      (i : ℕ)
      → i < nproc
      → same_place (k.proc i).parent p ≡ true
      → ((k1.proc i).parent ≡ some k.initproc) × (asleep_at k1 k.initproc k.initproc ≡ false)
  kept : (i : ℕ) → same_place (k.proc i).parent p ≡ false → (k1.proc i).parent ≡ (k.proc i).parent
  nextpid_same : k1.nextpid ≡ k.nextpid
  init_same : k1.initproc ≡ k.initproc

given-Rested : (p : Proc) (q : Option ℕ) → Rested p (record p { parent = q })
given-Rested p q = record {
  unused_same = refl;
  zombie_same = refl;
  pid_same = refl;
  xstate_same = refl;
  chan_same = refl;
  not_put_to_sleep = and_not_self (is_sleeping p.state);
}

adopt-Rested : (p i : ℕ) (k : Procs) → Rested (k.proc i) ((adopt p k).proc i)
unfolding adopt
adopt-Rested p i k = elim (Bool-cases (ltb i nproc && same_place (k.proc i).parent p)) [
  | inl e ↦ rw e (given-Rested (k.proc i) (some k.initproc))
  | inr e ↦ rw e (Rested-refl (k.proc i))
]

adopt_adopts :
    (p i : ℕ) (k : Procs)
    → i < nproc
    → same_place (k.proc i).parent p ≡ true
    → ((adopt p k).proc i).parent ≡ some k.initproc
unfolding adopt
adopt_adopts p i k low e =
    let f : (ltb i nproc && same_place (k.proc i).parent p) ≡ true = ground arith in rw f refl

adopt_keeps :
    (p i : ℕ) (k : Procs)
    → same_place (k.proc i).parent p ≡ false
    → ((adopt p k).proc i).parent ≡ (k.proc i).parent
unfolding adopt
adopt_keeps p i k e =
    let f : (ltb i nproc && same_place (k.proc i).parent p) ≡ false = ground (arith, e) in rw f refl

wake_init-Reparented :
    (p : ℕ) (k : Procs) (found : Option ℕ)
    → p ≢ k.initproc
    → k.initproc < nproc
    → find_from (λ i. same_place (k.proc i).parent p) nproc 0 ≡ found
    → Reparented p k (wake_init p found (adopt p k))
unfolding wake_init adopt wakeup
wake_init-Reparented p k none ne low e = record {
  rested = λ i. adopt-Rested p i k;
  adopted = λ i i_low h.
      let none_is =
        find_from-none (λ i. same_place (k.proc i).parent p) nproc 0 e i (omega arith)
          (omega arith) in
      let clash : true ≡ false = sym h ∙ none_is in absurd (cc);
  kept = λ i h. adopt_keeps p i k h;
  nextpid_same = refl;
  init_same = refl;
}
wake_init-Reparented p k (some c) ne low e = record {
  rested = λ i.
      Rested-trans (k.proc i) ((adopt p k).proc i) _ (adopt-Rested p i k)
        (wakeup-Woken p (some k.initproc) (adopt p k) i).0;
  adopted = λ i i_low h. (
    (wakeup-Woken p (some k.initproc) (adopt p k) i).1 ∙ adopt_adopts p i k i_low h,
    wakeup_wakes p k.initproc k.initproc (adopt p k) (λ s. ne (sym s)) low,
  );
  kept = λ i h. (wakeup-Woken p (some k.initproc) (adopt p k) i).1 ∙ adopt_keeps p i k h;
  nextpid_same = refl;
  init_same = refl;
}

-- What kexit leaves: a zombie with the status, no child of it, and nobody asleep who waits for it: its
-- parent is awake, and so is the first process if it was given children.
pub record Exited (p : ℕ) (status : ℤ) (k k1 : Procs) : Type 0 where
  pub not_init : p ≢ k.initproc
  pub zombie_is : (k1.proc p).state ≡ zombie
  pub xstate_is : (k1.proc p).xstate ≡ status
  pub pid_same : (k1.proc p).pid ≡ (k.proc p).pid
  pub others : (i : ℕ) → p ≢ i → Rested (k.proc i) (k1.proc i)
  pub adopted :
      (i : ℕ)
      → i < nproc
      → same_place (k.proc i).parent p ≡ true
      → ((k1.proc i).parent ≡ some k.initproc) × (asleep_at k1 k.initproc k.initproc ≡ false)
  pub kept :
      (i : ℕ) → same_place (k.proc i).parent p ≡ false → (k1.proc i).parent ≡ (k.proc i).parent
  pub parent_awake : (q : ℕ) → q < nproc → (k1.proc p).parent ≡ some q → asleep_at k1 q q ≡ false
  pub nextpid_same : k1.nextpid ≡ k.nextpid
  pub init_same : k1.initproc ≡ k.initproc

same_parent :
    (p i : ℕ) (q : Proc) (k : Procs)
    → q.parent ≡ (k.proc p).parent
    → ((set_proc p q k).proc i).parent ≡ (k.proc i).parent
same_parent p i q k h = elim (Bool-cases (p == i)) [
  | inl e ↦
      let same : p ≡ i = (==_iff p i).0 e in
      subst (λ x. ((set_proc p q k).proc x).parent ≡ (k.proc x).parent) same
        (ap (λ x. x.parent) (set_proc-here p q k) ∙ h)
  | inr e ↦ rw e refl
]

no_sleep_there :
    (a a1 c c1 : Bool) → (a1 && not a) ≡ false → c1 ≡ c → (a && c) ≡ false → (a1 && c1) ≡ false
no_sleep_there a a1 c c1 h e k = ground arith

asleep-Rested : (p p1 : Proc) (c : ℕ) → Rested p p1 → asleep_on p c ≡ false → asleep_on p1 c ≡ false
asleep-Rested p p1 c r h =
    let n = r.not_put_to_sleep in
    let e : same_place p1.chan c ≡ same_place p.chan c = ap (λ x. same_place x c) r.chan_same in
    no_sleep_there (is_sleeping p.state) (is_sleeping p1.state) (same_place p.chan c)
      (same_place p1.chan c) n e h

abbrev zombify : (p : ℕ) (status : ℤ) → Procs → Procs
zombify p status k = set_proc p (record (k.proc p) { xstate = status; state = zombie }) k

-- From reparent to the end of kexit.
zombify-Exited :
    (p : ℕ) (status : ℤ) (k k1 : Procs)
    → p ≢ k.initproc
    → k.initproc < nproc
    → Reparented p k k1
    → Exited p status k (zombify p status (wakeup p (k1.proc p).parent k1))
unfolding wakeup
zombify-Exited p status k k1 ne low r =
    let c = (k1.proc p).parent in
    let k2 = wakeup p c k1 in
    let last : Proc = record (k2.proc p) { xstate = status; state = zombie } in
    let here = set_proc-here p last k2 in
    let other = λ (i : ℕ) (h : p ≢ i). set_proc-other p i last k2 h in
    let parents : (i : ℕ) → ((set_proc p last k2).proc i).parent ≡ (k1.proc i).parent =
      λ i. same_parent p i last k2 refl ∙ (wakeup-Woken p c k1 i).1 in
    record {
      not_init = ne;
      zombie_is = ap (λ x. x.state) here;
      xstate_is = ap (λ x. x.xstate) here;
      pid_same = ap (λ x. x.pid) here ∙ (wakeup-Woken p c k1 p).0.pid_same ∙ (r.rested p).pid_same;
      others = λ i h.
          rw (other i h) (
            Rested-trans (k.proc i) (k1.proc i) (k2.proc i) (r.rested i) (wakeup-Woken p c k1 i).0);
      adopted = λ i i_low h.
          let (given, awake) = r.adopted i i_low h in
          (
            parents i ∙ given,
            ap (λ x. asleep_on x k.initproc) (other k.initproc ne)
                ∙ asleep-Rested (k1.proc k.initproc) (k2.proc k.initproc) k.initproc
                    (wakeup-Woken p c k1 k.initproc).0 awake,
          );
      kept = λ i h. parents i ∙ r.kept i h;
      parent_awake = λ q q_low h. elim (Bool-cases (p == q)) [
        | inl e ↦
            let same : p ≡ q = (==_iff p q).0 e in
            subst (λ x. asleep_at (set_proc p last k2) x q ≡ false) same
              (ap (λ x. asleep_on x q) here)
        | inr e ↦
            let differs = differ p q e in
            let chan_is : c ≡ some q = sym (parents p) ∙ h in
            ap (λ x. asleep_on x q) (other q differs)
            ∙ subst (λ x. asleep_at (wakeup p x k1) q q ≡ false) (sym chan_is)
                (wakeup_wakes p q q k1 (λ s. differs (sym s)) q_low)
      ];
      nextpid_same = r.nextpid_same;
      init_same = r.init_same;
    }

-- When kexit returns, in a table whose first process is there, the caller is a zombie with the status
-- and its pid, and not the first process; its children belong to the first process, which is awake if
-- there are any; its parent is awake; all other processes were woken at most.
pub kexit_lem :
    (p : ℕ) (status : ℤ) (k k1 : Procs)
    → k.initproc < nproc
    → kexit p status k ≡ some k1
    → Exited p status k k1
unfolding kexit reparent
kexit_lem p status k k1 low h = elim (Bool-cases (p == k.initproc)) [
  | inl e ↦ absurd (ground (arith, e, h))
  | inr e ↦
      let r =
        wake_init-Reparented p k (find_from (λ i. same_place (k.proc i).parent p) nproc 0)
          (differ p k.initproc e) low refl in
      let same : some (zombify p status (wakeup p ((reparent p k).proc p).parent (reparent p k)))
          ≡ some k1 =
        rw e at h in
      let s : zombify p status (wakeup p ((reparent p k).proc p).parent (reparent p k)) ≡ k1 = cc in
      subst (Exited p status k) s
        (zombify-Exited p status k (reparent p k) (differ p k.initproc e) low r)
]
