-- ===== src/Kernel/Proc/Forks/Keeps.antt =====
-- A fork keeps the process table in order.
use ncsc210_g.Base.{
  ℕ, ◌<◌, ◌≡◌, refl, sym, ap, subst, ◌∙◌, ◌≢◌, ◌⊎◌, inl, inr, Bool, true, not, ◌&&◌, some, arith,
  ◌==◌, ==_iff, Bool-cases, ℤ, pos,
}
use ncsc210_g.Kernel.Shm.{nproc}
use ncsc210_g.Kernel.Proc.{
  ProcState, unused, used, sleeping, runnable, running, zombie, Procs, is_unused, is_zombie,
  is_runnable,
}
use ncsc210_g.Kernel.Proc.Consistent.{exists_at, is_alive, PidBelow, Consistent, differ}
use ncsc210_g.Kernel.Proc.Forks.{Born}

runnable_lives :
    (st : ProcState) (frozen : Bool)
    → (is_runnable st && not frozen) ≡ true
    → (not (is_unused st) && not (is_zombie st)) ≡ true
runnable_lives unused frozen h = absurd (ground arith)
runnable_lives used frozen h = absurd (ground arith)
runnable_lives sleeping frozen h = absurd (ground arith)
runnable_lives runnable frozen h = refl
runnable_lives running frozen h = absurd (ground arith)
runnable_lives zombie frozen h = absurd (ground arith)

pub alive_exists : (k : Procs) (i : ℕ) → is_alive k i ≡ true → exists_at k i ≡ true
alive_exists k i h = ground arith

-- A slot holds the new process, or what it held before.
old_or_new : (p : ℕ) (k k1 : Procs) (i j : ℕ) → Born p k k1 i → (i ≡ j) ⊎ (k1.proc j ≡ k.proc j)
old_or_new p k k1 i j b = elim (Bool-cases (i == j)) [
  | inl e ↦ inl ((==_iff i j).0 e)
  | inr e ↦ inr (b.others j (differ i j e))
]

pub is_alive-Born : (p : ℕ) (k k1 : Procs) (i : ℕ) → Born p k k1 i → is_alive k1 i ≡ true
is_alive-Born p k k1 i b = runnable_lives (k1.proc i).state (k1.proc i).frozen b.runs

-- Who lived lives on.
lives_on :
    (p : ℕ) (k k1 : Procs) (i q : ℕ) → Born p k k1 i → is_alive k q ≡ true → is_alive k1 q ≡ true
lives_on p k k1 i q b h = elim (old_or_new p k k1 i q b) [
  | inl e ↦ subst (λ x. is_alive k1 x ≡ true) e (is_alive-Born p k k1 i b)
  | inr e ↦ rw e h
]

PidBelow-no-next : (n : ℕ) (pid : ℤ) → PidBelow n pid → pid ≢ pos n
PidBelow-no-next n pid (m, e, low, high) s = let t : pos m ≡ pos n = sym e ∙ s in ground (arith, t)

-- No other slot has the new pid.
pid_is_new :
    (p : ℕ) (k k1 : Procs) (i j : ℕ)
    → Consistent k
    → Born p k k1 i
    → 0 < k.nextpid
    → j < nproc
    → i ≢ j
    → (k1.proc i).pid ≢ (k1.proc j).pid
pid_is_new p k k1 i j c b positive low ne s =
    let old : (k.proc j).pid ≡ pos k.nextpid =
      sym (ap (λ x. x.pid) (b.others j ne)) ∙ sym s ∙ b.pid_is in
    elim (Bool-cases (exists_at k j)) [
      | inl e ↦ PidBelow-no-next k.nextpid (k.proc j).pid (c.pids_below j low e) old
      | inr e ↦
          let z : pos 0 ≡ pos k.nextpid = sym (c.slots_clear j low e).0 ∙ old in ground (arith, z)
    ]

next_is_positive : (k : Procs) → Consistent k → 0 < k.nextpid
next_is_positive k c =
    let (low, lives) = c.init_lives in
    let (m, e, positive, below) = c.pids_below k.initproc low (alive_exists k k.initproc lives) in
    omega (arith, positive, below)

pub Born-Consistent :
    (p : ℕ) (k k1 : Procs) (i : ℕ)
    → Consistent k
    → p < nproc
    → is_alive k p ≡ true
    → Born p k k1 i
    → Consistent k1
Born-Consistent p k k1 i c p_low p_lives b =
    let positive = next_is_positive k c in
    record {
      pids_below = λ j low e. elim (old_or_new p k k1 i j b) [
        | inl s ↦
            subst (λ x. PidBelow k1.nextpid (k1.proc x).pid) s
              (k.nextpid, b.pid_is, positive, omega (arith, b.nextpid_is))
        | inr s ↦
            let (m, f, x, y) = c.pids_below j low (rw s at e) in
            (m, ap (λ x. x.pid) s ∙ f, x, omega (arith, y, b.nextpid_is))
      ];
      pids_differ = λ j l j_low l_low e same. elim (Bool-cases (i == j)) [
        | inl s ↦ elim (Bool-cases (i == l)) [
          | inl t ↦ sym ((==_iff i j).0 s) ∙ (==_iff i l).0 t
          | inr t ↦ absurd (
              pid_is_new p k k1 i l c b positive l_low (differ i l t)
                (ap (λ x. (k1.proc x).pid) ((==_iff i j).0 s) ∙ same))
        ]
        | inr s ↦ elim (Bool-cases (i == l)) [
          | inl t ↦ absurd (
              pid_is_new p k k1 i j c b positive j_low (differ i j s)
                (ap (λ x. (k1.proc x).pid) ((==_iff i l).0 t) ∙ sym same))
          | inr t ↦
              let f = b.others j (differ i j s) in
              let g = b.others l (differ i l t) in
              c.pids_differ j l j_low l_low (rw f at e)
                (sym (ap (λ x. x.pid) f) ∙ same ∙ ap (λ x. x.pid) g)
        ]
      ];
      slots_clear = λ j low e. elim (old_or_new p k k1 i j b) [
        | inl s ↦ absurd (ground (arith, s, e, is_alive-Born p k k1 i b))
        | inr s ↦ rw s (c.slots_clear j low (rw s at e))
      ];
      parents_live = λ j q low e. elim (old_or_new p k k1 i j b) [
        | inl s ↦
            let f : some p ≡ some q = sym b.parent_is ∙ ap (λ x. (k1.proc x).parent) s ∙ e in
            let g : p ≡ q = ground (arith, f) in
            subst (λ x. (x < nproc) × (is_alive k1 x ≡ true)) g
              (p_low, lives_on p k k1 i p b p_lives)
        | inr s ↦ let (x, y) = c.parents_live j q low (rw s at e) in (x, lives_on p k k1 i q b y)
      ];
      orphans_none = λ j low e ne. elim (old_or_new p k k1 i j b) [
        | inl s ↦ (p, ap (λ x. (k1.proc x).parent) (sym s) ∙ b.parent_is)
        | inr s ↦
            let (q, f) = c.orphans_none j low (rw s at e) (λ t. ne (t ∙ sym b.init_same)) in
            (q, ap (λ x. x.parent) s ∙ f)
      ];
      init_lives = rw (b.init_same) (c.init_lives.0, lives_on p k k1 i k.initproc b c.init_lives.1);
    }
