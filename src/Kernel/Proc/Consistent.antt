-- ===== src/Kernel/Proc/Consistent.antt =====
-- A process table that is in order, and the changes of one process that keep it so.
use ncsc210_g.Base.{
  ℕ, ◌≤◌, ◌<◌, ◌≡◌, refl, sym, ap, subst, ◌∙◌, ◌≢◌, inl, inr, Bool, true, false, not, ◌&&◌, none,
  some, arith, ◌==◌, ==_iff, Bool-cases, ℤ, pos,
}
use ncsc210_g.Kernel.Shm.{nproc}
use ncsc210_g.Kernel.Proc.{
  ProcState, unused, used, sleeping, runnable, running, zombie, Proc, Procs, is_unused, is_zombie,
  set_proc,
}

-- A process that is there, and one that can be a parent.
abbrev pub exists_at : Procs → ℕ → Bool
exists_at k i = not (is_unused (k.proc i).state)

abbrev pub is_alive : Procs → ℕ → Bool
is_alive k i = exists_at k i && not (is_zombie (k.proc i).state)

-- A pid that was given out: positive and below nextpid.
abbrev pub PidBelow : (nextpid : ℕ) → ℤ → Type 0
PidBelow n pid = (m : ℕ) × (pid ≡ pos m) × (0 < m) × (m < n)

pub record Consistent (k : Procs) : Type 0 where
  pub pids_below : (i : ℕ) → i < nproc → exists_at k i ≡ true → PidBelow k.nextpid (k.proc i).pid
  pub pids_differ :
      (i j : ℕ)
      → i < nproc
      → j < nproc
      → exists_at k i ≡ true
      → (k.proc i).pid ≡ (k.proc j).pid
      → i ≡ j
  pub slots_clear :
      (i : ℕ)
      → i < nproc
      → exists_at k i ≡ false
      → ((k.proc i).pid ≡ pos 0) × ((k.proc i).parent ≡ none)
  pub parents_live :
      (i q : ℕ) → i < nproc → (k.proc i).parent ≡ some q → (q < nproc) × (is_alive k q ≡ true)
  pub orphans_none :
      (i : ℕ)
      → i < nproc
      → exists_at k i ≡ true
      → i ≢ k.initproc
      → (q : ℕ) × ((k.proc i).parent ≡ some q)
  pub init_lives : (k.initproc < nproc) × (is_alive k k.initproc ≡ true)

-- Two processes that agree on what the table's order depends on.
pub record Alike (p p1 : Proc) : Type 0 where
  pub unused_same : is_unused p1.state ≡ is_unused p.state
  pub zombie_same : is_zombie p1.state ≡ is_zombie p.state
  pub pid_same : p1.pid ≡ p.pid
  pub parent_same : p1.parent ≡ p.parent

pub Alike-refl : (p : Proc) → Alike p p
Alike-refl p = record {
  unused_same = refl;
  zombie_same = refl;
  pid_same = refl;
  parent_same = refl;
}

pub record AllAlike (k k1 : Procs) : Type 0 where
  pub alike : (i : ℕ) → i < nproc → Alike (k.proc i) (k1.proc i)
  pub nextpid_grows : k.nextpid ≤ k1.nextpid
  pub init_same : k1.initproc ≡ k.initproc

exists_at-alike :
    (k k1 : Procs) → AllAlike k k1 → (i : ℕ) → i < nproc → exists_at k1 i ≡ exists_at k i
exists_at-alike k k1 a i low = ap not (a.alike i low).unused_same

is_alive-alike : (k k1 : Procs) → AllAlike k k1 → (i : ℕ) → i < nproc → is_alive k1 i ≡ is_alive k i
is_alive-alike k k1 a i low =
    ground (arith, (a.alike i low).unused_same, (a.alike i low).zombie_same)

PidBelow-grows : (n m : ℕ) (pid : ℤ) → n ≤ m → PidBelow n pid → PidBelow m pid
PidBelow-grows n m pid h (v, e, low, high) = (v, e, low, omega arith)

pub AllAlike-Consistent : (k k1 : Procs) → AllAlike k k1 → Consistent k → Consistent k1
AllAlike-Consistent k k1 a c =
    let there = exists_at-alike k k1 a in
    let lives = is_alive-alike k k1 a in
    record {
      pids_below = λ i low e. rw ((a.alike i low).pid_same) (
          PidBelow-grows k.nextpid k1.nextpid (k.proc i).pid a.nextpid_grows
            (c.pids_below i low (sym (there i low) ∙ e)));
      pids_differ = λ i j a1 b1 e s.
          c.pids_differ i j a1 b1 (sym (there i a1) ∙ e)
            (sym (a.alike i a1).pid_same ∙ s ∙ (a.alike j b1).pid_same);
      slots_clear = λ i low e.
          let (x, y) = c.slots_clear i low (sym (there i low) ∙ e) in
          ((a.alike i low).pid_same ∙ x, (a.alike i low).parent_same ∙ y);
      parents_live = λ i q low e.
          let (x, y) = c.parents_live i q low (sym (a.alike i low).parent_same ∙ e) in
          (x, lives q x ∙ y);
      orphans_none = λ i low e ne.
          let (q, x) =
            c.orphans_none i low (sym (there i low) ∙ e) (λ s. ne (s ∙ sym a.init_same)) in
          (q, (a.alike i low).parent_same ∙ x);
      init_lives =
          rw (a.init_same) (c.init_lives.0, lives k.initproc c.init_lives.0 ∙ c.init_lives.1);
    }

pub unused_not_zombie : (st : ProcState) → is_unused st ≡ true → false ≡ is_zombie st
unused_not_zombie unused h = refl
unused_not_zombie used h = refl
unused_not_zombie sleeping h = refl
unused_not_zombie runnable h = refl
unused_not_zombie running h = refl
unused_not_zombie zombie h = cc

pub unnegate_true : (b : Bool) → not b ≡ false → b ≡ true
unnegate_true b h = ground arith

pub negate_true : (b : Bool) → b ≡ true → not b ≡ false
negate_true b h = ground arith

pub differ : (i j : ℕ) → (i == j) ≡ false → i ≢ j
differ i j e s = ground (arith, e, s)

-- A change of one process.
pub set_proc-here : (i : ℕ) (p : Proc) (k : Procs) → (set_proc i p k).proc i ≡ p
set_proc-here i p k = let e : (i == i) ≡ true = ground arith in rw e refl

pub set_proc-other : (i j : ℕ) (p : Proc) (k : Procs) → i ≢ j → (set_proc i p k).proc j ≡ k.proc j
set_proc-other i j p k h = elim (Bool-cases (i == j)) [
  | inl e ↦ absurd (h ((==_iff i j).0 e))
  | inr e ↦ rw e refl
]

pub set_proc-AllAlike :
    (i : ℕ) (p : Proc) (k : Procs) → Alike (k.proc i) p → AllAlike k (set_proc i p k)
set_proc-AllAlike i p k a = record {
  alike = λ j low. elim (Bool-cases (i == j)) [
    | inl e ↦
        let same : i ≡ j = (==_iff i j).0 e in
        subst (λ x. Alike (k.proc x) ((set_proc i p k).proc x)) same (rw (set_proc-here i p k) a)
    | inr e ↦ rw e (Alike-refl (k.proc j))
  ];
  nextpid_grows = omega arith;
  init_same = refl;
}
