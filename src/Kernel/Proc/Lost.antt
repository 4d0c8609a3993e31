-- ===== src/Kernel/Proc/Lost.antt =====
-- Every step keeps the process table in order, and loses no wakeup.
pub mod Gentle
pub mod Rounds
pub mod Steps
pub mod Reached
mod Tests
use ncsc210_g.Base.{
  ℕ, ◌<◌, ◌≡◌, refl, sym, ap, subst, ◌∙◌, ◌⊎◌, inl, inr, Bool, true, false, not, ◌&&◌, some, arith,
  ◌==◌, ==_iff, Bool-cases, ℤ, ◌==ℤ◌,
}
use ncsc210_g.Kernel.Shm.{nproc}
use ncsc210_g.Kernel.Proc.{Proc, Procs, is_zombie, is_sleeping, same_place}
use ncsc210_g.Kernel.Proc.Consistent.{is_alive, Consistent, AllAlike, differ}
use ncsc210_g.Kernel.Proc.Exits.{asleep_at, Rested, asleep_on}
use ncsc210_g.Kernel.Proc.Exits.Exited.{Exited}
use ncsc210_g.Kernel.Proc.Exits.Keeps.{same_place-some, zombie_dead}
use ncsc210_g.Kernel.Proc.Forks.{Born}
use ncsc210_g.Kernel.Proc.Forks.Keeps.{is_alive-Born}
use ncsc210_g.Kernel.Proc.System.{Call, no_call, in_wait, in_waitpid, System, with_procs}

-- Whether a call waits for the child with this pid.
abbrev pub waits_for : Call → (pid : ℤ) → Bool
waits_for no_call pid = false
waits_for in_wait pid = true
waits_for (in_waitpid target) pid = target ==ℤ pid

-- Nobody sleeps who waits for a child that has exited.
abbrev pub NoneLost : System → Type 0
NoneLost s =
    (i q : ℕ)
    → i < nproc
    → is_zombie (s.procs.proc i).state ≡ true
    → (s.procs.proc i).parent ≡ some q
    → asleep_at s.procs q q ≡ true
    → waits_for (s.call q) (s.procs.proc i).pid ≡ false

-- No process falls asleep on itself.
abbrev pub NoSleeper : System → System → Type 0
NoSleeper s t =
    (q : ℕ)
    → q < nproc
    → asleep_at t.procs q q ≡ true
    → ((asleep_at s.procs q q ≡ true) × (t.call q ≡ s.call q)) ⊎ (t.call q ≡ no_call)

-- A step that leaves the states, as far as the table's order goes, and puts nobody to sleep.
pub AllAlike-NoneLost :
    (s t : System)
    → Consistent s.procs
    → AllAlike s.procs t.procs
    → NoSleeper s t
    → NoneLost s
    → NoneLost t
AllAlike-NoneLost s t c a n h i q low z f e =
    let l = a.alike i low in
    let parent = sym l.parent_same ∙ f in
    elim (n q (c.parents_live i q low parent).0 e) [
      | inl (was, call) ↦ rw (call, l.pid_same) (h i q low (sym l.zombie_same ∙ z) parent was)
      | inr idle ↦ rw idle refl
    ]

pub Born-NoneLost :
    (p i : ℕ) (s : System) (k : Procs)
    → Born p s.procs k i
    → is_alive s.procs p ≡ true
    → NoneLost s
    → Consistent s.procs
    → NoneLost (with_procs s k)
Born-NoneLost p i s k b lives h c j q low z f e = elim (Bool-cases (i == j)) [
  | inl x ↦
      let clash =
        zombie_dead k j z
          (subst (λ y. is_alive k y ≡ true) ((==_iff i j).0 x) (is_alive-Born p s.procs k i b)) in
      absurd clash
  | inr x ↦
      let o = b.others j (differ i j x) in
      let parent = rw o at f in
      let (q_low, q_lives) = c.parents_live j q low parent in
      let oq = b.others q (λ y. ground (arith, y, q_lives, b.was_free)) in
      rw o (h j q low (rw o at z) parent (rw oq at e))
]

slept : (a a1 c c1 : Bool) → (a1 && not a) ≡ false → c1 ≡ c → (a1 && c1) ≡ true → (a && c) ≡ true
slept a a1 c c1 h e k = ground arith

pub was_asleep : (p p1 : Proc) (c : ℕ) → Rested p p1 → asleep_on p1 c ≡ true → asleep_on p c ≡ true
was_asleep p p1 c r h =
    let e : same_place p1.chan c ≡ same_place p.chan c = ap (λ x. same_place x c) r.chan_same in
    slept (is_sleeping p.state) (is_sleeping p1.state) (same_place p.chan c) (same_place p1.chan c)
      r.not_put_to_sleep e h

-- The sleeper is not the process that exits.
pub Exited-NoneLost :
    (p : ℕ) (status : ℤ) (s : System) (k : Procs)
    → Exited p status s.procs k
    → NoneLost s
    → Consistent s.procs
    → Consistent k
    → NoneLost (with_procs s k)
Exited-NoneLost p status s k x h c c1 j q low z f e = elim (Bool-cases (p == j)) [
  | inl y ↦
      let awake =
        x.parent_awake q (c1.parents_live j q low f).0
          (subst (λ w. (k.proc w).parent ≡ some q) (sym ((==_iff p j).0 y)) f) in
      let clash : true ≡ false = sym e ∙ awake in absurd (cc)
  | inr y ↦
      let r = x.others j (differ p j y) in
      elim (Bool-cases (same_place (s.procs.proc j).parent p)) [
        | inl w ↦
            let (given, awake) = x.adopted j low w in
            let g : some s.procs.initproc ≡ some q = sym given ∙ f in
            let i_is : s.procs.initproc ≡ q = cc in
            let clash : true ≡ false =
              sym (subst (λ v. asleep_at k v v ≡ true) (sym i_is) e) ∙ awake in
            absurd (cc)
        | inr w ↦
            let parent = sym (x.kept j w) ∙ f in
            let rq = x.others q (same_place-some q p (s.procs.proc j).parent parent w) in
            rw (r.pid_same) (
              h j q low (sym r.zombie_same ∙ z) parent
                (was_asleep (s.procs.proc q) (k.proc q) q rq e))
      ]
]
