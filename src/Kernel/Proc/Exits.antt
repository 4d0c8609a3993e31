-- ===== src/Kernel/Proc/Exits.antt =====
-- wakeup, reparent and kexit of proc.c.
pub mod Exited
pub mod Keeps
use ncsc210_g.Base.{
  ℕ, ◌<◌, ◌≡◌, refl, ◌∙◌, ◌≢◌, inl, inr, Bool, true, false, not, ◌&&◌, Option, none, some, arith,
  ltb, ◌==◌, Bool-cases,
}
use ncsc210_g.Kernel.Shm.{nproc}
use ncsc210_g.Kernel.Proc.{
  ProcState, unused, used, sleeping, runnable, running, zombie, Proc, Procs, is_unused, is_zombie,
  is_sleeping, same_place, wake, wakeup,
}

-- Process `q` sleeps on channel `c`.
abbrev pub asleep_at : Procs → (q c : ℕ) → Bool
asleep_at k q c = is_sleeping (k.proc q).state && same_place (k.proc q).chan c

-- A process that was woken at most, and perhaps given to another parent.
pub record Rested (p p1 : Proc) : Type 0 where
  pub unused_same : is_unused p1.state ≡ is_unused p.state
  pub zombie_same : is_zombie p1.state ≡ is_zombie p.state
  pub pid_same : p1.pid ≡ p.pid
  pub xstate_same : p1.xstate ≡ p.xstate
  pub chan_same : p1.chan ≡ p.chan
  pub not_put_to_sleep : (is_sleeping p1.state && not (is_sleeping p.state)) ≡ false

pub and_not_self : (b : Bool) → (b && not b) ≡ false
and_not_self b = ground arith

pub Rested-refl : (p : Proc) → Rested p p
Rested-refl p = record {
  unused_same = refl;
  zombie_same = refl;
  pid_same = refl;
  xstate_same = refl;
  chan_same = refl;
  not_put_to_sleep = and_not_self (is_sleeping p.state);
}

no_sleep_trans : (a b c : Bool) → (b && not a) ≡ false → (c && not b) ≡ false → (c && not a) ≡ false
no_sleep_trans a b c h k = ground arith

pub Rested-trans : (p q r : Proc) → Rested p q → Rested q r → Rested p r
Rested-trans p q r a b = record {
  unused_same = b.unused_same ∙ a.unused_same;
  zombie_same = b.zombie_same ∙ a.zombie_same;
  pid_same = b.pid_same ∙ a.pid_same;
  xstate_same = b.xstate_same ∙ a.xstate_same;
  chan_same = b.chan_same ∙ a.chan_same;
  not_put_to_sleep =
      no_sleep_trans (is_sleeping p.state) (is_sleeping q.state) (is_sleeping r.state)
        a.not_put_to_sleep b.not_put_to_sleep;
}

abbrev woken : Proc → Proc
woken p = record p { state = runnable }

sleeping_is : (st : ProcState) → is_sleeping st ≡ true → st ≡ sleeping
sleeping_is sleeping h = refl
sleeping_is unused h = cc
sleeping_is used h = cc
sleeping_is runnable h = cc
sleeping_is running h = cc
sleeping_is zombie h = cc

woken-Rested : (p : Proc) → p.state ≡ sleeping → Rested p (woken p)
woken-Rested p e = record {
  unused_same = rw e refl;
  zombie_same = rw e refl;
  pid_same = refl;
  xstate_same = refl;
  chan_same = refl;
  not_put_to_sleep = refl;
}

-- What a wakeup does to a process: at most it wakes it, and its parent stays.
abbrev Woken : Proc → Proc → Type 0
Woken p p1 = Rested p p1 × (p1.parent ≡ p.parent)

wake-Woken : (c : Option ℕ) (p : Proc) → Woken p (wake c p)
wake-Woken none p = (Rested-refl p, refl)
wake-Woken (some c) p = elim (Bool-cases (is_sleeping p.state && same_place p.chan c)) [
  | inl e ↦ rw e (woken-Rested p (sleeping_is p.state (ground (arith, e))), refl)
  | inr e ↦ rw e (Rested-refl p, refl)
]

pub wakeup-Woken :
    (caller : ℕ) (c : Option ℕ) (k : Procs) (i : ℕ) → Woken (k.proc i) ((wakeup caller c k).proc i)
unfolding wakeup
wakeup-Woken caller c k i = elim (Bool-cases (not (i == caller) && ltb i nproc)) [
  | inl e ↦ rw e (wake-Woken c (k.proc i))
  | inr e ↦ rw e (Rested-refl (k.proc i), refl)
]

abbrev pub asleep_on : Proc → ℕ → Bool
asleep_on p c = is_sleeping p.state && same_place p.chan c

wake_wakes : (c : ℕ) (p : Proc) → asleep_on (wake (some c) p) c ≡ false
wake_wakes c p = elim (Bool-cases (is_sleeping p.state && same_place p.chan c)) [
  | inl e ↦ rw e refl
  | inr e ↦ rw e e
]

-- Nobody but the caller is left asleep on a channel that is woken.
pub wakeup_wakes :
    (caller c q : ℕ) (k : Procs)
    → q ≢ caller
    → q < nproc
    → asleep_at (wakeup caller (some c) k) q c ≡ false
unfolding wakeup
wakeup_wakes caller c q k ne low =
    let e : (not (q == caller) && ltb q nproc) ≡ true = ground arith in
    rw e (wake_wakes c (k.proc q))
