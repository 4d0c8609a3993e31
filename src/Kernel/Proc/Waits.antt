-- ===== src/Kernel/Proc/Waits.antt =====
-- kwait and kwaitpid of proc.c.
pub mod Any
pub mod Status
use ncsc210_g.Base.{
  ℕ, zero, suc, ◌<◌, ◌≡◌, refl, ◌⊎◌, inl, inr, Bool, true, false, ◌&&◌, Option, none, some, arith,
  if◌then◌else◌, Bool-cases, ℤ, pos, negsuc, minus_one, ◌==ℤ◌, ==ℤ_iff, find_from, find_from-some,
}
use ncsc210_g.Kernel.Shm.{nproc}
use ncsc210_g.Kernel.Proc.{Procs, is_zombie, same_place, freeproc}

-- What a round of the loop of kwait or kwaitpid comes to: a return, with the status that is copied
-- out, or `sleep` on the caller.
pub data Waited : Type 0 where
  returns : Procs → ℤ → Option ℤ → Waited
  sleeps : Waited

-- A zombie is freed unless the copy of its status fails; `copyout` is also true for a null address.
reap : (copyout : Bool) → ℕ → Procs → Waited
unfolding freeproc
reap copyout i k =
    if copyout
    then returns (freeproc i k) (k.proc i).pid (some (k.proc i).xstate)
    else returns k minus_one none

abbrev pub child_of : Procs → (p i : ℕ) → Bool
child_of k p i = same_place (k.proc i).parent p

-- A round of kwait that has met no zombie, with the child that it met.
kwait_living : (p : ℕ) → Procs → Option ℕ → Waited
kwait_living p k none = returns k minus_one none
kwait_living p k (some i) = if (k.proc p).killed then returns k minus_one none else sleeps

-- What a round of kwait does with the first zombie among the children.
kwait_found : (p : ℕ) (copyout : Bool) → Procs → Option ℕ → Waited
unfolding reap kwait_living
kwait_found p copyout k (some i) = reap copyout i k
kwait_found p copyout k none = kwait_living p k (find_from (child_of k p) nproc 0)

abbrev pub zombie_of : Procs → (p i : ℕ) → Bool
zombie_of k p i = child_of k p i && is_zombie (k.proc i).state

unfoldable pub kwait : (p : ℕ) (copyout : Bool) → Procs → Waited
unfolding kwait_found
kwait p copyout k = kwait_found p copyout k (find_from (zombie_of k p) nproc 0)

-- What kwaitpid does with the first child that has the pid.
kwaitpid_found : (p : ℕ) (copyout : Bool) → Procs → Option ℕ → Waited
unfolding reap
kwaitpid_found p copyout k none = returns k minus_one none
kwaitpid_found p copyout k (some i) =
    if is_zombie (k.proc i).state
    then reap copyout i k
    else if (k.proc p).killed
    then returns k minus_one none
    else sleeps

abbrev pub is_child : Procs → (p : ℕ) (pid : ℤ) (i : ℕ) → Bool
is_child k p pid i = same_place (k.proc i).parent p && (k.proc i).pid ==ℤ pid

unfoldable pub kwaitpid : (p : ℕ) (target_pid : ℤ) (copyout : Bool) → Procs → Waited
unfolding kwaitpid_found
kwaitpid p (negsuc n) copyout k = returns k minus_one none
kwaitpid p (pos zero) copyout k = returns k minus_one none
kwaitpid p (pos (suc n)) copyout k =
    kwaitpid_found p copyout k (find_from (is_child k p (pos (suc n))) nproc 0)

-- The child that was waited for: a child of `p` with this pid.
pub record IsChild (k : Procs) (p : ℕ) (target : ℤ) (i : ℕ) : Type 0 where
  pub in_table : i < nproc
  pub parent_is : same_place (k.proc i).parent p ≡ true
  pub pid_is : (k.proc i).pid ≡ target

-- What a round of kwaitpid may come to.
abbrev pub WaitedFor : (p : ℕ) (target : ℤ) → Procs → Waited → Type 0
WaitedFor p target k (returns k1 r status) =
    ((r ≡ minus_one) × (status ≡ none) × (k1 ≡ k))
    ⊎ ((i : ℕ) × IsChild k p target i
        × (is_zombie (k.proc i).state ≡ true)
        × (r ≡ target)
        × (status ≡ some (k.proc i).xstate)
        × (k1 ≡ freeproc i k))
WaitedFor p target k sleeps =
    (i : ℕ) × IsChild k p target i
    × (is_zombie (k.proc i).state ≡ false)
    × ((k.proc p).killed ≡ false)

reap-WaitedFor :
    (p : ℕ) (target : ℤ) (copyout : Bool) (i : ℕ) (k : Procs)
    → IsChild k p target i
    → is_zombie (k.proc i).state ≡ true
    → WaitedFor p target k (reap copyout i k)
unfolding reap
reap-WaitedFor p target true i k c z = inr (i, c, z, c.pid_is, refl, refl)
reap-WaitedFor p target false i k c z = inl (refl, refl, refl)

pub and_left : (a b : Bool) → (a && b) ≡ true → a ≡ true
and_left a b h = ground arith

pub and_right : (a b : Bool) → (a && b) ≡ true → b ≡ true
and_right a b h = ground arith

found-WaitedFor :
    (p : ℕ) (target : ℤ) (copyout : Bool) (k : Procs) (found : Option ℕ)
    → find_from (is_child k p target) nproc 0 ≡ found
    → WaitedFor p target k (kwaitpid_found p copyout k found)
unfolding kwaitpid_found
found-WaitedFor p target copyout k none e = inl (refl, refl, refl)
found-WaitedFor p target copyout k (some i) e =
    let (_, low, hit, _) = find_from-some (is_child k p target) nproc 0 i e in
    let parent = and_left (same_place (k.proc i).parent p) ((k.proc i).pid ==ℤ target) hit in
    let pid = and_right (same_place (k.proc i).parent p) ((k.proc i).pid ==ℤ target) hit in
    let c : IsChild k p target i = record {
      in_table = omega (arith, low);
      parent_is = parent;
      pid_is = (==ℤ_iff (k.proc i).pid target).0 pid;
    } in
    elim (Bool-cases (is_zombie (k.proc i).state)) [
      | inl z ↦ rw z (reap-WaitedFor p target copyout i k c z)
      | inr z ↦ elim (Bool-cases (k.proc p).killed) [
        | inl d ↦ rw (z, d) (inl (refl, refl, refl))
        | inr d ↦ rw (z, d) (i, c, z, d)
      ]
    ]

-- A round of kwaitpid returns -1 and changes nothing, or it returns the pid it was given, with the
-- status of a child of the caller that has this pid and has exited, and that child's slot is freed;
-- it sleeps only while such a child has not exited and the caller is not killed.
pub kwaitpid_lem :
    (p : ℕ) (target : ℤ) (copyout : Bool) (k : Procs)
    → WaitedFor p target k (kwaitpid p target copyout k)
unfolding kwaitpid
kwaitpid_lem p (negsuc n) copyout k = inl (refl, refl, refl)
kwaitpid_lem p (pos zero) copyout k = inl (refl, refl, refl)
kwaitpid_lem p (pos (suc n)) copyout k =
    found-WaitedFor p (pos (suc n)) copyout k (find_from (is_child k p (pos (suc n))) nproc 0) refl
