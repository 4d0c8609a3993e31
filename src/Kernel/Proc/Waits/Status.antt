-- ===== src/Kernel/Proc/Waits/Status.antt =====
-- The status of an exit on its way to the parent.
use ncsc210_g.Base.{
  ℕ, suc, ◌<◌, ◌≡◌, refl, sym, ap, ◌∙◌, ◌≢◌, true, false, Option, none, some, arith, ℤ, pos, ◌==ℤ◌,
  ==ℤ_iff, find_from, find_from-some, find_from-none,
}
use ncsc210_g.Kernel.Proc.Exits.Exited.{kexit_lem}
use ncsc210_g.Kernel.Proc.Exits.Keeps.{Exited-Consistent}
use ncsc210_g.Kernel.Shm.{nproc}
use ncsc210_g.Kernel.Proc.{running, zombie, Procs, same_place, freeproc, kexit}
use ncsc210_g.Kernel.Proc.Consistent.{exists_at, is_alive, Consistent}
use ncsc210_g.Kernel.Proc.Waits.{returns, reap, kwaitpid_found, is_child, kwaitpid, and_right}

-- A child with a pid that was given out is the one that the search finds.
find_child :
    (k : Procs) (p i m : ℕ) (found : Option ℕ)
    → Consistent k
    → i < nproc
    → exists_at k i ≡ true
    → (k.proc i).parent ≡ some p
    → (k.proc i).pid ≡ pos (suc m)
    → find_from (is_child k p (pos (suc m))) nproc 0 ≡ found
    → found ≡ some i
find_child k p i m none c low e f g h =
    let one : is_child k p (pos (suc m)) i ≡ true = rw (f, g) (ground arith) in
    let none_is =
      find_from-none (is_child k p (pos (suc m))) nproc 0 h i (omega arith) (omega arith) in
    let clash : true ≡ false = sym one ∙ none_is in absurd (cc)
find_child k p i m (some j) c low e f g h =
    let (_, j_low, hit, _) = find_from-some (is_child k p (pos (suc m))) nproc 0 j h in
    let pid = and_right (same_place (k.proc j).parent p) ((k.proc j).pid ==ℤ pos (suc m)) hit in
    let same : (k.proc i).pid ≡ (k.proc j).pid =
      g ∙ sym ((==ℤ_iff (k.proc j).pid (pos (suc m))).0 pid) in
    ap some (sym (c.pids_differ i j low (omega (arith, j_low)) e same))

-- A zombie is what kwaitpid of its pid returns to its parent.
kwaitpid-zombie :
    (k : Procs) (p i m : ℕ)
    → Consistent k
    → i < nproc
    → (k.proc i).state ≡ zombie
    → (k.proc i).parent ≡ some p
    → (k.proc i).pid ≡ pos (suc m)
    → kwaitpid p (pos (suc m)) true k
      ≡ returns (freeproc i k) (k.proc i).pid (some (k.proc i).xstate)
unfolding kwaitpid kwaitpid_found reap
kwaitpid-zombie k p i m c low z f g =
    let there : exists_at k i ≡ true = rw z refl in
    rw (find_child k p i m (find_from (is_child k p (pos (suc m))) nproc 0) c low there f g refl, z)
      refl

pub running_lives : (k : Procs) (p : ℕ) → (k.proc p).state ≡ running → is_alive k p ≡ true
running_lives k p e = rw e refl

-- In a table that is in order: when a running process has exited, and another one is its parent, then
-- the parent's kwaitpid of its pid returns this pid and the status of the exit, and frees the slot.
pub kwaitpid-kexit :
    (k k1 : Procs) (p q m : ℕ) (status : ℤ)
    → Consistent k
    → p < nproc
    → (k.proc p).state ≡ running
    → (k.proc p).pid ≡ pos (suc m)
    → (k.proc p).parent ≡ some q
    → q ≢ p
    → kexit p status k ≡ some k1
    → kwaitpid q (pos (suc m)) true k1 ≡ returns (freeproc p k1) (pos (suc m)) (some status)
kwaitpid-kexit k k1 p q m status c low runs pid parent ne e =
    let lives = running_lives k p runs in
    let x = kexit_lem p status k k1 c.init_lives.0 e in
    let c1 = Exited-Consistent p status k k1 c lives x in
    let other : same_place (k.proc p).parent p ≡ false = rw parent (ground (arith, ne)) in
    let pid1 = x.pid_same ∙ pid in
    kwaitpid-zombie k1 q p m c1 low x.zombie_is (x.kept p other ∙ parent) pid1
    ∙ ap (λ r. returns (freeproc p k1) r (some (k1.proc p).xstate)) pid1
    ∙ ap (λ r. returns (freeproc p k1) (pos (suc m)) (some r)) x.xstate_is
