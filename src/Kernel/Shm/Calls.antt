-- ===== src/Kernel/Shm/Calls.antt =====
-- Any sequence of shared memory calls, and exits, of processes.
use ncsc210_g.Base.{
  ℕ, zero, suc, ◌+◌, ◌-◌, ◌<◌, ◌≡◌, refl, sym, ◌∙◌, inl, inr, Bool, true, false, some, List, [],
  ◌∷◌, arith, leb, ◌==◌, ==_iff, Bool-cases, Option-cases, take, ℤ, pos, negsuc, update,
  count_below, count_below-none,
}
use ncsc210_g.Kernel.Shm.{
  max_shm, nproc, Memory, kfree_pages, sys_shmget, seg_of, uvmunmap, shmat_checked, sys_shmat,
  detach, detach_checked, sys_shmdt, detach_from, freeproc_shm,
}
use ncsc210_g.Kernel.Shm.Attached.{attached, Inv, boot, boot-Inv, detach_to-Inv}
use ncsc210_g.Kernel.Shm.Opened.{shmget-Inv, shmat_new-Inv}

pub data Call : Type 0 where
  shmget : (key size : ℤ) → Call
  shmat : (maps : ℕ → Bool) (p : ℕ) (id : ℤ) → p < nproc → Call
  shmdt : (p : ℕ) (id : ℤ) → p < nproc → Call
  exits : (p : ℕ) → p < nproc → Call

unfoldable pub perform : Call → Memory → Memory
unfolding sys_shmget sys_shmat sys_shmdt freeproc_shm
perform (shmget key size) m = (sys_shmget key size m).0
perform (shmat maps p id low) m = (sys_shmat maps p id m).0
perform (shmdt p id low) m = (sys_shmdt p id m).0
perform (exits p low) m = freeproc_shm p m

unfoldable pub run : List Call → Memory → Memory
unfolding perform
run [] m = m
run (c ∷ cs) m = run cs (perform c m)

pub seg_of-lt : (id : ℤ) (n : ℕ) → seg_of id ≡ some n → n < max_shm
seg_of-lt (pos k) n h = ground (arith, h)
seg_of-lt (negsuc k) n h = cc

shmat_checked-Inv :
    (used detached : Bool) (maps : ℕ → Bool) (p n : ℕ) (m : Memory)
    → Inv m
    → p < nproc
    → n < max_shm
    → (m.shmtable n).used ≡ used
    → (m.shm_va p n == 0) ≡ detached
    → Inv (shmat_checked used detached maps p n m).0
unfolding shmat_checked
shmat_checked-Inv false detached maps p n m v low small u f = v
shmat_checked-Inv true false maps p n m v low small u f = v
shmat_checked-Inv true true maps p n m v low small u f =
    shmat_new-Inv maps p n m v low small u (rw f refl)

shmat-Inv :
    (maps : ℕ → Bool) (p : ℕ) (id : ℤ) (m : Memory)
    → Inv m
    → p < nproc
    → Inv (sys_shmat maps p id m).0
unfolding sys_shmat
shmat-Inv maps p id m v low = elim (Option-cases (seg_of id)) [
  | inl e ↦ rw (e, sys_shmat) v
  | inr (n, e) ↦
      rw (e, sys_shmat)
        (shmat_checked-Inv (m.shmtable n).used (m.shm_va p n == 0) maps p n m v low
          (seg_of-lt id n e) refl refl)
]

attached-counted :
    (p n : ℕ) (m : Memory) → Inv m → p < nproc → attached m n p ≡ true → 0 < (m.shmtable n).refcount
attached-counted p n m v low here = elim (Bool-cases ((m.shmtable n).refcount == 0)) [
  | inl e ↦
      let zeroed = (==_iff (m.shmtable n).refcount 0).0 e in
      let missing = count_below-none (attached m n) nproc p (sym (v.counted n) ∙ zeroed) low in
      absurd (ground (arith, missing, here))
  | inr e ↦ ground (arith, e)
]

detach-Inv :
    (p n : ℕ) (m : Memory)
    → Inv m
    → p < nproc
    → (m.shmtable n).used ≡ true
    → attached m n p ≡ true
    → Inv (detach p n m)
unfolding detach
detach-Inv p n m v low u here =
    let seg = m.shmtable n in
    let counted : 0 < seg.refcount = attached-counted p n m v low here in
    let pt = update m.pagetable p (uvmunmap (m.shm_va p n) seg.npages (m.pagetable p)) in
    elim (Bool-cases (leb (seg.refcount - 1) 0)) [
      | inl e ↦ rw e (
          detach_to-Inv m p n
            (record { used = false; key = pos 0; size = 0; npages = 0; pa = []; refcount = 0 })
            (kfree_pages (take seg.npages seg.pa) m.freelist) pt v low u here
            (ground (arith, e, counted)) (inr refl))
      | inr e ↦ rw e (
          detach_to-Inv m p n (record seg { refcount = seg.refcount - 1 }) m.freelist pt v low u
            here (omega (arith, counted)) (inl u))
    ]

detach_checked-Inv :
    (used detached : Bool) (p n : ℕ) (m : Memory)
    → Inv m
    → p < nproc
    → (m.shmtable n).used ≡ used
    → (m.shm_va p n == 0) ≡ detached
    → Inv (detach_checked used detached p n m).0
unfolding detach_checked
detach_checked-Inv true false p n m v low u f = detach-Inv p n m v low u (rw f refl)
detach_checked-Inv true true p n m v low u f = v
detach_checked-Inv false detached p n m v low u f = v

shmdt-Inv : (p : ℕ) (id : ℤ) (m : Memory) → Inv m → p < nproc → Inv (sys_shmdt p id m).0
unfolding sys_shmdt
shmdt-Inv p id m v low = elim (Option-cases (seg_of id)) [
  | inl e ↦ rw (e, sys_shmdt) v
  | inr (n, e) ↦
      rw (e, sys_shmdt)
        (detach_checked-Inv (m.shmtable n).used (m.shm_va p n == 0) p n m v low refl refl)
]

detach_from-Inv : (left i p : ℕ) (m : Memory) → Inv m → p < nproc → Inv (detach_from left i p m)
unfolding detach_from
detach_from-Inv zero i p m v low = v
detach_from-Inv (suc left) i p m v low =
    detach_from-Inv left (i + 1) p (detach_checked (m.shmtable i).used (m.shm_va p i == 0) p i m).0
      (detach_checked-Inv (m.shmtable i).used (m.shm_va p i == 0) p i m v low refl refl) low

perform-Inv : (c : Call) (m : Memory) → Inv m → Inv (perform c m)
unfolding perform freeproc_shm
perform-Inv (shmget key size) m v = shmget-Inv key size m v
perform-Inv (shmat maps p id low) m v = shmat-Inv maps p id m v low
perform-Inv (shmdt p id low) m v = shmdt-Inv p id m v low
perform-Inv (exits p low) m v = detach_from-Inv max_shm 0 p m v low

run-Inv : (cs : List Call) (m : Memory) → Inv m → Inv (run cs m)
unfolding run
run-Inv [] m v = v
run-Inv (c ∷ cs) m v = run-Inv cs (perform c m) (perform-Inv c m v)

-- After any sequence of calls and exits from boot, the reference count of each segment is the
-- number of processes that are attached to it.
pub refcount_lem :
    (free : List ℕ) (cs : List Call) (n : ℕ)
    → ((run cs (boot free)).shmtable n).refcount
      ≡ count_below (attached (run cs (boot free)) n) nproc
refcount_lem free cs n = (run-Inv cs (boot free) (boot-Inv free)).counted n

-- After any sequence of calls and exits from boot, a segment to which a process is attached is in
-- use, with a reference count above zero.
pub attached_in_use :
    (free : List ℕ) (cs : List Call) (n p : ℕ)
    → p < nproc
    → attached (run cs (boot free)) n p ≡ true
    → (((run cs (boot free)).shmtable n).used ≡ true)
      × (0 < ((run cs (boot free)).shmtable n).refcount)
attached_in_use free cs n p low here =
    let v = run-Inv cs (boot free) (boot-Inv free) in
    (v.backed n p low here, attached-counted p n (run cs (boot free)) v low here)
