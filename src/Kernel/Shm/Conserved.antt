-- ===== src/Kernel/Shm/Conserved.antt =====
-- The shared memory calls neither lose a page nor hand it out twice.
use ncsc210_g.Base.{
  ℕ, zero, suc, ◌+◌, ◌≤◌, ◌<◌, ◌≡◌, refl, ◌∙◌, inl, inr, Bool, true, false, List, [], ◌∷◌, arith,
  ◌==◌, Bool-cases, Option-cases, take, ℤ, update,
}
use ncsc210_g.Kernel.Shm.{
  max_shm, Shmseg, Memory, seg_of, map_pages, shm_address, shmat_new, shmat_checked, sys_shmat,
  detach_checked, sys_shmdt, detach_from, freeproc_shm,
}
use ncsc210_g.Kernel.Shm.Calls.{Call, shmget, shmat, shmdt, exits, perform, run, seg_of-lt}
use ncsc210_g.Kernel.Shm.Pages.{holdings, write-holdings}
use ncsc210_g.Kernel.Shm.Held.{detach-holdings, shmget-holdings}

shmat_new-holdings :
    (x : ℕ) (maps : ℕ → Bool) (p n : ℕ) (m : Memory)
    → n < max_shm
    → holdings x (shmat_new maps p n m).0 ≡ holdings x m
unfolding shmat_new holdings
shmat_new-holdings x maps p n m low =
    let seg = m.shmtable n in
    let r = map_pages maps (shm_address n) 0 (take seg.npages seg.pa) (m.pagetable p) in
    let more : Shmseg = record seg { refcount = seg.refcount + 1 } in
    elim (Bool-cases r.0) [
      | inl e ↦ rw e (
          write-holdings x m
            (record m {
              shmtable = update m.shmtable n more;
              shm_va = update m.shm_va p (update (m.shm_va p) n (shm_address n));
              pagetable = update m.pagetable p r.1;
            })
            n more refl low refl)
      | inr e ↦ rw e refl
    ]

shmat_checked-holdings :
    (x : ℕ) (used detached : Bool) (maps : ℕ → Bool) (p n : ℕ) (m : Memory)
    → n < max_shm
    → holdings x (shmat_checked used detached maps p n m).0 ≡ holdings x m
unfolding shmat_checked
shmat_checked-holdings x false detached maps p n m low = refl
shmat_checked-holdings x true false maps p n m low = refl
shmat_checked-holdings x true true maps p n m low = shmat_new-holdings x maps p n m low

detach_checked-holdings :
    (x : ℕ) (used detached : Bool) (p n : ℕ) (m : Memory)
    → n < max_shm
    → (m.shmtable n).used ≡ used
    → holdings x (detach_checked used detached p n m).0 ≡ holdings x m
unfolding detach_checked
detach_checked-holdings x true false p n m low u = detach-holdings x p n m low u
detach_checked-holdings x true true p n m low u = refl
detach_checked-holdings x false detached p n m low u = refl

shmat-holdings :
    (x : ℕ) (maps : ℕ → Bool) (p : ℕ) (id : ℤ) (m : Memory)
    → holdings x (sys_shmat maps p id m).0 ≡ holdings x m
unfolding sys_shmat
shmat-holdings x maps p id m = elim (Option-cases (seg_of id)) [
  | inl e ↦ rw (e, sys_shmat) refl
  | inr (n, e) ↦
      rw (e, sys_shmat)
        (shmat_checked-holdings x (m.shmtable n).used (m.shm_va p n == 0) maps p n m
          (seg_of-lt id n e))
]

shmdt-holdings : (x p : ℕ) (id : ℤ) (m : Memory) → holdings x (sys_shmdt p id m).0 ≡ holdings x m
unfolding sys_shmdt
shmdt-holdings x p id m = elim (Option-cases (seg_of id)) [
  | inl e ↦ rw (e, sys_shmdt) refl
  | inr (n, e) ↦
      rw (e, sys_shmdt)
        (detach_checked-holdings x (m.shmtable n).used (m.shm_va p n == 0) p n m (seg_of-lt id n e)
          refl)
]

detach_from-holdings :
    (x left i p : ℕ) (m : Memory)
    → i + left ≤ max_shm
    → holdings x (detach_from left i p m) ≡ holdings x m
unfolding detach_from
detach_from-holdings x zero i p m h = refl
detach_from-holdings x (suc left) i p m h =
    let m1 = (detach_checked (m.shmtable i).used (m.shm_va p i == 0) p i m).0 in
    detach_from-holdings x left (i + 1) p m1 (omega arith)
    ∙ detach_checked-holdings x (m.shmtable i).used (m.shm_va p i == 0) p i m (omega arith) refl

perform-holdings : (x : ℕ) (c : Call) (m : Memory) → holdings x (perform c m) ≡ holdings x m
unfolding perform freeproc_shm
perform-holdings x (shmget key size) m = shmget-holdings x key size m
perform-holdings x (shmat maps p id low) m = shmat-holdings x maps p id m
perform-holdings x (shmdt p id low) m = shmdt-holdings x p id m
perform-holdings x (exits p low) m = detach_from-holdings x max_shm 0 p m (omega arith)

-- Through any sequence of calls and exits, from any memory, each page is as often on the free list
-- and in the segments, taken together, as before: none is lost and none is doubled.
pub pages_conserved : (cs : List Call) (m : Memory) (x : ℕ) → holdings x (run cs m) ≡ holdings x m
unfolding run
pages_conserved [] m x = refl
pages_conserved (c ∷ cs) m x = pages_conserved cs (perform c m) x ∙ perform-holdings x c m
