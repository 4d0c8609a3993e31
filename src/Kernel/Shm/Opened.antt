-- ===== src/Kernel/Shm/Opened.antt =====
-- shmget and the first attachment of shmat keep the invariant of shared memory.
use ncsc210_g.Base.{
  ℕ, ◌+◌, ◌-◌, ◌/◌, ◌<◌, ◌≡◌, refl, inl, inr, Bool, true, false, not, ◌&&◌, [], arith, Bool-cases,
  Option-cases, take, ℤ, ◌==ℤ◌, update, find_from, find_from-some,
}
use ncsc210_g.Kernel.Shm.{
  max_shm, pgsize, nproc, Memory, kalloc_pages, kfree_pages, size_of, shmget_new, sys_shmget,
  map_pages, shm_address, shmat_new,
}
use ncsc210_g.Kernel.Shm.Attached.{attached, Inv, write_unused-Inv, attach-Inv}

shmget_new-Inv :
    (key : ℤ) (size i : ℕ) (m : Memory)
    → Inv m
    → (m.shmtable i).used ≡ false
    → Inv (shmget_new key size i m).0
unfolding shmget_new
shmget_new-Inv key size i m v h =
    let npages = (size + pgsize - 1) / pgsize in
    let r = kalloc_pages npages [] m.freelist in
    elim (Bool-cases r.0) [
      | inl e ↦ rw e (
          write_unused-Inv m i
            (record {
              used = true;
              key = key;
              size = size;
              npages = npages;
              pa = r.1;
              refcount = 0;
            })
            r.2 v h refl)
      | inr e ↦ rw e (
          write_unused-Inv m i
            (record {
              used = false;
              key = key;
              size = size;
              npages = npages;
              pa = r.1;
              refcount = 0;
            })
            (kfree_pages r.1 r.2) v h refl)
    ]

pub shmget-Inv : (key size : ℤ) (m : Memory) → Inv m → Inv (sys_shmget key size m).0
unfolding sys_shmget
shmget-Inv key size m v = elim (Option-cases (size_of size)) [
  | inl e ↦ rw (e, sys_shmget) v
  | inr (s, e) ↦
      elim (Option-cases
        (find_from (λ i. (m.shmtable i).used && (m.shmtable i).key ==ℤ key) max_shm 0)) [
          | inr (i, f) ↦ rw (e, sys_shmget, f) v
          | inl f ↦ elim (Option-cases (find_from (λ i. not (m.shmtable i).used) max_shm 0)) [
            | inl g ↦ rw (e, sys_shmget, f, g) v
            | inr (i, g) ↦
                let (low, high, hit, before) =
                  find_from-some (λ i. not (m.shmtable i).used) max_shm 0 i g in
                rw (e, sys_shmget, f, g) (shmget_new-Inv key s i m v (ground (arith, hit)))
          ]
        ]
]

pub shmat_new-Inv :
    (maps : ℕ → Bool) (p n : ℕ) (m : Memory)
    → Inv m
    → p < nproc
    → n < max_shm
    → (m.shmtable n).used ≡ true
    → attached m n p ≡ false
    → Inv (shmat_new maps p n m).0
unfolding shmat_new
shmat_new-Inv maps p n m v low small u free =
    let seg = m.shmtable n in
    let r = map_pages maps (shm_address n) 0 (take seg.npages seg.pa) (m.pagetable p) in
    let there : 0 < shm_address n = omega arith in
    elim (Bool-cases r.0) [
      | inl e ↦
          rw e (attach-Inv m p n (shm_address n) (update m.pagetable p r.1) v low there u free)
      | inr e ↦ rw e (record { counted = v.counted; backed = v.backed })
    ]
