-- ===== src/Kernel/Shm/Held.antt =====
-- What a new segment and a detachment do to where the pages are.
use ncsc210_g.Base.{
  ℕ, ◌+◌, ◌-◌, ◌/◌, ◌<◌, ◌≡◌, refl, inl, inr, true, false, not, ◌&&◌, [], arith, leb, Bool-cases,
  Option-cases, take, ℤ, pos, ◌==ℤ◌, update, find_from, find_from-some,
}
use ncsc210_g.Kernel.Shm.{
  max_shm, pgsize, Shmseg, Memory, kalloc_pages, kfree_pages, size_of, shmget_new, sys_shmget,
  uvmunmap, detach,
}
use ncsc210_g.Kernel.Shm.Pages.{
  copies, pages_of, holdings, kalloc_pages-copies, length-kalloc_pages, kfree_pages-copies,
  take_all, write-holdings,
}

copies_nil : (x : ℕ) → copies x [] ≡ 0
unfolding copies
copies_nil x = refl

empty_slot : (x : ℕ) (seg : Shmseg) → seg.used ≡ false → copies x (pages_of seg) ≡ 0
unfolding copies
empty_slot x seg u = rw u refl

shmget_new-holdings :
    (x : ℕ) (key : ℤ) (size i : ℕ) (m : Memory)
    → i < max_shm
    → (m.shmtable i).used ≡ false
    → holdings x (shmget_new key size i m).0 ≡ holdings x m
unfolding shmget_new
shmget_new-holdings x key size i m low u =
    let npages = (size + pgsize - 1) / pgsize in
    let r = kalloc_pages npages [] m.freelist in
    let all = kalloc_pages-copies x npages [] m.freelist in
    let none_there : copies x (pages_of (m.shmtable i)) ≡ 0 = empty_slot x (m.shmtable i) u in
    elim (Bool-cases r.0) [
      | inl e ↦
          let seg : Shmseg = record {
            used = true;
            key = key;
            size = size;
            npages = npages;
            pa = r.1;
            refcount = 0;
          } in
          let whole : take npages r.1 ≡ r.1 =
            take_all npages r.1 (omega (arith, length-kalloc_pages npages [] m.freelist e)) in
          let balance : copies x (take npages r.1) + copies x r.2
              ≡ copies x (pages_of (m.shmtable i)) + copies x m.freelist =
            rw whole (omega (arith, all, none_there, copies_nil x)) in
          rw e (
            write-holdings x m (record m { shmtable = update m.shmtable i seg; freelist = r.2 }) i
              seg refl low balance)
      | inr e ↦
          let seg : Shmseg = record {
            used = false;
            key = key;
            size = size;
            npages = npages;
            pa = r.1;
            refcount = 0;
          } in
          let freed = kfree_pages-copies x r.1 r.2 in
          let balance : copies x [] + copies x (kfree_pages r.1 r.2)
              ≡ copies x (pages_of (m.shmtable i)) + copies x m.freelist =
            omega (arith, all, none_there, freed, copies_nil x) in
          rw e (
            write-holdings x m
              (record m { shmtable = update m.shmtable i seg; freelist = kfree_pages r.1 r.2 }) i
              seg refl low balance)
    ]

pub detach-holdings :
    (x p n : ℕ) (m : Memory)
    → n < max_shm
    → (m.shmtable n).used ≡ true
    → holdings x (detach p n m) ≡ holdings x m
unfolding detach
detach-holdings x p n m low u =
    let seg = m.shmtable n in
    let cleared : Shmseg = record {
      used = false;
      key = pos 0;
      size = 0;
      npages = 0;
      pa = [];
      refcount = 0;
    } in
    let less : Shmseg = record seg { refcount = seg.refcount - 1 } in
    let va = update m.shm_va p (update (m.shm_va p) n 0) in
    let pt = update m.pagetable p (uvmunmap (m.shm_va p n) seg.npages (m.pagetable p)) in
    let freed = kfree_pages-copies x (take seg.npages seg.pa) m.freelist in
    let there : pages_of seg ≡ take seg.npages seg.pa = rw u refl in
    elim (Bool-cases (leb (seg.refcount - 1) 0)) [
      | inl e ↦
          let balance : copies x [] + copies x (kfree_pages (take seg.npages seg.pa) m.freelist)
              ≡ copies x (pages_of seg) + copies x m.freelist =
            rw there (omega (arith, freed, copies_nil x)) in
          rw e (
            write-holdings x m
              (record {
                shmtable = update m.shmtable n cleared;
                freelist = kfree_pages (take seg.npages seg.pa) m.freelist;
                shm_va = va;
                pagetable = pt;
              })
              n cleared refl low balance)
      | inr e ↦ rw e (
          write-holdings x m
            (record {
              shmtable = update m.shmtable n less;
              freelist = m.freelist;
              shm_va = va;
              pagetable = pt;
            })
            n less refl low refl)
    ]

pub shmget-holdings :
    (x : ℕ) (key size : ℤ) (m : Memory) → holdings x (sys_shmget key size m).0 ≡ holdings x m
unfolding sys_shmget
shmget-holdings x key size m = elim (Option-cases (size_of size)) [
  | inl e ↦ rw (e, sys_shmget) refl
  | inr (s, e) ↦
      elim (Option-cases
        (find_from (λ i. (m.shmtable i).used && (m.shmtable i).key ==ℤ key) max_shm 0)) [
          | inr (i, f) ↦ rw (e, sys_shmget, f) refl
          | inl f ↦ elim (Option-cases (find_from (λ i. not (m.shmtable i).used) max_shm 0)) [
            | inl g ↦ rw (e, sys_shmget, f, g) refl
            | inr (i, g) ↦
                let (low, high, hit, before) =
                  find_from-some (λ i. not (m.shmtable i).used) max_shm 0 i g in
                rw (e, sys_shmget, f, g)
                  (shmget_new-holdings x key s i m high (ground (arith, hit)))
          ]
        ]
]
