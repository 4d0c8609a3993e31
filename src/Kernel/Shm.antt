-- ===== src/Kernel/Shm.antt =====
-- The shared memory calls of xv6-riscv/kernel/sysproc.c in G16_Project1_xv6CustomizeSystemCalls, the
-- detach in freeproc of proc.c, and the page list of kalloc.c. Every call holds shmlock throughout.
-- Processes go by their place in the table.
mod Tests
pub mod Opened
pub mod Calls
pub mod Attached
pub mod Pages
pub mod Held
pub mod Conserved
pub mod Exec
use ncsc210_g.Base.{
  ℕ, zero, suc, ◌+◌, ◌-◌, ◌*◌, ◌/◌, ◌^◌, Bool, true, false, not, ◌&&◌, ◌||◌, Option, none, some,
  List, [], ◌∷◌, ◌++◌, ltb, leb, ◌==◌, if◌then◌else◌, take, ℤ, pos, negsuc, minus_one, ◌==ℤ◌,
  update, find_from,
}

-- MAX_SHM
abbrev pub max_shm : ℕ
max_shm = 8

-- PGSIZE
abbrev pub pgsize : ℕ
pgsize = 4096

-- MAX_SHM_SIZE
abbrev pub max_shm_size : ℕ
max_shm_size = 4 * 4096

-- NPROC
abbrev pub nproc : ℕ
nproc = 64

-- TRAPFRAME
abbrev pub trapframe : ℕ
trapframe = 2 ^ 38 - 2 * 4096

-- struct shmseg. The array `pa` is the list of its entries that are in use.
pub record Shmseg : Type 0 where
  pub used : Bool
  pub key : ℤ
  pub size : ℕ
  pub npages : ℕ
  pub pa : List ℕ
  pub refcount : ℕ

-- shmtable, kmem.freelist, and of each process shm_va and the page table.
pub record Memory : Type 0 where
  pub shmtable : ℕ → Shmseg
  pub freelist : List ℕ
  pub shm_va : ℕ → ℕ → ℕ
  pub pagetable : ℕ → ℕ → Option ℕ

-- Repeated calls of kalloc: whether all succeed, the pages, and what stays on the list.
pub kalloc_pages : (n : ℕ) (got freelist : List ℕ) → Bool × List ℕ × List ℕ
kalloc_pages zero got free = (true, got, free)
kalloc_pages (suc n) got [] = (false, got, [])
kalloc_pages (suc n) got (page ∷ free) = kalloc_pages n (got ++ page ∷ []) free

-- Repeated calls of kfree.
pub kfree_pages : (pages freelist : List ℕ) → List ℕ
kfree_pages [] free = free
kfree_pages (page ∷ pages) free = kfree_pages pages (page ∷ free)

-- The test on `size`.
abbrev pub size_of : ℤ → Option ℕ
size_of (negsuc n) = none
size_of (pos n) = if n == 0 || ltb max_shm_size n then none else some n

-- A new segment in slot `i`.
shmget_new : (key : ℤ) (size i : ℕ) → Memory → Memory × ℤ
unfolding kalloc_pages kfree_pages
shmget_new key size i m =
    let npages = (size + pgsize - 1) / pgsize in
    let (all, pages, free) = kalloc_pages npages [] m.freelist in
    if all
    then (
      record m {
        shmtable = update m.shmtable i (record {
          used = true;
          key = key;
          size = size;
          npages = npages;
          pa = pages;
          refcount = 0;
        });
        freelist = free;
      },
      pos i,
    )
    else (
      record m {
        shmtable = update m.shmtable i (record {
          used = false;
          key = key;
          size = size;
          npages = npages;
          pa = pages;
          refcount = 0;
        });
        freelist = kfree_pages pages free;
      },
      minus_one,
    )

unfoldable pub sys_shmget : (key size : ℤ) → Memory → Memory × ℤ
unfolding find_from shmget_new
sys_shmget key size m = elim (size_of size) [
  | none ↦ (m, minus_one)
  | some n ↦ elim (find_from (λ i. (m.shmtable i).used && (m.shmtable i).key ==ℤ key) max_shm 0) [
    | some i ↦ (m, pos i)
    | none ↦ elim (find_from (λ i. not (m.shmtable i).used) max_shm 0) [
      | none ↦ (m, minus_one)
      | some i ↦ shmget_new key n i m
    ]
  ]
]

-- The test on `id`.
abbrev pub seg_of : ℤ → Option ℕ
seg_of (negsuc n) = none
seg_of (pos n) = if leb max_shm n then none else some n

-- uvmunmap of `n` pages from `va` on.
pub uvmunmap : (va n : ℕ) → (ℕ → Option ℕ) → ℕ → Option ℕ
uvmunmap va zero pt = pt
uvmunmap va (suc n) pt = update (uvmunmap va n pt) (va + n * pgsize) none

-- The loop over mappages, from page `j` on; `maps j` says whether that call succeeds.
pub map_pages :
    (maps : ℕ → Bool) (va j : ℕ) (pages : List ℕ) → (ℕ → Option ℕ) → Bool × (ℕ → Option ℕ)
unfolding uvmunmap
map_pages maps va j [] pt = (true, pt)
map_pages maps va j (page ∷ pages) pt =
    let next = map_pages maps va (suc j) pages (update pt (va + j * pgsize) (some page)) in
    if maps j then next else (false, uvmunmap va j pt)

-- Where segment `n` is mapped in every process.
abbrev pub shm_address : ℕ → ℕ
shm_address n = trapframe - (n + 1) * max_shm_size

-- A segment that is not attached yet.
pub shmat_new : (maps : ℕ → Bool) (p n : ℕ) → Memory → Memory × ℤ
unfolding map_pages
shmat_new maps p n m =
    let seg = m.shmtable n in
    let va = shm_address n in
    let (mapped, pt) = map_pages maps va 0 (take seg.npages seg.pa) (m.pagetable p) in
    if mapped
    then (
      record m {
        shmtable = update m.shmtable n (record seg { refcount = seg.refcount + 1 });
        shm_va = update m.shm_va p (update (m.shm_va p) n va);
        pagetable = update m.pagetable p pt;
      },
      pos va,
    )
    else (record m { pagetable = update m.pagetable p pt }, minus_one)

-- The tests on the segment: whether it is in use, and not attached yet.
pub shmat_checked : (used detached : Bool) (maps : ℕ → Bool) (p n : ℕ) → Memory → Memory × ℤ
unfolding shmat_new
shmat_checked false detached maps p n m = (m, minus_one)
shmat_checked true false maps p n m = (m, pos (m.shm_va p n))
shmat_checked true true maps p n m = shmat_new maps p n m

unfoldable pub sys_shmat : (maps : ℕ → Bool) (p : ℕ) (id : ℤ) → Memory → Memory × ℤ
unfolding shmat_checked
sys_shmat maps p id m = elim (seg_of id) [
  | none ↦ (m, minus_one)
  | some n ↦ shmat_checked (m.shmtable n).used (m.shm_va p n == 0) maps p n m
]

-- What shmdt and freeproc do with a segment that is attached.
pub detach : (p n : ℕ) → Memory → Memory
unfolding uvmunmap kfree_pages
detach p n m =
    let seg = m.shmtable n in
    let last = leb (seg.refcount - 1) 0 in
    record {
      shmtable = update m.shmtable n (
          if last
          then record { used = false; key = pos 0; size = 0; npages = 0; pa = []; refcount = 0 }
          else record seg { refcount = seg.refcount - 1 });
      freelist = if last then kfree_pages (take seg.npages seg.pa) m.freelist else m.freelist;
      shm_va = update m.shm_va p (update (m.shm_va p) n 0);
      pagetable = update m.pagetable p (uvmunmap (m.shm_va p n) seg.npages (m.pagetable p));
    }

-- A detach if the segment is in use and attached.
detach_checked : (used detached : Bool) (p n : ℕ) → Memory → Memory × ℤ
unfolding detach
detach_checked true false p n m = (detach p n m, pos 0)
detach_checked _ _ p n m = (m, minus_one)

unfoldable pub sys_shmdt : (p : ℕ) (id : ℤ) → Memory → Memory × ℤ
unfolding detach_checked
sys_shmdt p id m = elim (seg_of id) [
  | none ↦ (m, minus_one)
  | some n ↦ detach_checked (m.shmtable n).used (m.shm_va p n == 0) p n m
]

-- The loop in freeproc, on the segments from `i` on.
pub detach_from : (left i p : ℕ) → Memory → Memory
unfolding detach_checked
detach_from zero i p m = m
detach_from (suc left) i p m =
    detach_from left (i + 1) p (detach_checked (m.shmtable i).used (m.shm_va p i == 0) p i m).0

unfoldable pub freeproc_shm : (p : ℕ) → Memory → Memory
unfolding detach_from
freeproc_shm p m = detach_from max_shm 0 p m
