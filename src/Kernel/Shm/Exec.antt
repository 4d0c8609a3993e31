-- ===== src/Kernel/Shm/Exec.antt =====
-- The end of kexec in exec.c, and proc_freepagetable of proc.c with uvmfree and freewalk of vm.c: a page
-- table is given up.
use ncsc210_g.Base.{
  ℕ, zero, suc, ◌+◌, ◌-◌, ◌*◌, ◌/◌, ◌^◌, ◌≤◌, ◌<◌, ◌≡◌, refl, sym, ap, ◌∙◌, ◌⊎◌, inl, inr, Bool,
  true, false, Option, none, some, List, [], ◌∷◌, arith, ltb, leb, ◌==◌, if◌then◌else◌, ==_iff,
  Bool-cases, Option-cases, take, pos, update, find_from, find_from-none,
}
use ncsc210_g.Kernel.Shm.{
  max_shm, pgsize, trapframe, Memory, uvmunmap, map_pages, shm_address, shmat_new, shmat_checked,
  sys_shmat,
}

-- The pages below MAXVA.
abbrev maxva_pages : ℕ
maxva_pages = 2 ^ 26

-- TRAMPOLINE
abbrev trampoline : ℕ
trampoline = 2 ^ 38 - 4096

abbrev is_mapped : Option ℕ → Bool
is_mapped none = false
is_mapped (some page) = true

abbrev is_found : Option ℕ → Bool
is_found none = false
is_found (some j) = true

-- Whether freewalk panics: a page is still mapped.
freewalk : (ℕ → Option ℕ) → Bool
freewalk pt = is_found (find_from (λ j. is_mapped (pt (j * pgsize))) maxva_pages 0)

uvmfree : (sz : ℕ) → (ℕ → Option ℕ) → Bool
unfolding freewalk
uvmfree sz pt = freewalk (if ltb 0 sz then uvmunmap 0 ((sz + pgsize - 1) / pgsize) pt else pt)

proc_freepagetable : (sz : ℕ) → (ℕ → Option ℕ) → Bool
unfolding uvmfree
proc_freepagetable sz pt = uvmfree sz (uvmunmap trapframe 1 (uvmunmap trampoline 1 pt))

-- The last lines of kexec: the new page table takes the place of the old one, which is given up.
-- `none` is a panic.
unfoldable pub kexec_commit : (p : ℕ) (new : ℕ → Option ℕ) (oldsz : ℕ) → Memory → Option Memory
unfolding proc_freepagetable
kexec_commit p new oldsz m =
    if proc_freepagetable oldsz (m.pagetable p)
    then none
    else some (record m { pagetable = update m.pagetable p new })

uvmunmap-outside :
    (va n x : ℕ) (pt : ℕ → Option ℕ) → (x < va) ⊎ (va + n * pgsize ≤ x) → uvmunmap va n pt x ≡ pt x
unfolding uvmunmap
uvmunmap-outside va zero x pt h = refl
uvmunmap-outside va (suc n) x pt h =
    let e : (va + n * pgsize == x) ≡ false = elim h [
      | inl low ↦ ground (arith, low)
      | inr high ↦ ground (arith, high)
    ] in
    let rest : (x < va) ⊎ (va + n * pgsize ≤ x) = elim h [
      | inl low ↦ inl low
      | inr high ↦ inr (omega (arith, high))
    ] in
    rw e (uvmunmap-outside va n x pt rest)

-- The pages below those that are mapped.
map_pages-below :
    (maps : ℕ → Bool) (va j x : ℕ) (pages : List ℕ) (pt : ℕ → Option ℕ)
    → ((k : ℕ) → maps k ≡ true)
    → x < va + j * pgsize
    → ((map_pages maps va j pages pt).0 ≡ true) × ((map_pages maps va j pages pt).1 x ≡ pt x)
unfolding map_pages
map_pages-below maps va j x [] pt all low = (refl, refl)
map_pages-below maps va j x (page ∷ pages) pt all low =
    let e : (va + j * pgsize == x) ≡ false = ground (arith, low) in
    let pt1 = update pt (va + j * pgsize) (some page) in
    let (r, k) = map_pages-below maps va (suc j) x pages pt1 all (omega (arith, low)) in
    let k1 : (map_pages maps va (suc j) pages pt1).1 x ≡ pt x = k ∙ rw e refl in rw (all j) (r, k1)

map_pages-first :
    (maps : ℕ → Bool) (va page : ℕ) (pages : List ℕ) (pt : ℕ → Option ℕ)
    → ((k : ℕ) → maps k ≡ true)
    → ((map_pages maps va 0 (page ∷ pages) pt).0 ≡ true)
      × ((map_pages maps va 0 (page ∷ pages) pt).1 va ≡ some page)
unfolding map_pages
map_pages-first maps va page pages pt all =
    let e : (va + 0 * pgsize == va) ≡ true = ground arith in
    let pt1 = update pt (va + 0 * pgsize) (some page) in
    let (r, k) = map_pages-below maps va 1 va pages pt1 all (omega arith) in
    let k1 : (map_pages maps va 1 pages pt1).1 va ≡ some page = k ∙ rw e refl in rw (all 0) (r, k1)

freewalk-mapped :
    (pt : ℕ → Option ℕ) (j page : ℕ)
    → j < maxva_pages
    → pt (j * pgsize) ≡ some page
    → freewalk pt ≡ true
unfolding freewalk
freewalk-mapped pt j page low e =
    elim (Option-cases (find_from (λ j. is_mapped (pt (j * pgsize))) maxva_pages 0)) [
      | inl missing ↦
          let none_is =
            find_from-none (λ j. is_mapped (pt (j * pgsize))) maxva_pages 0 missing j (omega arith)
              (omega (arith, low)) in
          let clash : true ≡ false = sym (ap is_mapped e) ∙ none_is in absurd (cc)
      | inr (i, found) ↦ rw found refl
    ]

-- A page that lies above the process's memory and below the trapframe is not unmapped.
freed-mapped :
    (sz j page : ℕ) (pt : ℕ → Option ℕ)
    → sz ≤ j * pgsize
    → j * pgsize < trapframe
    → pt (j * pgsize) ≡ some page
    → proc_freepagetable sz pt ≡ true
unfolding proc_freepagetable uvmfree
freed-mapped sz j page pt low high e =
    let pt1 = uvmunmap trampoline 1 pt in
    let pt2 = uvmunmap trapframe 1 pt1 in
    let x = j * pgsize in
    let k2 : pt2 x ≡ some page =
      uvmunmap-outside trapframe 1 x pt1 (inl high)
      ∙ uvmunmap-outside trampoline 1 x pt (inl (omega (arith, high)))
      ∙ e in
    let fits : j < maxva_pages = omega (arith, high) in
    elim (Bool-cases (ltb 0 sz)) [
      | inl some_memory ↦
          let n = (sz + pgsize - 1) / pgsize in
          let above : 0 + n * pgsize ≤ x = omega (arith, low) in
          rw some_memory (
            freewalk-mapped (uvmunmap 0 n pt2) j page fits
              (uvmunmap-outside 0 n x pt2 (inr above) ∙ k2))
      | inr no_memory ↦ rw no_memory (freewalk-mapped pt2 j page fits k2)
    ]

shmat_new-mapped :
    (maps : ℕ → Bool) (p n page : ℕ) (pages : List ℕ) (m : Memory)
    → ((k : ℕ) → maps k ≡ true)
    → take (m.shmtable n).npages (m.shmtable n).pa ≡ page ∷ pages
    → (shmat_new maps p n m).0.pagetable p (shm_address n) ≡ some page
unfolding shmat_new
shmat_new-mapped maps p n page pages m all e =
    let (r, k) = map_pages-first maps (shm_address n) page pages (m.pagetable p) all in
    let here : (p == p) ≡ true = ground arith in rw (e, r, here) k

-- A segment that is in use, and not attached yet.
sys_shmat-new :
    (maps : ℕ → Bool) (p n : ℕ) (m : Memory)
    → n < max_shm
    → (m.shmtable n).used ≡ true
    → m.shm_va p n ≡ 0
    → sys_shmat maps p (pos n) m ≡ shmat_new maps p n m
unfolding sys_shmat shmat_checked
sys_shmat-new maps p n m low used detached =
    let in_table : leb max_shm n ≡ false = ground (arith, low) in
    let free : (m.shm_va p n == 0) ≡ true = (==_iff (m.shm_va p n) 0).1 detached in
    rw (in_table, sys_shmat)
      (ap (λ u. shmat_checked u (m.shm_va p n == 0) maps p n m) used
        ∙ ap (λ d. shmat_checked true d maps p n m) free)

kexec_commit-panics :
    (p : ℕ) (new : ℕ → Option ℕ) (oldsz : ℕ) (m : Memory)
    → proc_freepagetable oldsz (m.pagetable p) ≡ true
    → kexec_commit p new oldsz m ≡ none
unfolding kexec_commit
kexec_commit-panics p new oldsz m e = rw e refl

-- exec with a shared segment attached ends in a panic: once a process has attached a segment that has
-- pages, at an address above its own memory, and mappages succeeds, the last step of kexec panics, since
-- the old page table still maps the segment when freewalk meets it.
pub kexec_commit-shmat :
    (maps : ℕ → Bool) (p n page oldsz : ℕ) (pages : List ℕ) (new : ℕ → Option ℕ) (m : Memory)
    → ((k : ℕ) → maps k ≡ true)
    → n < max_shm
    → (m.shmtable n).used ≡ true
    → m.shm_va p n ≡ 0
    → take (m.shmtable n).npages (m.shmtable n).pa ≡ page ∷ pages
    → oldsz ≤ shm_address n
    → kexec_commit p new oldsz (sys_shmat maps p (pos n) m).0 ≡ none
kexec_commit-shmat maps p n page oldsz pages new m all low used detached e below =
    let j = 2 ^ 26 - 2 - (n + 1) * 4 in
    let place : j * pgsize ≡ shm_address n = omega (arith, low) in
    let mapped = shmat_new-mapped maps p n page pages m all e in
    let panics =
      freed-mapped oldsz j page ((shmat_new maps p n m).0.pagetable p) (omega (arith, place, below))
        (omega (arith, place, low)) (ap ((shmat_new maps p n m).0.pagetable p) place ∙ mapped) in
    rw (sys_shmat-new maps p n m low used detached)
      (kexec_commit-panics p new oldsz (shmat_new maps p n m).0 panics)
