-- ===== src/Kernel/Proc/Exits/Keeps.antt =====
-- An exit keeps the process table in order, and so does a wait that frees a zombie.
use ncsc210_g.Base.{
  ℕ, ◌<◌, ◌≡◌, refl, sym, ap, subst, ◌∙◌, ◌≢◌, ◌⊎◌, inl, inr, true, false, not, Option, none, some,
  arith, ◌==◌, ==_iff, Bool-cases, ℤ, pos,
}
use ncsc210_g.Kernel.Shm.{nproc}
use ncsc210_g.Kernel.Proc.{Procs, is_zombie, same_place, freed, freeproc}
use ncsc210_g.Kernel.Proc.Consistent.{exists_at, is_alive, Consistent, differ}
use ncsc210_g.Kernel.Proc.Exits.Exited.{Exited}

exists_at-Exited :
    (p : ℕ) (status : ℤ) (k k1 : Procs) (i : ℕ)
    → is_alive k p ≡ true
    → Exited p status k k1
    → exists_at k1 i ≡ exists_at k i
exists_at-Exited p status k k1 i lives x = elim (Bool-cases (p == i)) [
  | inl e ↦
      subst (λ j. exists_at k1 j ≡ exists_at k j) ((==_iff p i).0 e)
        (rw (x.zombie_is) (ground (arith, lives)))
  | inr e ↦ ap not (x.others i (differ p i e)).unused_same
]

pid-Exited :
    (p : ℕ) (status : ℤ) (k k1 : Procs) (i : ℕ)
    → Exited p status k k1
    → (k1.proc i).pid ≡ (k.proc i).pid
pid-Exited p status k k1 i x = elim (Bool-cases (p == i)) [
  | inl e ↦ subst (λ j. (k1.proc j).pid ≡ (k.proc j).pid) ((==_iff p i).0 e) x.pid_same
  | inr e ↦ (x.others i (differ p i e)).pid_same
]

is_alive-Exited :
    (p : ℕ) (status : ℤ) (k k1 : Procs) (q : ℕ)
    → Exited p status k k1
    → p ≢ q
    → is_alive k q ≡ true
    → is_alive k1 q ≡ true
is_alive-Exited p status k k1 q x ne h =
    let r = x.others q ne in ground (arith, r.unused_same, r.zombie_same, h)

pub same_place-some : (q p : ℕ) (o : Option ℕ) → o ≡ some q → same_place o p ≡ false → p ≢ q
same_place-some q p none e h s = cc
same_place-some q p (some r) e h s = let f : r ≡ q = cc in ground (arith, f, s, h)

pub Exited-Consistent :
    (p : ℕ) (status : ℤ) (k k1 : Procs)
    → Consistent k
    → is_alive k p ≡ true
    → Exited p status k k1
    → Consistent k1
Exited-Consistent p status k k1 c lives x =
    let there = λ (i : ℕ). exists_at-Exited p status k k1 i lives x in
    let pids = λ (i : ℕ). pid-Exited p status k k1 i x in
    let init_lives = is_alive-Exited p status k k1 k.initproc x x.not_init c.init_lives.1 in
    record {
      pids_below = λ i low e.
          let (m, f, a, b) = c.pids_below i low (sym (there i) ∙ e) in
          (m, pids i ∙ f, a, omega (arith, b, x.nextpid_same));
      pids_differ =
          λ i j a b e s. c.pids_differ i j a b (sym (there i) ∙ e) (sym (pids i) ∙ s ∙ pids j);
      slots_clear = λ i low e.
          let (a, b) = c.slots_clear i low (sym (there i) ∙ e) in
          (pids i ∙ a, x.kept i (ap (λ o. same_place o p) b) ∙ b);
      parents_live = λ i q low e. elim (Bool-cases (same_place (k.proc i).parent p)) [
        | inl s ↦
            let f : some k.initproc ≡ some q = sym (x.adopted i low s).0 ∙ e in
            let g : k.initproc ≡ q = cc in
            subst (λ r. (r < nproc) × (is_alive k1 r ≡ true)) g (c.init_lives.0, init_lives)
        | inr s ↦
            let f = sym (x.kept i s) ∙ e in
            let (a, b) = c.parents_live i q low f in
            (a, is_alive-Exited p status k k1 q x (same_place-some q p (k.proc i).parent f s) b)
      ];
      orphans_none = λ i low e ne. elim (Bool-cases (same_place (k.proc i).parent p)) [
        | inl s ↦ (k.initproc, (x.adopted i low s).0)
        | inr s ↦
            let (q, f) = c.orphans_none i low (sym (there i) ∙ e) (λ t. ne (t ∙ sym x.init_same)) in
            (q, x.kept i s ∙ f)
      ];
      init_lives = rw (x.init_same) (c.init_lives.0, init_lives);
    }

-- A slot is the freed one, or holds what it held.
pub freeproc_cases :
    (i j : ℕ) (k : Procs)
    → ((i ≡ j) × ((freeproc i k).proc j ≡ freed)) ⊎ ((i ≢ j) × ((freeproc i k).proc j ≡ k.proc j))
unfolding freeproc
freeproc_cases i j k = elim (Bool-cases (i == j)) [
  | inl e ↦ inl ((==_iff i j).0 e, rw e refl)
  | inr e ↦ inr (differ i j e, rw e refl)
]

freeproc_counts :
    (i : ℕ) (k : Procs)
    → ((freeproc i k).nextpid ≡ k.nextpid) × ((freeproc i k).initproc ≡ k.initproc)
unfolding freeproc
freeproc_counts i k = (refl, refl)

pub not_freed : (k1 : Procs) (j : ℕ) → k1.proc j ≡ freed → exists_at k1 j ≢ true
not_freed k1 j e h = ground (arith, e, h)

pub zombie_dead : (k : Procs) (i : ℕ) → is_zombie (k.proc i).state ≡ true → is_alive k i ≢ true
zombie_dead k i z h = ground (arith, z, h)

freed_lives :
    (k : Procs) (i q : ℕ)
    → is_zombie (k.proc i).state ≡ true
    → is_alive k q ≡ true
    → is_alive (freeproc i k) q ≡ true
freed_lives k i q z h = elim (freeproc_cases i q k) [
  | inl (s, e) ↦ absurd (zombie_dead k i z (subst (λ x. is_alive k x ≡ true) (sym s) h))
  | inr (ne, e) ↦ rw e h
]

pub freeproc-Consistent :
    (i : ℕ) (k : Procs)
    → Consistent k
    → is_zombie (k.proc i).state ≡ true
    → Consistent (freeproc i k)
freeproc-Consistent i k c z =
    let k1 = freeproc i k in
    let (next_same, init_same) = freeproc_counts i k in
    record {
      pids_below = λ j low e. elim (freeproc_cases i j k) [
        | inl (s, f) ↦ absurd (not_freed k1 j f e)
        | inr (ne, f) ↦
            let (m, g, a, b) = c.pids_below j low (rw f at e) in
            (m, ap (λ x. x.pid) f ∙ g, a, omega (arith, b, next_same))
      ];
      pids_differ = λ j l a b e s. elim (freeproc_cases i j k) [
        | inl (t, f) ↦ absurd (not_freed k1 j f e)
        | inr (ne, f) ↦ elim (freeproc_cases i l k) [
          | inl (t, g) ↦
              let (m, h, positive, below) = c.pids_below j a (rw f at e) in
              let clash : pos m ≡ pos 0 = sym h ∙ sym (ap (λ x. x.pid) f) ∙ s ∙ ap (λ x. x.pid) g in
              absurd (ground (arith, clash, positive))
          | inr (nt, g) ↦
              c.pids_differ j l a b (rw f at e) (sym (ap (λ x. x.pid) f) ∙ s ∙ ap (λ x. x.pid) g)
        ]
      ];
      slots_clear = λ j low e. elim (freeproc_cases i j k) [
        | inl (s, f) ↦ (ap (λ x. x.pid) f, ap (λ x. x.parent) f)
        | inr (ne, f) ↦ rw f (c.slots_clear j low (rw f at e))
      ];
      parents_live = λ j q low e. elim (freeproc_cases i j k) [
        | inl (s, f) ↦ let clash : none ≡ some q = sym (ap (λ x. x.parent) f) ∙ e in absurd (cc)
        | inr (ne, f) ↦
            let (a, b) = c.parents_live j q low (rw f at e) in (a, freed_lives k i q z b)
      ];
      orphans_none = λ j low e not_init. elim (freeproc_cases i j k) [
        | inl (s, f) ↦ absurd (not_freed k1 j f e)
        | inr (ne, f) ↦
            let (q, g) = c.orphans_none j low (rw f at e) (λ t. not_init (t ∙ sym init_same)) in
            (q, ap (λ x. x.parent) f ∙ g)
      ];
      init_lives = rw init_same (c.init_lives.0, freed_lives k i k.initproc z c.init_lives.1);
    }
