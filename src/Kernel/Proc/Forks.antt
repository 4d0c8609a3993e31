-- ===== src/Kernel/Proc/Forks.antt =====
-- allocproc and kfork of proc.c.
pub mod Keeps
use ncsc210_g.Base.{
  ℕ, ◌+◌, ◌<◌, ◌≡◌, refl, sym, subst, ◌≢◌, ◌⊎◌, inl, inr, Bool, true, false, Option, none, some,
  arith, ◌==◌, ==_iff, Bool-cases, ℤ, pos, minus_one, update, find_from, find_from-some,
}
use ncsc210_g.Kernel.Shm.{nproc}
use ncsc210_g.Kernel.Proc.Kill.{may_run}
use ncsc210_g.Kernel.Proc.{
  Proc, Procs, is_unused, freed, freeproc, alloc_at, allocproc, fork_into, kfork,
}
use ncsc210_g.Kernel.Proc.Consistent.{
  exists_at, Consistent, Alike, Alike-refl, AllAlike, unused_not_zombie, unnegate_true, negate_true,
  differ,
}

-- A process is born in slot `i`, which was free: its pid is new, it can run, and `p` is its parent.
pub record Born (p : ℕ) (k k1 : Procs) (i : ℕ) : Type 0 where
  pub in_table : i < nproc
  pub was_free : exists_at k i ≡ false
  pub pid_is : (k1.proc i).pid ≡ pos k.nextpid
  pub runs : may_run (k1.proc i) ≡ true
  pub parent_is : (k1.proc i).parent ≡ some p
  pub others : (j : ℕ) → i ≢ j → k1.proc j ≡ k.proc j
  pub nextpid_is : k1.nextpid ≡ k.nextpid + 1
  pub init_same : k1.initproc ≡ k.initproc

-- A fork that fails: no process comes or goes, and those that exist are as they were.
pub record NotBorn (k k1 : Procs) : Type 0 where
  pub alike : AllAlike k k1
  pub kept : (j : ℕ) → exists_at k j ≡ true → k1.proc j ≡ k.proc j

abbrev pub Forked : (p : ℕ) → Procs → Procs × ℤ → Type 0
Forked p k r =
    ((r.1 ≡ minus_one) × NotBorn k r.0) ⊎ ((i : ℕ) × (r.1 ≡ pos k.nextpid) × Born p k r.0 i)

-- A slot that was free is free again.
pub record Refreed (k k1 : Procs) (i : ℕ) : Type 0 where
  pub was_free : exists_at k i ≡ false
  pub in_table : i < nproc
  pub freed_is : k1.proc i ≡ freed
  pub others : (j : ℕ) → i ≢ j → k1.proc j ≡ k.proc j
  pub nextpid_is : k1.nextpid ≡ k.nextpid + 1
  pub init_same : k1.initproc ≡ k.initproc

freed-Alike :
    (p : Proc) → is_unused p.state ≡ true → p.pid ≡ pos 0 → p.parent ≡ none → Alike p freed
freed-Alike p u e f = record {
  unused_same = sym u;
  zombie_same = unused_not_zombie p.state u;
  pid_same = sym e;
  parent_same = sym f;
}

Refreed-NotBorn : (k k1 : Procs) (i : ℕ) → Consistent k → Refreed k k1 i → NotBorn k k1
Refreed-NotBorn k k1 i c r = record {
  alike = record {
    alike = λ j low. elim (Bool-cases (i == j)) [
      | inl e ↦
          let same : i ≡ j = (==_iff i j).0 e in
          let (no_pid, no_parent) = c.slots_clear i r.in_table r.was_free in
          subst (λ x. Alike (k.proc x) (k1.proc x)) same
            (rw (r.freed_is) (
              freed-Alike (k.proc i) (unnegate_true (is_unused (k.proc i).state) r.was_free) no_pid
                no_parent))
      | inr e ↦ rw (r.others j (differ i j e)) (Alike-refl (k.proc j))
    ];
    nextpid_grows = omega (arith, r.nextpid_is);
    init_same = r.init_same;
  };
  kept = λ j e. r.others j (λ s. ground (arith, s, e, r.was_free));
}

-- What a search for a free slot comes to.
abbrev Found : Procs → Option ℕ → Type 0
Found k none = Unit
Found k (some i) = (i < nproc) × (exists_at k i ≡ false)

search-Found :
    (k : Procs) (found : Option ℕ)
    → find_from (λ i. is_unused (k.proc i).state) nproc 0 ≡ found
    → Found k found
search-Found k none e = tt
search-Found k (some i) e =
    let (_, low, hit, _) = find_from-some (λ i. is_unused (k.proc i).state) nproc 0 i e in
    (omega (arith, low), negate_true (is_unused (k.proc i).state) hit)

-- Two changes of one slot.
set_twice-here : (i : ℕ) (p q : Proc) (f : ℕ → Proc) → update (update f i p) i q i ≡ q
set_twice-here i p q f = let e : (i == i) ≡ true = ground arith in rw e refl

set_twice-other : (i j : ℕ) (p q : Proc) (f : ℕ → Proc) → i ≢ j → update (update f i p) i q j ≡ f j
set_twice-other i j p q f h = elim (Bool-cases (i == j)) [
  | inl e ↦ absurd (h ((==_iff i j).0 e))
  | inr e ↦ rw e refl
]

fork_into-Forked :
    (memory copies : Bool) (p : ℕ) (k : Procs) (found : Option ℕ)
    → Consistent k
    → Found k found
    → Forked p k (fork_into p copies (alloc_at memory k found))
unfolding fork_into alloc_at freeproc
fork_into-Forked memory copies p k none c h = inl (
  refl,
  record {
    alike = record {
      alike = λ i low. Alike-refl (k.proc i);
      nextpid_grows = omega arith;
      init_same = refl;
    };
    kept = λ j e. refl;
  },
)
fork_into-Forked false copies p k (some i) c (low, free) = inl (
  refl,
  Refreed-NotBorn k _ i c (record {
    was_free = free;
    in_table = low;
    freed_is = set_twice-here i _ freed k.proc;
    others = λ j ne. set_twice-other i j _ freed k.proc ne;
    nextpid_is = refl;
    init_same = refl;
  }),
)
fork_into-Forked true false p k (some i) c (low, free) = inl (
  refl,
  Refreed-NotBorn k _ i c (record {
    was_free = free;
    in_table = low;
    freed_is = set_twice-here i _ freed k.proc;
    others = λ j ne. set_twice-other i j _ freed k.proc ne;
    nextpid_is = refl;
    init_same = refl;
  }),
)
fork_into-Forked true true p k (some i) c (low, free) =
    let one : (i == i) ≡ true = ground arith in
    inr (
      i,
      rw one refl,
      record {
        in_table = low;
        was_free = free;
        pid_is = rw one refl;
        runs = rw one refl;
        parent_is = rw one refl;
        others = λ j ne. set_twice-other i j _ _ k.proc ne;
        nextpid_is = refl;
        init_same = refl;
      },
    )

-- In a table that is in order, kfork returns -1, and no process comes, goes or changes, or it returns
-- nextpid, and a process with this pid and with the caller as its parent can run in a slot that was
-- free; all other processes are as before.
pub kfork_lem :
    (memory copies : Bool) (p : ℕ) (k : Procs) → Consistent k → Forked p k (kfork memory copies p k)
unfolding kfork allocproc
kfork_lem memory copies p k c =
    let found = find_from (λ i. is_unused (k.proc i).state) nproc 0 in
    fork_into-Forked memory copies p k found c (search-Found k found refl)
