-- ===== src/FileServer/Locks/Deadlock.antt =====
-- Why the order in which locks_acquire_two_write of locks.c asks for its locks excludes a deadlock.
use ncsc210_g.Base.{
  ℕ, ◌≡◌, sym, ap, subst, ◌∙◌, ◌≢◌, inl, inr, Bool, true, false, Option, none, some, List, [], ◌∷◌,
  arith, Bool-cases, length, bytes_eq, bytes_lt, bytes_lt_irrefl, bytes_lt_trans, bytes_lt_total,
}
use ncsc210_g.FileServer.Locks.{
  writing, Locks, Chance, find_lock, locks_acquire, acquire_ordered, lock_order, in_order, one_lock,
  locks_acquire_two_write,
}
use ncsc210_g.FileServer.Locks.Registry.{find_lock-inj}
use ncsc210_g.FileServer.Locks.Order.{
  Acquired, locks_acquire-Acquired, Ordered, acquire_ordered-Ordered,
}

-- A thread inside locks_acquire_two_write(path_a, path_b), blocked on its second lock. What the call comes
-- to once it is given that lock is a result of the code; there the thread holds two locks more, the later
-- one in front: `holds` is the path of the first of them, and `wants` that of the second.
pub record Blocked : Type 0 where
  pub chance : List ℕ → Chance
  pub before : Locks
  pub path_a : List ℕ
  pub path_b : List ℕ
  pub result : ℕ × ℕ × Bool
  pub later : Locks
  pub comes_to : locks_acquire_two_write chance before path_a path_b ≡ (some result, later)
  pub first : ℕ
  pub second : ℕ
  pub taken : later.held ≡ (second, writing) ∷ (first, writing) ∷ before.held
  pub holds : List ℕ
  pub wants : List ℕ
  pub holds_first : find_lock later.registry holds ≡ some first
  pub wants_second : find_lock later.registry wants ≡ some second

-- The first of two locks that are held behind the call is that of the smaller path.
Smaller : Locks → Option (ℕ × ℕ × Bool) × Locks → Type 0
Smaller s (none, s1) = Unit
Smaller s (some (i, j, same), s1) =
    (first second : ℕ)
    → s1.held ≡ (second, writing) ∷ (first, writing) ∷ s.held
    → (holds wants : List ℕ) → find_lock s1.registry holds ≡ some first
    → find_lock s1.registry wants ≡ some second
    → bytes_lt holds wants ≡ true

-- A lock has one path.
paths_below :
    (s s1 : Locks) (a b : List ℕ) (i j : ℕ)
    → bytes_lt a b ≡ true
    → s1.held ≡ (j, writing) ∷ (i, writing) ∷ s.held
    → find_lock s1.registry a ≡ some i
    → find_lock s1.registry b ≡ some j
    → (first second : ℕ) → s1.held ≡ (second, writing) ∷ (first, writing) ∷ s.held
    → (holds wants : List ℕ) → find_lock s1.registry holds ≡ some first
    → find_lock s1.registry wants ≡ some second
    → bytes_lt holds wants ≡ true
paths_below s s1 a b i j below h f g first second taken holds wants p q =
    let same = sym h ∙ taken in
    let e : i ≡ first = ground (arith, same) in
    let k : j ≡ second = ground (arith, same) in
    let x : a ≡ holds = find_lock-inj s1.registry a holds i f (rw e p) in
    let y : b ≡ wants = find_lock-inj s1.registry b wants j g (rw k q) in rw (sym x, sym y) below

in_order-Smaller :
    (swapped : Bool) (s : Locks) (a b : List ℕ) (got : Option (ℕ × ℕ) × Locks)
    → bytes_lt a b ≡ true
    → Ordered s a b got
    → Smaller s (in_order swapped got)
unfolding in_order Smaller
in_order-Smaller swapped s a b (none, s1) below h = tt
in_order-Smaller true s a b (some (i, j), s1) below (h, f, g) = paths_below s s1 a b i j below h f g
in_order-Smaller false s a b (some (i, j), s1) below (h, f, g) =
    paths_below s s1 a b i j below h f g

one_lock-Smaller :
    (s : Locks) (a : List ℕ) (got : Option ℕ × Locks)
    → Acquired s writing a got
    → Smaller s (one_lock got)
unfolding one_lock Smaller
one_lock-Smaller s a (none, s1) h = tt
one_lock-Smaller s a (some i, s1) (h, f) =
    λ first second taken holds wants p q. absurd (omega (arith, ap length (sym h ∙ taken)))

two_write-Smaller :
    (chance : List ℕ → Chance) (s : Locks) (a b : List ℕ)
    → Smaller s (locks_acquire_two_write chance s a b)
unfolding locks_acquire_two_write lock_order
two_write-Smaller chance s a b = elim (Bool-cases (bytes_eq a b)) [
  | inl e ↦ rw e (
      one_lock-Smaller s a (locks_acquire (chance a) writing s a)
        (locks_acquire-Acquired (chance a) writing s a))
  | inr e ↦ elim (Bool-cases (bytes_lt b a)) [
    | inl f ↦
        rw (e, f)
          (in_order-Smaller true s b a (acquire_ordered chance s b a) f
            (acquire_ordered-Ordered chance s b a))
    | inr f ↦
        let below : bytes_lt a b ≡ true = elim (bytes_lt_total a b e) [
          | inl g ↦ g
          | inr g ↦ absurd (ground (arith, f, g))
        ] in
        rw (e, f)
          (in_order-Smaller false s a b (acquire_ordered chance s a b) below
            (acquire_ordered-Ordered chance s a b))
  ]
]

below : (t : Blocked) → bytes_lt t.holds t.wants ≡ true
unfolding Smaller
below t =
    (subst (Smaller t.before) t.comes_to (two_write-Smaller t.chance t.before t.path_a t.path_b))
      t.first t.second t.taken t.holds t.wants t.holds_first t.wants_second

-- Each thread of the list waits for the lock that the next one holds.
abbrev pub WaitChain : Blocked → List Blocked → Type 0
WaitChain t [] = Unit
WaitChain t (u ∷ us) = (t.wants ≡ u.holds) × WaitChain u us

abbrev pub end_of : Blocked → List Blocked → Blocked
end_of t [] = t
end_of t (u ∷ us) = end_of u us

chain_below :
    (t : Blocked) (ts : List Blocked) → WaitChain t ts → bytes_lt t.holds (end_of t ts).wants ≡ true
chain_below t [] h = below t
chain_below t (u ∷ us) (e, h) =
    bytes_lt_trans t.holds u.holds (end_of u us).wants
      (subst (λ p. bytes_lt t.holds p ≡ true) e (below t)) (chain_below u us h)

-- Threads inside locks_acquire_two_write, of which each waits for a lock that the next one holds, never
-- form a cycle: the last one does not wait for the lock that the first one holds.
pub no_deadlock : (t : Blocked) (ts : List Blocked) → WaitChain t ts → (end_of t ts).wants ≢ t.holds
no_deadlock t ts h e = absurd (
    ground (
      arith,
      bytes_lt_irrefl t.holds,
      subst (λ p. bytes_lt t.holds p ≡ true) e (chain_below t ts h),
    ))
