-- ===== src/FileServer/Locks/Order.antt =====
-- What locks_acquire_two_write and locks_release_two of locks.c do to the locks a thread holds.
use ncsc210_g.Base.{
  ℕ, ◌≡◌, refl, sym, ◌⊎◌, inl, inr, Bool, true, false, Option, none, some, List, [], ◌∷◌, ◌++◌,
  arith, ◌==◌, if◌then◌else◌, Bool-cases, bytes_eq, bytes_eq_sound, bytes_lt,
}
use ncsc210_g.FileServer.Locks.{
  Registry, Mode, writing, Locks, Chance, find_lock, get_or_create_lock, lock_entry, locks_acquire,
  unlock, locks_release, after_second, after_first, acquire_ordered, lock_order, in_order, one_lock,
  locks_acquire_two_write, locks_release_two,
}
use ncsc210_g.FileServer.Locks.Registry.{get-find, get-keeps}

-- What an acquisition of one lock comes to.
abbrev pub Acquired : Locks → Mode → List ℕ → Option ℕ × Locks → Type 0
Acquired s mode path (none, s1) = s1.held ≡ s.held
Acquired s mode path (some i, s1) =
    (s1.held ≡ (i, mode) ∷ s.held) × (find_lock s1.registry path ≡ some i)

lock_entry-Acquired :
    (lock : Bool) (mode : Mode) (s : Locks) (path : List ℕ) (got : Option ℕ) (r : Registry)
    → ((i : ℕ) → got ≡ some i → find_lock r path ≡ some i)
    → Acquired s mode path (lock_entry lock mode s (got, r))
unfolding lock_entry
lock_entry-Acquired lock mode s path none r h = refl
lock_entry-Acquired true mode s path (some i) r h = (refl, h i refl)
lock_entry-Acquired false mode s path (some i) r h = refl

pub locks_acquire-Acquired :
    (c : Chance) (mode : Mode) (s : Locks) (path : List ℕ)
    → Acquired s mode path (locks_acquire c mode s path)
unfolding locks_acquire
locks_acquire-Acquired c mode s path =
    lock_entry-Acquired c.lock mode s path (get_or_create_lock c s.registry path).0
      (get_or_create_lock c s.registry path).1 (λ i e. get-find c s.registry path e)

lock_entry-registry :
    (lock : Bool) (mode : Mode) (s : Locks) (got : Option ℕ) (r : Registry)
    → (lock_entry lock mode s (got, r)).1.registry ≡ r
unfolding lock_entry
lock_entry-registry lock mode s none r = refl
lock_entry-registry true mode s (some i) r = refl
lock_entry-registry false mode s (some i) r = refl

locks_acquire-keeps :
    (c : Chance) (mode : Mode) (s : Locks) (a b : List ℕ) (i : ℕ)
    → find_lock s.registry a ≡ some i
    → find_lock (locks_acquire c mode s b).1.registry a ≡ some i
unfolding locks_acquire
locks_acquire-keeps c mode s a b i h =
    rw
      (lock_entry-registry c.lock mode s (get_or_create_lock c s.registry b).0
        (get_or_create_lock c s.registry b).1)
      (get-keeps c s.registry a b h)

pub unlock_head : (i : ℕ) (m : Mode) (hs : List (ℕ × Mode)) → unlock i ((i, m) ∷ hs) ≡ hs
unfolding unlock
unlock_head i m hs = ground arith

-- What an acquisition in order comes to: nothing, or both locks.
abbrev pub Ordered : Locks → (first second : List ℕ) → Option (ℕ × ℕ) × Locks → Type 0
Ordered s a b (none, s1) = s1.held ≡ s.held
Ordered s a b (some (i, j), s1) =
    (s1.held ≡ (j, writing) ∷ (i, writing) ∷ s.held)
    × (find_lock s1.registry a ≡ some i)
    × (find_lock s1.registry b ≡ some j)

after_second-Ordered :
    (s s1 : Locks) (a b : List ℕ) (i : ℕ)
    → Acquired s writing a (some i, s1)
    → (got : Option ℕ × Locks) → Acquired s1 writing b got
    → find_lock got.1.registry a ≡ some i
    → Ordered s a b (after_second i got)
unfolding after_second locks_release
after_second-Ordered s s1 a b i (h, f) (none, s2) e k = rw (e, h) (unlock_head i writing s.held)
after_second-Ordered s s1 a b i (h, f) (some j, s2) (e, g) k = (rw (e, h) refl, k, g)

after_first-Ordered :
    (chance : List ℕ → Chance) (s : Locks) (a b : List ℕ) (got : Option ℕ × Locks)
    → Acquired s writing a got
    → Ordered s a b (after_first chance b got)
unfolding after_first
after_first-Ordered chance s a b (none, s1) h = h
after_first-Ordered chance s a b (some i, s1) (h, f) =
    after_second-Ordered s s1 a b i (h, f) (locks_acquire (chance b) writing s1 b)
      (locks_acquire-Acquired (chance b) writing s1 b)
      (locks_acquire-keeps (chance b) writing s1 a b i f)

pub acquire_ordered-Ordered :
    (chance : List ℕ → Chance) (s : Locks) (a b : List ℕ)
    → Ordered s a b (acquire_ordered chance s a b)
unfolding acquire_ordered
acquire_ordered-Ordered chance s a b =
    after_first-Ordered chance s a b (locks_acquire (chance a) writing s a)
      (locks_acquire-Acquired (chance a) writing s a)

-- What locks_acquire_two_write promises of its result.
abbrev pub TwoHeld : Locks → (a b : List ℕ) → Option (ℕ × ℕ × Bool) × Locks → Type 0
TwoHeld s a b (none, s1) = s1.held ≡ s.held
TwoHeld s a b (some (i, j, same), s1) =
    (find_lock s1.registry a ≡ some i)
    × (find_lock s1.registry b ≡ some j)
    × (same ≡ bytes_eq a b)
    × ((s1.held ≡ (i, writing) ∷ (if same then [] else (j, writing) ∷ []) ++ s.held)
        ⊎ (s1.held ≡ (j, writing) ∷ (i, writing) ∷ s.held))
    × ((locks_release_two i j same s1).held ≡ s.held)

one_lock-TwoHeld :
    (s : Locks) (a b : List ℕ) (got : Option ℕ × Locks)
    → bytes_eq a b ≡ true
    → Acquired s writing a got
    → TwoHeld s a b (one_lock got)
unfolding one_lock locks_release_two locks_release
one_lock-TwoHeld s a b (none, s1) e h = h
one_lock-TwoHeld s a b (some i, s1) e (h, f) =
    (f, rw (sym (bytes_eq_sound a b e)) f, sym e, inl h, rw h (unlock_head i writing s.held))

unlock_head_two :
    (i j : ℕ) (m : Mode) (hs : List (ℕ × Mode)) → unlock j (unlock i ((i, m) ∷ (j, m) ∷ hs)) ≡ hs
unfolding unlock
unlock_head_two i j m hs = ground arith

-- Two holds given back in either order.
unlock_two :
    (i j : ℕ) (m : Mode) (hs : List (ℕ × Mode)) → unlock j (unlock i ((j, m) ∷ (i, m) ∷ hs)) ≡ hs
unfolding unlock
unlock_two i j m hs = elim (Bool-cases (i == j)) [
  | inl e ↦ ground (arith, e)
  | inr e ↦ ground (arith, e)
]

in_order-TwoHeld :
    (s : Locks) (a b : List ℕ) (got : Option (ℕ × ℕ) × Locks)
    → bytes_eq a b ≡ false
    → Ordered s a b got
    → TwoHeld s a b (in_order false got)
unfolding in_order locks_release_two locks_release
in_order-TwoHeld s a b (none, s1) e h = h
in_order-TwoHeld s a b (some (i, j), s1) e (h, f, g) =
    (f, g, sym e, inr h, rw h (unlock_two i j writing s.held))

swapped-TwoHeld :
    (s : Locks) (a b : List ℕ) (got : Option (ℕ × ℕ) × Locks)
    → bytes_eq a b ≡ false
    → Ordered s b a got
    → TwoHeld s a b (in_order true got)
unfolding in_order locks_release_two locks_release
swapped-TwoHeld s a b (none, s1) e h = h
swapped-TwoHeld s a b (some (j, i), s1) e (h, f, g) =
    (g, f, sym e, inl h, rw h (unlock_head_two i j writing s.held))

-- locks_acquire_two_write either fails, and then the thread holds what it held before, or it
-- returns the locks of its two paths in the order of the paths, `same_lock` exactly if the paths
-- are equal; then the thread holds these locks for writing and what it held before, and
-- locks_release_two gives back just these.
pub acquire_two_lem :
    (chance : List ℕ → Chance) (s : Locks) (a b : List ℕ)
    → TwoHeld s a b (locks_acquire_two_write chance s a b)
unfolding locks_acquire_two_write lock_order
acquire_two_lem chance s a b = elim (Bool-cases (bytes_eq a b)) [
  | inl e ↦ rw e (
      one_lock-TwoHeld s a b (locks_acquire (chance a) writing s a) e
        (locks_acquire-Acquired (chance a) writing s a))
  | inr e ↦ elim (Bool-cases (bytes_lt b a)) [
    | inl f ↦
        rw (e, f)
          (swapped-TwoHeld s a b (acquire_ordered chance s b a) e
            (acquire_ordered-Ordered chance s b a))
    | inr f ↦
        rw (e, f)
          (in_order-TwoHeld s a b (acquire_ordered chance s a b) e
            (acquire_ordered-Ordered chance s a b))
  ]
]
