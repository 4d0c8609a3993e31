-- ===== src/FileServer/Locks.antt =====
-- G16_Project_3/src/locks.c. A lock goes by the position of its entry in the map, counted from the
-- oldest; a call of pthread_rwlock_rdlock or _wrlock is taken at the moment it returns.
mod Tests
pub mod Registry
pub mod Order
pub mod Deadlock
use ncsc210_g.Base.{
  ℕ, Bool, true, false, not, Option, none, some, List, [], ◌∷◌, ◌==◌, if◌then◌else◌, length,
  bytes_eq, bytes_lt,
}

-- g_lock_map_head: the paths of the entries, the newest first.
abbrev pub Registry : Type 0
Registry = List (List ℕ)

pub data Mode : Type 0 where
  reading writing : Mode

-- The map, and the locks that the calling thread holds.
pub record Locks : Type 0 where
  pub registry : Registry
  pub held : List (ℕ × Mode)

-- Whether the calls on the way to a lock succeed.
pub record Chance : Type 0 where
  pub calloc : Bool
  pub strdup : Bool
  pub rwlock_init : Bool
  pub lock : Bool

-- The `while` loop over the map.
unfoldable pub find_lock : Registry → List ℕ → Option ℕ
find_lock [] path = none
find_lock (p ∷ ps) path =
    let more = find_lock ps path in if bytes_eq p path then some (length ps) else more

unfoldable pub get_or_create_lock : Chance → Registry → List ℕ → Option ℕ × Registry
unfolding find_lock
get_or_create_lock c r path = elim (find_lock r path) [
  | some i ↦ (some i, r)
  | none ↦
      if not c.calloc
      then (none, r)
      else if not c.strdup
      then (none, r)
      else if not c.rwlock_init
      then (none, r)
      else (some (length r), path ∷ r)
]

-- What both acquisitions do with the entry they get; `got` says whether the lock is obtained.
lock_entry : (got : Bool) → Mode → Locks → Option ℕ × Registry → Option ℕ × Locks
lock_entry got mode s (none, r) = (none, record s { registry = r })
lock_entry true mode s (some i, r) = (some i, record { registry = r; held = (i, mode) ∷ s.held })
lock_entry false mode s (some i, r) = (none, record s { registry = r })

-- locks_acquire_read and locks_acquire_write, which differ in the mode.
unfoldable pub locks_acquire : Chance → Mode → Locks → List ℕ → Option ℕ × Locks
unfolding get_or_create_lock lock_entry
locks_acquire c mode s path = lock_entry c.lock mode s (get_or_create_lock c s.registry path)

-- pthread_rwlock_unlock: the thread gives up one hold of the lock.
unfoldable pub unlock : ℕ → List (ℕ × Mode) → List (ℕ × Mode)
unlock i [] = []
unlock i ((j, m) ∷ hs) = let rest = unlock i hs in if i == j then hs else (j, m) ∷ rest

unfoldable pub locks_release : Option ℕ → Locks → Locks
unfolding unlock
locks_release none s = s
locks_release (some i) s = record s { held = unlock i s.held }

-- `first` is taken, and given back if `second` cannot be.
after_second : ℕ → Option ℕ × Locks → Option (ℕ × ℕ) × Locks
unfolding locks_release
after_second i (none, s) = (none, locks_release (some i) s)
after_second i (some j, s) = (some (i, j), s)

after_first : (List ℕ → Chance) → (second : List ℕ) → Option ℕ × Locks → Option (ℕ × ℕ) × Locks
unfolding locks_acquire after_second
after_first chance second (none, s) = (none, s)
after_first chance second (some i, s) =
    after_second i (locks_acquire (chance second) writing s second)

pub acquire_ordered : (List ℕ → Chance) → Locks → (first second : List ℕ) → Option (ℕ × ℕ) × Locks
unfolding locks_acquire after_first
acquire_ordered chance s first second =
    after_first chance second (locks_acquire (chance first) writing s first)

-- The variables first, second and swapped.
unfoldable pub lock_order : (path_a path_b : List ℕ) → List ℕ × List ℕ × Bool
unfolding bytes_lt
lock_order a b = if bytes_lt b a then (b, a, true) else (a, b, false)

-- How the pair of locks becomes lock_a, lock_b and same_lock.
in_order : (swapped : Bool) → Option (ℕ × ℕ) × Locks → Option (ℕ × ℕ × Bool) × Locks
in_order swapped (none, s) = (none, s)
in_order swapped (some (i, j), s) = (some (if swapped then (j, i, false) else (i, j, false)), s)

one_lock : Option ℕ × Locks → Option (ℕ × ℕ × Bool) × Locks
one_lock (none, s) = (none, s)
one_lock (some i, s) = (some (i, i, true), s)

unfoldable pub locks_acquire_two_write :
    (List ℕ → Chance) → Locks → (path_a path_b : List ℕ) → Option (ℕ × ℕ × Bool) × Locks
unfolding locks_acquire acquire_ordered lock_order in_order one_lock bytes_eq
locks_acquire_two_write chance s a b =
    if bytes_eq a b
    then one_lock (locks_acquire (chance a) writing s a)
    else let (first, second, swapped) = lock_order a b in
      in_order swapped (acquire_ordered chance s first second)

unfoldable pub locks_release_two : (lock_a lock_b : ℕ) (same_lock : Bool) → Locks → Locks
unfolding locks_release
locks_release_two a b same s =
    if same then locks_release (some a) s else locks_release (some b) (locks_release (some a) s)
