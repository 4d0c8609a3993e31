-- ===== src/FileServer/Locks/Tests.antt =====
-- Calls on the lock map.
use ncsc210_g.Base.{ℕ, refl, ◌≢◌, true, false, List, [], ◌∷◌, codes, bytes_eq, bytes_lt}
use ncsc210_g.FileServer.Locks.{writing, Locks, Chance, find_lock, locks_acquire_two_write}
use ncsc210_g.FileServer.Locks.Deadlock.{Blocked, no_deadlock}

abbrev lucky : Chance
lucky = record { calloc = true; strdup = true; rwlock_init = true; lock = true }

abbrev path_a : List ℕ
path_a = codes "d/a"

abbrev path_b : List ℕ
path_b = codes "d/b"

abbrev path_c : List ℕ
path_c = codes "d/c"

abbrev unlocked : Locks
unlocked = record { registry = []; held = [] }

-- It asks for the locks of d/b and d/a, and holds the one of d/a.
abbrev first_thread : Blocked
unfolding locks_acquire_two_write find_lock bytes_eq bytes_lt
first_thread = record {
  chance = λ path. lucky;
  before = unlocked;
  path_a = path_b;
  path_b = path_a;
  result = (1, 0, false);
  later = record { registry = path_b ∷ path_a ∷ []; held = (1, writing) ∷ (0, writing) ∷ [] };
  comes_to = refl;
  first = 0;
  second = 1;
  taken = refl;
  holds = path_a;
  wants = path_b;
  holds_first = refl;
  wants_second = refl;
}

abbrev second_thread : Blocked
unfolding locks_acquire_two_write find_lock bytes_eq bytes_lt
second_thread = record {
  chance = λ path. lucky;
  before = record { registry = path_b ∷ path_a ∷ []; held = [] };
  path_a = path_b;
  path_b = path_c;
  result = (1, 2, false);
  later = record {
    registry = path_c ∷ path_b ∷ path_a ∷ [];
    held = (2, writing) ∷ (1, writing) ∷ [];
  };
  comes_to = refl;
  first = 1;
  second = 2;
  taken = refl;
  holds = path_b;
  wants = path_c;
  holds_first = refl;
  wants_second = refl;
}

no_deadlock_example : path_c ≢ path_a
unfolding second_thread first_thread
no_deadlock_example = no_deadlock first_thread (second_thread ∷ []) (refl, tt)
