-- ===== src/Kernel/Mutex/Invariant.antt =====
-- The table and what the processes know of it always agree.
use ncsc210_g.Base.{
  ℕ, ◌≡◌, refl, inl, inr, Bool, true, false, not, ◌&&◌, ◌||◌, none, some, arith, ltb, Bool-cases,
  Option-cases, ℤ, pos, negsuc, minus_one, ◌==ℤ◌, update, find_from, find_from-some,
}
use ncsc210_g.Kernel.Mutex.{
  nkmutex, sys_mutex_create, sys_mutex_lock, lock_awake, lock_entry, sys_mutex_unlock,
  sys_mutex_trylock,
}
use ncsc210_g.Kernel.Mutex.System.{
  Status, idle, asleep, System, after_round, woken, roused, after_unlock, after_trylock, Step,
  create, lock, resume, unlock, trylock, kill, boot, Reach, start, next,
}

abbrev pub is_pid : ℤ → Bool
is_pid (pos n) = true
is_pid (negsuc n) = false

pub record Inv (s : System) : Type 0 where
  -- A process holds a mutex exactly if the table says so.
  pub agree : (p n : ℕ) → s.granted p n ≡ ((s.table n).locked && ((s.table n).owner_pid ==ℤ pos p))
  pub fresh : (n : ℕ) → (s.table n).used ≡ false → (s.table n).locked ≡ false
  pub owned : (n : ℕ) → (s.table n).locked ≡ true → is_pid (s.table n).owner_pid ≡ true
  -- Who sleeps on a mutex waits for another process.
  pub waits :
      (p n : ℕ)
      → s.status p ≡ asleep n
      → ((s.table n).locked ≡ true) × (((s.table n).owner_pid ==ℤ pos p) ≡ false)

boot-Inv : Inv boot
boot-Inv = record {
  agree = λ p n. refl;
  fresh = λ n h. refl;
  owned = λ n h. cc;
  waits = λ p n h. cc;
}

module _ {s : System} (v : Inv s) where
  open v use {agree, fresh, owned, waits}

  create-Inv : Inv (record s { table = (sys_mutex_create s.table).0 })
  unfolding sys_mutex_create
  create-Inv = elim (Option-cases (find_from (λ i. not (s.table i).used) nkmutex 0)) [
    | inl e ↦ rw (e, sys_mutex_create) v
    | inr (i, e) ↦
        let free : (s.table i).used ≡ false =
          ground (arith, find_from-some (λ j. not (s.table j).used) nkmutex 0 i e) in
        rw (e, sys_mutex_create)
          (record {
            agree = λ p n. ground (arith, agree p n, fresh i free);
            fresh = λ n h. ground (arith, fresh n);
            owned = λ n h. ground (arith, owned n);
            waits = λ p n h. ground (arith, waits p n h, fresh i free);
          })
  ]

  -- A call that returns without taking the mutex.
  gives_up-Inv : (p : ℕ) → Inv (record s { status = update s.status p idle })
  gives_up-Inv p = record {
    agree = agree;
    fresh = fresh;
    owned = owned;
    waits = λ q m h. waits q m (ground (arith, h));
  }

  -- A free mutex is taken.
  takes-Inv :
      (p n : ℕ) (st : ℕ → Status)
      → (s.table n).used ≡ true
      → (s.table n).locked ≡ false
      → ((q m : ℕ) → st q ≡ asleep m → s.status q ≡ asleep m)
      → Inv (record s {
        table =
            update s.table n (record { used = (s.table n).used; locked = true; owner_pid = pos p });
        status = st;
        granted = update s.granted p (update (s.granted p) n true);
      })
  takes-Inv p n st used free keeps = record {
    agree = λ q m. ground (arith, agree q m, agree q n);
    fresh = λ m h. ground (arith, fresh m, used);
    owned = λ m h. ground (arith, owned m);
    waits = λ q m h. ground (arith, waits q m (keeps q m h), free);
  }

  sleeps-Inv :
      (p n : ℕ)
      → (s.table n).locked ≡ true
      → ((s.table n).owner_pid ==ℤ pos p) ≡ false
      → Inv (record s { status = update s.status p (asleep n) })
  sleeps-Inv p n locked other = record {
    agree = agree;
    fresh = fresh;
    owned = owned;
    waits = λ q m h. ground (arith, waits q m, locked, other, h);
  }

  lock_entry-Inv : (p n : ℕ) → Inv (after_round s p (pos n) (lock_entry s.table n p))
  unfolding lock_entry
  lock_entry-Inv p n = elim (Bool-cases (s.table n).used) [
    | inr unused ↦ rw (unused, lock_entry) (gives_up-Inv p)
    | inl used ↦ elim (Bool-cases (s.table n).locked) [
      | inr free ↦
          rw (used, free, lock_entry)
            (rw used at
              (takes-Inv p n (update s.status p idle) used free (λ q m h. ground (arith, h))))
      | inl locked ↦ elim (Bool-cases ((s.table n).owner_pid ==ℤ pos p)) [
        | inl own ↦ rw (used, locked, own, lock_entry) (gives_up-Inv p)
        | inr other ↦ rw (used, locked, other, lock_entry) (sleeps-Inv p n locked other)
      ]
    ]
  ]

  lock-Inv : (p : ℕ) (id : ℤ) → Inv (after_round s p id (sys_mutex_lock s.table id p))
  unfolding sys_mutex_lock
  lock-Inv p (negsuc n) = gives_up-Inv p
  lock-Inv p (pos n) = elim (Bool-cases (ltb n nkmutex)) [
    | inr out ↦ rw (out, sys_mutex_lock) (gives_up-Inv p)
    | inl inside ↦ rw (inside, sys_mutex_lock) (lock_entry-Inv p n)
  ]

  resume-Inv : (p n : ℕ) → Inv (after_round s p (pos n) (lock_awake s.table n p (s.killed p)))
  unfolding lock_awake
  resume-Inv p n = elim (Bool-cases (s.killed p)) [
    | inl gone ↦ rw (gone, lock_awake) (gives_up-Inv p)
    | inr alive ↦ rw (alive, lock_awake) (lock_entry-Inv p n)
  ]

  no_unlock-Inv : Inv (record s { status = λ q. woken none (s.status q) })
  no_unlock-Inv = v

  -- The mutex is free again, and nobody sleeps on it.
  gives_back-Inv :
      (p n : ℕ)
      → (s.table n).used ≡ true
      → (s.table n).locked ≡ true
      → ((s.table n).owner_pid ==ℤ pos p) ≡ true
      → Inv (record s {
        table =
            update s.table n
              (record { used = (s.table n).used; locked = false; owner_pid = minus_one });
        status = λ q. woken (some n) (s.status q);
        granted = update s.granted p (update (s.granted p) n false);
      })
  gives_back-Inv p n used locked own = record {
    agree = λ q m. ground (arith, agree q m, agree q n, own);
    fresh = λ m h. ground (arith, fresh m, used);
    owned = λ m h. ground (arith, owned m);
    waits = λ q m h. ground (arith, waits q m, h);
  }

  unlock-Inv : (p : ℕ) (id : ℤ) → Inv (after_unlock s p id (sys_mutex_unlock s.table id p))
  unfolding sys_mutex_unlock
  unlock-Inv p (negsuc n) = no_unlock-Inv
  unlock-Inv p (pos n) = elim (Bool-cases (ltb n nkmutex)) [
    | inr out ↦ rw (out, sys_mutex_unlock) no_unlock-Inv
    | inl inside ↦ elim (Bool-cases (not (s.table n).used || not (s.table n).locked)) [
      | inl bad ↦ rw (inside, bad, sys_mutex_unlock) no_unlock-Inv
      | inr good ↦ elim (Bool-cases (not ((s.table n).owner_pid ==ℤ pos p))) [
        | inl other ↦ rw (inside, good, other, sys_mutex_unlock) no_unlock-Inv
        | inr own ↦
            rw (inside, good, own, sys_mutex_unlock)
              (gives_back-Inv p n (ground (arith, good)) (ground (arith, good))
                (ground (arith, own)))
      ]
    ]
  ]

  trylock-Inv : (p : ℕ) (id : ℤ) → Inv (after_trylock s p id (sys_mutex_trylock s.table id p))
  unfolding sys_mutex_trylock
  trylock-Inv p (negsuc n) = v
  trylock-Inv p (pos n) = elim (Bool-cases (ltb n nkmutex)) [
    | inr out ↦ rw (out, sys_mutex_trylock) v
    | inl inside ↦ elim (Bool-cases (s.table n).used) [
      | inr unused ↦ rw (inside, unused, sys_mutex_trylock) v
      | inl used ↦ elim (Bool-cases (s.table n).locked) [
        | inl locked ↦ rw (inside, used, locked, sys_mutex_trylock) v
        | inr free ↦
            rw (inside, used, free, sys_mutex_trylock)
              (rw used at (takes-Inv p n s.status used free (λ q m h. h)))
      ]
    ]
  ]

  kill-Inv :
      (p : ℕ)
      → Inv (record s {
        status = update s.status p (roused (s.status p));
        killed = update s.killed p true;
      })
  kill-Inv p = record {
    agree = agree;
    fresh = fresh;
    owned = owned;
    waits = λ q m h. waits q m (ground (arith, h));
  }

-- Every step keeps the table and what the processes know in agreement.
pub Step-Inv : {s t : System} → Step s t → Inv s → Inv t
Step-Inv create v = create-Inv v
Step-Inv (lock p id h) v = lock-Inv v p id
Step-Inv (resume p n h) v = resume-Inv v p n
Step-Inv (unlock p id h) v = unlock-Inv v p id
Step-Inv (trylock p id h) v = trylock-Inv v p id
Step-Inv (kill p) v = kill-Inv v p

pub Reach-Inv : {s : System} → Reach s → Inv s
Reach-Inv start = boot-Inv
Reach-Inv (next r st) = Step-Inv st (Reach-Inv r)
