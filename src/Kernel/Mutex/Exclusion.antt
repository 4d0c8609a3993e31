-- ===== src/Kernel/Mutex/Exclusion.antt =====
-- What the kernel mutexes promise to the processes, in every reachable state.
use ncsc210_g.Base.{
  ℕ, ◌<◌, ◌≡◌, refl, ◌≢◌, ◌↔◌, ◌⊎◌, inl, inr, Bool, true, false, not, none, arith, Option-cases, ℤ,
  pos, negsuc, minus_one, update, find_from, find_from-some, find_from-none,
}
use ncsc210_g.Kernel.Mutex.{
  returns, sys_mutex_lock, lock_entry, nkmutex, Table, sys_mutex_create, sys_mutex_unlock,
  sys_mutex_trylock, sys_mutex_owner,
}
use ncsc210_g.Kernel.Mutex.System.{asleep, awake, System, Reach, woken}
use ncsc210_g.Kernel.Mutex.Invariant.{Reach-Inv, is_pid}

-- Two processes never hold one mutex: in a reachable state, if calls gave mutex `n` to `p` and to
-- `q` and neither has given it back, they are one process.
pub mutual_exclusion :
    {s : System} → Reach s → (p q n : ℕ) → s.granted p n ≡ true → s.granted q n ≡ true → p ≡ q
mutual_exclusion r p q n hp hq =
    let v = Reach-Inv r in ground (arith, v.agree p n, v.agree q n, hp, hq)

owner_cases : (z : ℤ) → is_pid z ≡ true → (q : ℕ) × (z ≡ pos q)
owner_cases (pos q) h = (q, refl)
owner_cases (negsuc q) h = cc

-- No wakeup is lost: whoever sleeps on a mutex waits for another process that holds it.
pub sleeper_waits_for_holder :
    {s : System}
    → Reach s
    → (p n : ℕ) → s.status p ≡ asleep n
    → (q : ℕ) × (s.granted q n ≡ true) × (q ≢ p)
sleeper_waits_for_holder {s} r p n h =
    let v = Reach-Inv r in
    let (locked, other) = v.waits p n h in
    let (q, e) = owner_cases (s.table n).owner_pid (v.owned n locked) in
    (q, ground (arith, v.agree q n, locked, e), λ same. ground (arith, other, e, same))

-- sys_mutex_owner tells who holds a mutex: in a reachable state a positive pid comes back exactly
-- if that process holds the mutex in use, and 0 only if nobody does.
pub owner_lem :
    {s : System}
    → Reach s
    → (n : ℕ) → n < nkmutex
    → (s.table n).used ≡ true
    → ((p : ℕ) → 0 < p → (sys_mutex_owner s.table (pos n) ≡ pos p) ↔ (s.granted p n ≡ true))
      × (sys_mutex_owner s.table (pos n) ≡ pos 0 → (p : ℕ) → 0 < p → s.granted p n ≡ false)
unfolding sys_mutex_owner
owner_lem {s} r n low used =
    let v = Reach-Inv r in
    (
      λ p positive. (ground (arith, v.agree p n), ground (arith, v.agree p n)),
      λ e p positive. ground (arith, v.agree p n),
    )

-- After a successful unlock by the holder nobody sleeps on the mutex any more, all who slept there
-- are awake, and the next process that asks gets it.
pub unlock_releases :
    {s : System}
    → Reach s
    → (p n : ℕ) → n < nkmutex
    → s.granted p n ≡ true
    → let (t, channel, r) = sys_mutex_unlock s.table (pos n) p in
      (r ≡ pos 0)
      × ((q : ℕ) → s.status q ≡ asleep n → woken channel (s.status q) ≡ awake n)
      × ((q : ℕ) → (sys_mutex_trylock t (pos n) q).1 ≡ pos 0)
unfolding sys_mutex_unlock sys_mutex_trylock
unlock_releases {s} r p n low held =
    let v = Reach-Inv r in
    let e = v.agree p n in
    let used : (s.table n).used ≡ true = ground (arith, e, held, v.fresh n) in
    (
      ground (arith, e, used, held),
      λ q h. ground (arith, e, used, held, h),
      λ q. ground (arith, e, used, held),
    )

-- sys_mutex_create hands out the first entry that is not in use, unlocked, and leaves the other
-- entries alone; it fails exactly if all are in use, and then changes nothing.
pub create_lem :
    (t : Table)
    → ((n : ℕ) × (n < nkmutex)
        × ((t n).used ≡ false)
        × ((m : ℕ) → m < n → (t m).used ≡ true)
        × ((sys_mutex_create t).1 ≡ pos n)
        × ((sys_mutex_create t).0
            ≡ update t n (record { used = true; locked = false; owner_pid = minus_one })))
      ⊎ (((m : ℕ) → m < nkmutex → (t m).used ≡ true) × (sys_mutex_create t ≡ (t, minus_one)))
unfolding sys_mutex_create
create_lem t =
    let test : ℕ → Bool = λ i. not (t i).used in
    elim (Option-cases (find_from test nkmutex 0)) [
      | inl e ↦ inr (
        λ m low. ground (arith, find_from-none test nkmutex 0 e m (omega arith) low),
        rw (e, sys_mutex_create),
      )
      | inr (n, e) ↦
          let (_, low, hit, before) = find_from-some test nkmutex 0 n e in
          inl (
            n,
            low,
            ground (arith, hit),
            λ m below. ground (arith, before m (omega arith) below),
            rw (e, sys_mutex_create),
            rw (e, sys_mutex_create),
          )
    ]

-- The mutex is not recursive and has an owner: in a reachable state a process that holds it cannot
-- lock it again, one that does not hold it cannot unlock it, and neither call changes anything.
pub ownership :
    {s : System}
    → Reach s
    → (p n : ℕ)
    → (s.granted p n ≡ true
        → n < nkmutex
        → sys_mutex_lock s.table (pos n) p ≡ returns s.table minus_one)
      × (s.granted p n ≡ false → sys_mutex_unlock s.table (pos n) p ≡ (s.table, none, minus_one))
unfolding sys_mutex_lock sys_mutex_unlock lock_entry
ownership {s} r p n =
    let v = Reach-Inv r in
    let e = v.agree p n in
    (λ held low. ground (arith, e, held, v.fresh n), λ free. ground (arith, e, free))
