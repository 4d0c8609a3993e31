-- ===== src/Kernel/Log/Reached.antt =====
-- end_op of log.c, and what holds in every state that the log reaches.
use ncsc210_g.Base.{
  ℕ, suc, ◌+◌, ◌-◌, ◌≤◌, ◌≡◌, refl, sym, ap, subst, ◌∙◌, Bool, true, false, List, [], ◌∷◌, ◌++◌,
  arith, ltb, leb, ◌==◌, if◌then◌else◌, ==_iff, length, length-append, All, update,
}
use ncsc210_g.Kernel.Log.{
  logblocks, maxopblocks, Block, Fs, commit, returns, end_last, end_round, end_op, listed,
  log_round, log_write,
}
use ncsc210_g.Kernel.Log.Crash.{Ready}
use ncsc210_g.Kernel.Log.Commits.{commit_power, commit-Done, Done-Ready}
use ncsc210_g.Kernel.Log.Operations.{
  Running, powered, Step, begins, writes, ends, Reach, recovered, next,
}
use ncsc210_g.Kernel.Log.Reserved.{
  sum, sum-append, Reserved, few-split, begin_op-Reserved, log_write-Reserved,
}

-- What end_op keeps, whether or not it commits: for a call that has left `credits` to the others.
ended-Reserved :
    (last : Bool) (s : Fs) (credits : List ℕ)
    → commit_power ≤ s.power
    → Ready s
    → length credits ≡ s.outstanding
    → All (λ c. c ≤ maxopblocks) credits
    → length s.lh + sum credits ≤ logblocks
    → s.committing ≡ false
    → (last ≡ true → sum credits ≡ 0)
    → Reserved (record { fs = end_last last s; credits = credits })
unfolding end_last
ended-Reserved false s credits power r n few room idle h = record {
  ready = r;
  running = n;
  few = few;
  room = room;
  not_committing = idle;
}
ended-Reserved true s credits power r n few room idle h =
    let d = commit-Done s r power in
    let k = Done-Ready s (commit s) d in
    record {
      ready = record { fits = k.fits; home = k.home; log_empty = k.log_empty; clean = k.clean };
      running = n ∙ sym d.outstanding_same;
      few = few;
      room = rw (d.lh_is) (omega (arith, h refl));
      not_committing = refl;
    }

end_round-returns :
    (committing : Bool) (s t : Fs)
    → end_round committing s ≡ returns t
    → end_last (s.outstanding == 0) s ≡ t
unfolding end_round
end_round-returns true s t e = cc
end_round-returns false s t e = cc

sum-none : (cs : List ℕ) → length cs ≡ 0 → sum cs ≡ 0
sum-none [] e = refl
sum-none (c ∷ cs) e = absurd (omega (arith, e))

end_op-Reserved :
    (o : Running) (front back : List ℕ) (c power : ℕ) (s : Fs)
    → o.credits ≡ front ++ c ∷ back
    → commit_power ≤ power
    → end_op (powered power o.fs) ≡ returns s
    → Reserved o
    → Reserved (record { fs = s; credits = front ++ back })
unfolding end_op
end_op-Reserved o front back c power s split enough e r =
    let fs1 : Fs = record o.fs { power = power; outstanding = o.fs.outstanding - 1 } in
    let s_is = end_round-returns o.fs.committing fs1 s e in
    let total : sum o.credits ≡ sum front + (c + sum back) =
      ap sum split ∙ sum-append front (c ∷ back) in
    let count : length o.credits ≡ length front + suc (length back) =
      ap length split ∙ length-append front (c ∷ back) in
    let left : length (front ++ back) ≡ o.fs.outstanding - 1 =
      omega (arith, r.running, count, length-append front back) in
    subst (λ s. Reserved (record { fs = s; credits = front ++ back })) s_is
      (ended-Reserved (fs1.outstanding == 0) fs1 (front ++ back) enough
        (record {
          fits = r.ready.fits;
          home = r.ready.home;
          log_empty = r.ready.log_empty;
          clean = r.ready.clean;
        })
        left (few-split front back c (subst (All (λ c. c ≤ maxopblocks)) split r.few)).1
        (omega (arith, r.room, total, sum-append front back)) r.not_committing
        (λ last. sum-none (front ++ back) (left ∙ (==_iff (o.fs.outstanding - 1) 0).0 last)))

step-Reserved : {o p : Running} → Step o p → Reserved o → Reserved p
step-Reserved {o} (begins s e) r = begin_op-Reserved o s e r
step-Reserved {o} (writes front c back b v s split h e) r =
    log_write-Reserved o front back c b v s split h e r
step-Reserved {o} (ends front c back power s split enough e) r =
    end_op-Reserved o front back c power s split enough e r

reached : {o : Running} → Reach o → Reserved o
reached (recovered s clear_lh idle quiet empty same) = record {
  ready = record {
    fits = rw clear_lh (omega arith);
    home = rw clear_lh tt;
    log_empty = empty;
    clean = λ x h e. same x;
  };
  running = sym idle;
  few = tt;
  room = rw clear_lh (omega arith);
  not_committing = quiet;
}
reached (next r step) = step-Reserved step (reached r)

-- In every state that the file system calls reach, from a recovery on: the log on the disk is empty, and
-- outside it the cache differs from the disk only in blocks of the transaction; as many calls run as
-- `outstanding` says, each with at most MAXOPBLOCKS blocks to write, and the log has room for these and
-- the transaction together; no commit is under way.
pub Reach-Reserved : (o : Running) → Reach o → Reserved o
Reach-Reserved o r = reached r

-- A call that has written fewer than MAXOPBLOCKS blocks may write one more, without a panic.
pub log_write_no_panic :
    (o : Running) (front : List ℕ) (c : ℕ) (back : List ℕ) (b : ℕ) (v : Block)
    → Reach o
    → o.credits ≡ front ++ suc c ∷ back
    → log_write b v o.fs
      ≡ returns (record o.fs {
        cache = update o.fs.cache b v;
        lh = if listed o.fs.lh b then o.fs.lh else o.fs.lh ++ b ∷ [];
      })
unfolding log_write log_round
log_write_no_panic o front c back b v reach split =
    let r = reached reach in
    let total : sum o.credits ≡ sum front + (suc c + sum back) =
      ap sum split ∙ sum-append front (suc c ∷ back) in
    let count : length o.credits ≡ length front + suc (length back) =
      ap length split ∙ length-append front (suc c ∷ back) in
    let room : leb logblocks (length o.fs.lh) ≡ false = ground (arith, r.room, total) in
    let inside : ltb o.fs.outstanding 1 ≡ false = ground (arith, r.running, count) in
    rw (room, inside) refl
