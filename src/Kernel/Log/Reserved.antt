-- ===== src/Kernel/Log/Reserved.antt =====
-- begin_op and log_write of log.c keep room in the log for the calls that run.
use ncsc210_g.Base.{
  ℕ, suc, ◌+◌, ◌*◌, ◌≤◌, ◌≡◌, refl, ap, subst, ◌∙◌, ◌≢◌, inl, inr, Bool, true, false, List, [], ◌∷◌,
  ◌++◌, arith, if◌then◌else◌, Bool-cases, length, length-append, All, update,
}
use ncsc210_g.Kernel.Log.{
  logblocks, maxopblocks, Block, Fs, returns, begin_round, begin_op, listed, log_round, log_write,
}
use ncsc210_g.Kernel.Log.Writes.{is_home, AllHome, update-other}
use ncsc210_g.Kernel.Log.Crash.{Ready}
use ncsc210_g.Kernel.Log.Operations.{Running}

abbrev pub sum : List ℕ → ℕ
sum [] = 0
sum (c ∷ cs) = c + sum cs

pub sum-append : (xs ys : List ℕ) → sum (xs ++ ys) ≡ sum xs + sum ys
sum-append [] ys = omega arith
sum-append (x ∷ xs) ys = omega (arith, sum-append xs ys)

-- The room in the log is given out: to blocks that are there, and to the calls that run.
pub record Reserved (o : Running) : Type 0 where
  pub ready : Ready o.fs
  pub running : length o.credits ≡ o.fs.outstanding
  pub few : All (λ c. c ≤ maxopblocks) o.credits
  pub room : length o.fs.lh + sum o.credits ≤ logblocks
  pub not_committing : o.fs.committing ≡ false

sum-few : (cs : List ℕ) → All (λ c. c ≤ maxopblocks) cs → sum cs ≤ length cs * maxopblocks
sum-few [] h = omega arith
sum-few (c ∷ cs) h = omega (arith, h.0, sum-few cs h.1)

pub few-split :
    (front back : List ℕ) (c : ℕ)
    → All (λ c. c ≤ maxopblocks) (front ++ c ∷ back)
    → (c ≤ maxopblocks) × All (λ c. c ≤ maxopblocks) (front ++ back)
few-split [] back c h = h
few-split (x ∷ front) back c h = let (a, b) = few-split front back c h.1 in (a, (h.0, b))

few-set :
    (front back : List ℕ) (c d : ℕ)
    → All (λ c. c ≤ maxopblocks) (front ++ c ∷ back)
    → d ≤ c
    → All (λ c. c ≤ maxopblocks) (front ++ d ∷ back)
few-set [] back c d h l = (omega (arith, h.0, l), h.1)
few-set (x ∷ front) back c d h l = (h.0, few-set front back c d h.1 l)

-- What a round of begin_op has found when it returns.
begin_round-returns :
    (committing exhausts : Bool) (s t : Fs)
    → begin_round committing exhausts s ≡ returns t
    → (exhausts ≡ false) × (record s { outstanding = s.outstanding + 1 } ≡ t)
unfolding begin_round
begin_round-returns true exhausts s t e = cc
begin_round-returns false true s t e = cc
begin_round-returns false false s t e = (refl, cc)

pub begin_op-Reserved :
    (o : Running) (s : Fs)
    → begin_op o.fs ≡ returns s
    → Reserved o
    → Reserved (record { fs = s; credits = maxopblocks ∷ o.credits })
unfolding begin_op
begin_op-Reserved o s e r =
    let (fits, s_is) = begin_round-returns o.fs.committing _ o.fs s e in
    subst (λ s. Reserved (record { fs = s; credits = maxopblocks ∷ o.credits })) s_is
      (record {
        ready = record {
          fits = r.ready.fits;
          home = r.ready.home;
          log_empty = r.ready.log_empty;
          clean = r.ready.clean;
        };
        running = omega (arith, r.running);
        few = (omega arith, r.few);
        room = ground (arith, fits, sum-few o.credits r.few, r.running);
        not_committing = r.not_committing;
      })

log_round-returns :
    (full outside : Bool) (b : ℕ) (v : Block) (s t : Fs)
    → log_round full outside b v s ≡ returns t
    → record s { cache = update s.cache b v; lh = if listed s.lh b then s.lh else s.lh ++ b ∷ [] }
      ≡ t
unfolding log_round
log_round-returns true outside b v s t e = cc
log_round-returns false true b v s t e = cc
log_round-returns false false b v s t e = cc

listed-snoc :
    (blocks : List ℕ) (b x : ℕ)
    → listed (blocks ++ b ∷ []) x ≡ false
    → (b ≢ x) × (listed blocks x ≡ false)
listed-snoc [] b x e = ((λ h. ground (arith, e, h)), refl)
listed-snoc (c ∷ blocks) b x e =
    let (ne, rest) = listed-snoc blocks b x (ground (arith, e)) in (ne, ground (arith, e, rest))

home-snoc :
    (start : ℕ) (blocks : List ℕ) (b : ℕ)
    → AllHome start blocks
    → is_home start b ≡ true
    → AllHome start (blocks ++ b ∷ [])
home-snoc start [] b h k = (k, tt)
home-snoc start (c ∷ blocks) b h k = (h.0, home-snoc start blocks b h.1 k)

-- The transaction with block `b`.
abbrev with_block : ℕ → List ℕ → List ℕ
with_block b lh = if listed lh b then lh else lh ++ b ∷ []

record WithBlock (start b : ℕ) (lh blocks : List ℕ) : Type 0 where
  grows : length blocks ≤ length lh + 1
  home : AllHome start blocks
  other : (x : ℕ) → listed blocks x ≡ false → (b ≢ x) × (listed lh x ≡ false)

listed-ne : (lh : List ℕ) (b x : ℕ) → listed lh b ≡ true → listed lh x ≡ false → b ≢ x
listed-ne lh b x h k e = ground (arith, h, k, e)

with_block-WithBlock :
    (start b : ℕ) (lh : List ℕ)
    → AllHome start lh
    → is_home start b ≡ true
    → WithBlock start b lh (with_block b lh)
with_block-WithBlock start b lh h k = elim (Bool-cases (listed lh b)) [
  | inl e ↦
      rw e (record { grows = omega arith; home = h; other = λ x l. (listed-ne lh b x e l, l) })
  | inr e ↦ rw e (record {
    grows = omega (arith, length-append lh (b ∷ []));
    home = home-snoc start lh b h k;
    other = λ x l. listed-snoc lh b x l;
  })
]

pub log_write-Reserved :
    (o : Running) (front back : List ℕ) (c b : ℕ) (v : Block) (s : Fs)
    → o.credits ≡ front ++ suc c ∷ back
    → is_home o.fs.start b ≡ true
    → log_write b v o.fs ≡ returns s
    → Reserved o
    → Reserved (record { fs = s; credits = front ++ c ∷ back })
unfolding log_write
log_write-Reserved o front back c b v s split h e r =
    let s_is = log_round-returns _ _ b v o.fs s e in
    let w = with_block-WithBlock o.fs.start b o.fs.lh r.ready.home h in
    let total : sum o.credits ≡ sum front + (suc c + sum back) =
      ap sum split ∙ sum-append front (suc c ∷ back) in
    let count : length o.credits ≡ length front + suc (length back) =
      ap length split ∙ length-append front (suc c ∷ back) in
    subst (λ s. Reserved (record { fs = s; credits = front ++ c ∷ back })) s_is
      (record {
        ready = record {
          fits = omega (arith, w.grows, r.room, total);
          home = w.home;
          log_empty = r.ready.log_empty;
          clean = λ x a l.
              let (ne, old) = w.other x l in
              update-other o.fs.cache b x v ne ∙ r.ready.clean x a old;
        };
        running = omega (arith, r.running, count, length-append front (c ∷ back));
        few =
            few-set front back (suc c) c (subst (All (λ c. c ≤ maxopblocks)) split r.few)
              (omega arith);
        room = omega (arith, w.grows, r.room, total, sum-append front (c ∷ back));
        not_committing = r.not_committing;
      })
