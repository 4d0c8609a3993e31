-- ===== src/Kernel/Bio/Uses.antt =====
-- The buffer cache in use: bget, brelse, bpin and bunpin of bio.c in any order.
use ncsc210_g.Base.{
  ℕ, zero, suc, ◌+◌, ◌<◌, ◌≡◌, refl, sym, ap, subst, ◌∙◌, inl, inr, true, not, ◌&&◌, ◌||◌, some,
  List, [], ◌∷◌, arith, ltb, leb, ◌==◌, ==_iff, Bool-cases,
}
use ncsc210_g.Kernel.Bio.{
  nbuf, Buf, Bcache, binit_order, binit, set_buf, bget, read_in, without, decrement, brelse, bpin,
  bunpin,
}
use ncsc210_g.Kernel.Bio.Kept.{kept-IsCache, Got-IsCache}
use ncsc210_g.Kernel.Bio.Blocks.{among, IsCache, Gets, set_buf-here, bget_lem}

-- A buffer is read in, given back, pinned and unpinned by those who use it.
pub data Step (c : Bcache) : Bcache → Type 0 where
  gets : (dev blockno b : ℕ) (c1 : Bcache) → bget dev blockno c ≡ some (b, c1) → Step c c1
  reads : (b : ℕ) → b < nbuf → 0 < (c.buf b).refcnt → Step c (read_in b c)
  releases : (b : ℕ) → b < nbuf → 0 < (c.buf b).refcnt → Step c (brelse b c)
  pins : (b : ℕ) → b < nbuf → 0 < (c.buf b).refcnt → Step c (bpin b c)
  unpins : (b : ℕ) → b < nbuf → 0 < (c.buf b).refcnt → Step c (bunpin b c)

pub data Reach : Bcache → Type 0 where
  start : Reach binit
  next : {c d : Bcache} → Reach c → Step c d → Reach d

among-binit_order :
    (left b x : ℕ) (order : List ℕ)
    → among (binit_order left b order) x ≡ ((leb b x && ltb x (b + left)) || among order x)
unfolding binit_order
among-binit_order zero b x order = elim (Bool-cases (leb b x)) [
  | inl e ↦ ground (arith, e)
  | inr e ↦ ground (arith, e)
]
among-binit_order (suc left) b x order =
    let ih = among-binit_order left (b + 1) x (b ∷ order) in
    elim (Bool-cases (b == x)) [ inl e ↦ ground (arith, ih, e) | inr e ↦ ground (arith, ih, e) ]

binit-IsCache : IsCache binit
unfolding binit
binit-IsCache = record {
  complete = λ b low. ground (arith, among-binit_order nbuf 0 b []);
  in_range = λ b m. ground (arith, among-binit_order nbuf 0 b [], m);
  one_buffer = λ i j a b ne d e. absurd (ne refl);
}

-- A change of a buffer that leaves it its block.
set_buf-IsCache :
    (b : ℕ) (v : Buf) (c : Bcache)
    → v.dev ≡ (c.buf b).dev
    → v.blockno ≡ (c.buf b).blockno
    → IsCache c
    → IsCache (set_buf b v c)
set_buf-IsCache b v c d e k =
    kept-IsCache c (set_buf b v c) k
      (λ j. elim (Bool-cases (b == j)) [
        | inl s ↦
            subst
              (λ x.
                (((set_buf b v c).buf x).dev ≡ (c.buf x).dev)
                × (((set_buf b v c).buf x).blockno ≡ (c.buf x).blockno))
              ((==_iff b j).0 s)
              (
                ap (λ x. x.dev) (set_buf-here b v c) ∙ d,
                ap (λ x. x.blockno) (set_buf-here b v c) ∙ e,
              )
        | inr s ↦ rw s (refl, refl)
      ])
      (λ j. refl)

among-without :
    (b : ℕ) (bs : List ℕ) (x : ℕ) → among (without b bs) x ≡ (among bs x && not (b == x))
unfolding without
among-without b [] x = refl
among-without b (y ∷ bs) x =
    let ih = among-without b bs x in
    elim (Bool-cases (y == b)) [
      | inl e ↦ elim (Bool-cases (y == x)) [
        | inl f ↦ ground (arith, ih, e, f)
        | inr f ↦ ground (arith, ih, e, f)
      ]
      | inr e ↦ elim (Bool-cases (y == x)) [
        | inl f ↦ ground (arith, ih, e, f)
        | inr f ↦ ground (arith, ih, e, f)
      ]
    ]

-- Moved to the head of the list.
moved-among :
    (b : ℕ) (bs : List ℕ) (x : ℕ) → among bs b ≡ true → among (b ∷ without b bs) x ≡ among bs x
moved-among b bs x h =
    let w = among-without b bs x in
    elim (Bool-cases (b == x)) [
      | inl e ↦ let s : b ≡ x = (==_iff b x).0 e in rw e (sym (subst (λ y. among bs y ≡ true) s h))
      | inr e ↦ ground (arith, w, e)
    ]

moved-IsCache :
    (b : ℕ) (v : Buf) (c : Bcache)
    → b < nbuf
    → v.dev ≡ (c.buf b).dev
    → v.blockno ≡ (c.buf b).blockno
    → IsCache c
    → IsCache (record (set_buf b v c) { order = b ∷ without b c.order })
moved-IsCache b v c low d e k =
    let s = set_buf-IsCache b v c d e k in
    let same = λ (x : ℕ). moved-among b c.order x (k.complete b low) in
    record {
      complete = λ x l. same x ∙ k.complete x l;
      in_range = λ x m. k.in_range x (sym (same x) ∙ m);
      one_buffer = s.one_buffer;
    }

brelse-IsCache : (b : ℕ) (c : Bcache) → b < nbuf → IsCache c → IsCache (brelse b c)
unfolding brelse
brelse-IsCache b c low k =
    let v : Buf = record (c.buf b) { refcnt = decrement (c.buf b).refcnt } in
    elim (Bool-cases (decrement (c.buf b).refcnt == 0)) [
      | inl e ↦ rw e (moved-IsCache b v c low refl refl k)
      | inr e ↦ rw e (set_buf-IsCache b v c refl refl k)
    ]

step-IsCache : {c d : Bcache} → Step c d → IsCache c → IsCache d
unfolding bpin bunpin
step-IsCache {c} (gets dev blockno b c1 e) k =
    let g : Gets dev blockno c (some (b, c1)) =
      subst (Gets dev blockno c) e (bget_lem dev blockno c k) in
    Got-IsCache dev blockno c c1 b g k
step-IsCache {c} (reads b low used) k = set_buf-IsCache b _ c refl refl k
step-IsCache {c} (releases b low used) k = brelse-IsCache b c low k
step-IsCache {c} (pins b low used) k = set_buf-IsCache b _ c refl refl k
step-IsCache {c} (unpins b low used) k = set_buf-IsCache b _ c refl refl k

reached : {c : Bcache} → Reach c → IsCache c
reached start = binit-IsCache
reached (next r s) = step-IsCache s (reached r)

-- In every state that the buffer cache reaches, the list holds exactly the buffers of the table, and a
-- block of a device other than 0 is in one buffer at most.
pub Reach-IsCache : (c : Bcache) → Reach c → IsCache c
Reach-IsCache c r = reached r
