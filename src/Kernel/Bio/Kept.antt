-- ===== src/Kernel/Bio/Kept.antt =====
-- The order of the buffer cache under the changes of bio.c.
use ncsc210_g.Base.{
  ℕ, ◌+◌, ◌%◌, ◌^◌, ◌<◌, ◌≡◌, sym, ap, subst, ◌∙◌, ◌≢◌, inl, inr, false, arith, ◌==◌, ==_iff,
  Bool-cases,
}
use ncsc210_g.Kernel.Bio.{nbuf, Bcache, holds}
use ncsc210_g.Kernel.Bio.Blocks.{among, IsCache, Got}

-- Changes of a buffer that leave it its block.
pub kept-IsCache :
    (c c1 : Bcache)
    → IsCache c
    → ((b : ℕ) → ((c1.buf b).dev ≡ (c.buf b).dev) × ((c1.buf b).blockno ≡ (c.buf b).blockno))
    → ((b : ℕ) → among c1.order b ≡ among c.order b)
    → IsCache c1
kept-IsCache c c1 k same order_same = record {
  complete = λ b low. order_same b ∙ k.complete b low;
  in_range = λ b m. k.in_range b (sym (order_same b) ∙ m);
  one_buffer = λ i j a b ne d e.
      let (di, bi) = same i in
      let (dj, bj) = same j in
      k.one_buffer i j a b (λ z. ne (di ∙ z)) (sym di ∙ d ∙ dj) (sym bi ∙ e ∙ bj);
}

holds-parts :
    (c : Bcache) (dev blockno j : ℕ)
    → holds c dev blockno j ≡ false
    → (c.buf j).dev ≡ dev
    → (c.buf j).blockno ≢ blockno
holds-parts c dev blockno j h d e = ground (arith, h, d, e)

-- The buffer that bget gives has the block, and no other has it.
key-Got :
    (dev blockno : ℕ) (c c1 : Bcache) (b : ℕ)
    → Got dev blockno c c1 b
    → ((c1.buf b).dev ≡ dev) × ((c1.buf b).blockno ≡ blockno)
key-Got dev blockno c c1 b g = (ground (arith, g.holds_it), ground (arith, g.holds_it))

-- A new block in buffer `b`, which no other buffer has.
new_block-IsCache :
    (dev blockno : ℕ) (c c1 : Bcache) (b : ℕ)
    → Got dev blockno c c1 b
    → ((j : ℕ) → j < nbuf → holds c dev blockno j ≡ false)
    → IsCache c
    → IsCache c1
new_block-IsCache dev blockno c c1 b g missing k =
    let (dev_is, block_is) = key-Got dev blockno c c1 b g in
    let clash : (j : ℕ) → j < nbuf → b ≢ j → (c1.buf j).dev ≡ dev → (c1.buf j).blockno ≢ blockno =
      λ j low ne d.
        rw (g.others j ne) (
          holds-parts c dev blockno j (missing j low)
            (sym (ap (λ x. x.dev) (g.others j ne)) ∙ d)) in
    record {
      complete = λ x low. ap (λ o. among o x) g.order_same ∙ k.complete x low;
      in_range = λ x m. k.in_range x (sym (ap (λ o. among o x) g.order_same) ∙ m);
      one_buffer = λ i j a l ne d e. elim (Bool-cases (b == i)) [
        | inl s ↦ elim (Bool-cases (b == j)) [
          | inl t ↦ sym ((==_iff b i).0 s) ∙ (==_iff b j).0 t
          | inr t ↦
              let b_is = (==_iff b i).0 s in
              absurd (
                clash j l (λ u. ground (arith, t, u))
                  (sym d ∙ subst (λ x. (c1.buf x).dev ≡ dev) b_is dev_is)
                  (sym e ∙ subst (λ x. (c1.buf x).blockno ≡ blockno) b_is block_is))
        ]
        | inr s ↦ elim (Bool-cases (b == j)) [
          | inl t ↦
              let b_is = (==_iff b j).0 t in
              absurd (
                clash i a (λ u. ground (arith, s, u))
                  (d ∙ subst (λ x. (c1.buf x).dev ≡ dev) b_is dev_is)
                  (e ∙ subst (λ x. (c1.buf x).blockno ≡ blockno) b_is block_is))
          | inr t ↦
              let si = g.others i (λ u. ground (arith, s, u)) in
              let sj = g.others j (λ u. ground (arith, t, u)) in
              k.one_buffer i j a l (λ z. ne (ap (λ x. x.dev) si ∙ z))
                (sym (ap (λ x. x.dev) si) ∙ d ∙ ap (λ x. x.dev) sj)
                (sym (ap (λ x. x.blockno) si) ∙ e ∙ ap (λ x. x.blockno) sj)
        ]
      ];
    }

same_or_other :
    (dev blockno : ℕ) (c c1 : Bcache) (b j : ℕ)
    → Got dev blockno c c1 b
    → c1.buf b ≡ record (c.buf b) { refcnt = ((c.buf b).refcnt + 1) % 2 ^ 32 }
    → ((c1.buf j).dev ≡ (c.buf j).dev) × ((c1.buf j).blockno ≡ (c.buf j).blockno)
same_or_other dev blockno c c1 b j g e = elim (Bool-cases (b == j)) [
  | inl s ↦
      subst (λ x. ((c1.buf x).dev ≡ (c.buf x).dev) × ((c1.buf x).blockno ≡ (c.buf x).blockno))
        ((==_iff b j).0 s) (ap (λ x. x.dev) e, ap (λ x. x.blockno) e)
  | inr s ↦
      let o = g.others j (λ u. ground (arith, s, u)) in (ap (λ x. x.dev) o, ap (λ x. x.blockno) o)
]

pub Got-IsCache :
    (dev blockno : ℕ) (c c1 : Bcache) (b : ℕ) → Got dev blockno c c1 b → IsCache c → IsCache c1
Got-IsCache dev blockno c c1 b g k = elim g.cached_or_not [
  | inl e ↦
      kept-IsCache c c1 k (λ j. same_or_other dev blockno c c1 b j g e)
        (λ j. ap (λ o. among o j) g.order_same)
  | inr (zero_is, missing) ↦ new_block-IsCache dev blockno c c1 b g missing k
]
