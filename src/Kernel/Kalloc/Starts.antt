-- ===== src/Kernel/Kalloc/Starts.antt =====
-- The pages after kinit of kalloc.c, and in all that follows.
use ncsc210_g.Base.{
  ℕ, zero, suc, ◌+◌, ◌%◌, ◌≤◌, ◌<◌, ◌≡◌, refl, sym, ap, subst, ◌∙◌, ◌≢◌, inl, inr, true, false,
  Option, some, List, [], ◌∷◌, arith, ltb, leb, ◌==◌, if◌then◌else◌, Bool-cases,
}
use ncsc210_g.Kernel.Kalloc.{
  phystop, Kmem, junk_free, not_a_page, filled, linked, kfree, kalloc, pground_up, freerange_loop,
  freerange, kinit,
}
use ncsc210_g.Kernel.Kalloc.Given.{
  times, Chain, is_page, Conserved, linked-Chain, Held, Step, gives, frees, writes, Reach, start,
  next, is_page-le, gives-Conserved, frees-Conserved, writes-Conserved,
}

is_page-next :
    (e p x : ℕ)
    → e ≤ p
    → p % 4096 ≡ 0
    → (if p == x then 1 else 0) + (if is_page e p x then 1 else 0)
      ≡ (if is_page e (p + 4096) x then 1 else 0)
is_page-next e p x a b = elim (Bool-cases (p == x)) [
  | inl s ↦ ground (arith, a, b, s)
  | inr s ↦ elim (Bool-cases (x % 4096 == 0)) [
    | inl m ↦
        let aligned : x % 4096 ≡ 0 = ground (arith, m) in
        elim (Bool-cases (ltb x p)) [
          | inl t ↦ ground (arith, a, t, s, m)
          | inr t ↦
              let far : ltb x (p + 4096) ≡ false = elim (Bool-cases (ltb x (p + 4096))) [
                | inl u ↦ absurd (ground (arith, b, aligned, t, u, s))
                | inr u ↦ u
              ] in
              ground (arith, t, s, m, far)
        ]
    | inr m ↦ ground (arith, s, m)
  ]
]

-- kfree of the page after those that are free.
linked-Conserved :
    (e p : ℕ) (k : Kmem)
    → 0 < e
    → e ≤ p
    → p % 4096 ≡ 0
    → Conserved e p k []
    → Conserved e (p + 4096) (linked p (filled p junk_free k)) []
linked-Conserved e p k a b c g =
    let o = g.once p in
    let out : is_page e p p ≡ false = ground arith in
    let alone : times p g.free ≡ 0 = ground (arith, o, out) in
    record {
      free = p ∷ g.free;
      chain = linked-Chain p junk_free k g.free alone (λ z. omega (arith, z, a, b)) g.chain;
      once = λ x. let o2 = g.once x in let n = is_page-next e p x b c in omega (arith, o2, n);
    }

-- The loop of freerange from `p` on, when the pages below `p` are free.
abbrev Ranged : (e l : ℕ) → Option Kmem → Type 0
Ranged e l r = (k1 : Kmem) × (r ≡ some k1) × Conserved e l k1 []

freerange_loop-Ranged :
    (fuel e p l : ℕ) (k : Kmem)
    → 0 < e
    → e ≤ p
    → p % 4096 ≡ 0
    → l % 4096 ≡ 0
    → l ≤ phystop
    → p ≤ l
    → l < p + fuel
    → Conserved e p k []
    → Ranged e l (freerange_loop fuel e p l k)
unfolding freerange_loop kfree
freerange_loop-Ranged zero e p l k a b c d f i j g = absurd (omega (arith, i, j))
freerange_loop-Ranged (suc fuel) e p l k a b c d f i j g = elim (Bool-cases (leb (p + 4096) l)) [
  | inl t ↦
      let fits : p + 4096 ≤ l = ground (arith, t) in
      let good : not_a_page e p ≡ false = ground (arith, b, c, fits, f) in
      rw (t, good)
        (freerange_loop-Ranged fuel e (p + 4096) l (linked p (filled p junk_free k)) a
          (omega (arith, b)) (omega (arith, c)) d f fits (omega (arith, j))
          (linked-Conserved e p k a b c g))
  | inr t ↦
      let same : p ≡ l = ground (arith, c, d, i, t) in
      rw t (k, refl, subst (λ q. Conserved e q k []) same g)
]

none_below : (e x : ℕ) → times x [] + times x [] ≡ (if is_page e (pground_up e) x then 1 else 0)
none_below e x = elim (Bool-cases (is_page e (pground_up e) x)) [
  | inl h ↦
      let aligned : x % 4096 ≡ 0 = ground (arith, h) in
      let high : e ≤ x = ground (arith, h) in
      let low : x < pground_up e = ground (arith, h) in absurd (omega (arith, aligned, high, low))
  | inr h ↦ rw h refl
]

-- kinit ends, and each page from the end of the kernel to PHYSTOP is then on the free list once, and
-- nothing else is.
kinit-Ranged :
    (e : ℕ) (word : ℕ → ℕ) → 0 < e → e ≤ phystop → Ranged e phystop (kinit phystop e word)
unfolding kinit freerange
kinit-Ranged e word a b =
    let up : e ≤ pground_up e = omega (arith, a) in
    let low : pground_up e ≤ phystop = omega (arith, b) in
    freerange_loop-Ranged phystop e (pground_up e) phystop (record { word = word; freelist = 0 }) a
      up (omega arith) refl (omega arith) low (omega (arith, a, up))
      (record { free = []; chain = refl; once = λ x. none_below e x })

kalloc_first : (k : Kmem) → (kalloc k).0 ≡ k.freelist
unfolding kalloc
kalloc_first k = elim (Bool-cases (k.freelist == 0)) [ inl e ↦ rw e refl | inr e ↦ rw e refl ]

Chain-empty : (word : ℕ → ℕ) (x : ℕ) (xs : List ℕ) → Chain word 0 xs → times x xs ≡ 0
Chain-empty word x [] c = refl
Chain-empty word x (y ∷ ys) (e, ne, c) = absurd (ne (sym e))

Step-Conserved :
    (e : ℕ) (s t : Held)
    → 0 < e
    → Step e s t
    → Conserved e phystop s.mem s.held
    → Conserved e phystop t.mem t.held
unfolding kalloc
Step-Conserved e s _ pos_end (gives p k h ne) c =
    let same : (kalloc s.mem).0 ≡ p = ap (λ x. x.0) h in
    let mem : (kalloc s.mem).1 ≡ k = ap (λ x. x.1) h in
    let some_free : s.mem.freelist ≢ 0 = λ z. ne (sym same ∙ kalloc_first s.mem ∙ z) in
    subst (λ m. Conserved e phystop m (p ∷ s.held)) mem
      (subst (λ q. Conserved e phystop (kalloc s.mem).1 (q ∷ s.held)) same
        (gives-Conserved e phystop s.mem s.held c.free c.chain c.once some_free))
Step-Conserved e s _ pos_end (frees before after p k h f) c =
    frees-Conserved e phystop p s.mem k before after pos_end (subst (Conserved e phystop s.mem) h c)
      f
Step-Conserved e s _ pos_end (writes p value h) c =
    writes-Conserved e phystop p value s.mem s.held c h

-- Whenever the kernel has started and frees and writes only pages that it was given, each page from the
-- end of the kernel to PHYSTOP is on the free list or held, once in all, and nothing else is on either.
pub Reach-Conserved :
    (e : ℕ) (word : ℕ → ℕ) (s : Held)
    → 0 < e
    → e ≤ phystop
    → Reach e word s
    → Conserved e phystop s.mem s.held
Reach-Conserved e word _ a b (start k h) =
    let (k1, h1, c) = kinit-Ranged e word a b in
    let same : k1 ≡ k = ground (arith, h, h1) in subst (λ m. Conserved e phystop m []) same c
Reach-Conserved e word t a b (next r step) =
    Step-Conserved e _ t a step (Reach-Conserved e word _ a b r)

-- A page that kalloc gives is not held by anybody, and it is a page of the memory that it manages.
kalloc_new :
    (e : ℕ) (word : ℕ → ℕ) (s : Held) (p : ℕ) (k : Kmem)
    → 0 < e
    → e ≤ phystop
    → Reach e word s
    → kalloc s.mem ≡ (p, k)
    → p ≢ 0
    → (times p s.held ≡ 0) × (is_page e phystop p ≡ true)
kalloc_new e word s p k a b r h ne =
    let c = Reach-Conserved e word _ a b (next r (gives p k h ne)) in
    let o = c.once p in
    let le = is_page-le e phystop p in
    let here : (p == p) ≡ true = ground arith in
    (ground (arith, o, le, here), ground (arith, o, here))

-- kalloc fails only when every page is held.
kalloc_none :
    (e : ℕ) (word : ℕ → ℕ) (s : Held) (k : Kmem) (x : ℕ)
    → 0 < e
    → e ≤ phystop
    → Reach e word s
    → kalloc s.mem ≡ (0, k)
    → is_page e phystop x ≡ true
    → times x s.held ≡ 1
unfolding kalloc
kalloc_none e word s k x a b r h page =
    let c = Reach-Conserved e word s a b r in
    let zero_is : s.mem.freelist ≡ 0 = sym (kalloc_first s.mem) ∙ ap (λ q. q.0) h in
    let none_free =
      Chain-empty s.mem.word x c.free (subst (λ q. Chain s.mem.word q c.free) zero_is c.chain) in
    let o = c.once x in ground (arith, o, page, none_free)
