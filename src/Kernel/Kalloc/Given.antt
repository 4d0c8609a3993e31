-- ===== src/Kernel/Kalloc/Given.antt =====
-- The pages of kalloc.c in use: those that are free, and those that kalloc has given out.
use ncsc210_g.Base.{
  ℕ, ◌+◌, ◌%◌, ◌≤◌, ◌<◌, ◌≡◌, refl, subst, ◌≢◌, inl, inr, Bool, true, false, ◌&&◌, some, List, [],
  ◌∷◌, ◌++◌, arith, ltb, leb, ◌==◌, if◌then◌else◌, Bool-cases, update,
}
use ncsc210_g.Kernel.Kalloc.{
  phystop, Kmem, junk_free, junk_given, not_a_page, filled, linked, kfree, kalloc, kinit,
}

-- How often a page is in a list of pages.
abbrev pub times : ℕ → List ℕ → ℕ
times x [] = 0
times x (y ∷ ys) = (if y == x then 1 else 0) + times x ys

-- The free list, from a page on, goes through these pages.
abbrev pub Chain : (ℕ → ℕ) → ℕ → List ℕ → Type 0
Chain word p [] = p ≡ 0
Chain word p (x ∷ xs) = (p ≡ x) × (x ≢ 0) × Chain word (word x) xs

-- The pages from the end of the kernel on, below a limit.
abbrev pub is_page : (kernel_end limit pa : ℕ) → Bool
is_page kernel_end limit pa = pa % 4096 == 0 && leb kernel_end pa && ltb pa limit

-- Each page below the limit is either free or held, and only once, and there is nothing else.
pub record Conserved (kernel_end limit : ℕ) (k : Kmem) (held : List ℕ) : Type 0 where
  pub free : List ℕ
  pub chain : Chain k.word k.freelist free
  pub once : (x : ℕ) → times x free + times x held ≡ (if is_page kernel_end limit x then 1 else 0)

pub Chain-update :
    (word : ℕ → ℕ) (a v p : ℕ) (xs : List ℕ)
    → times a xs ≡ 0
    → Chain word p xs
    → Chain (update word a v) p xs
Chain-update word a v p [] h c = c
Chain-update word a v p (x ∷ xs) h (e, ne, c) = elim (Bool-cases (a == x)) [
  | inl s ↦ absurd (ground (arith, s, h))
  | inr s ↦
      let rest : times a xs ≡ 0 = ground (arith, h) in
      (e, ne, rw s (Chain-update word a v (word x) xs rest c))
]

times-append : (x : ℕ) (xs ys : List ℕ) → times x (xs ++ ys) ≡ times x xs + times x ys
times-append x [] ys = omega arith
times-append x (y ∷ xs) ys = let ih = times-append x xs ys in omega (arith, ih)

-- A page that is not in the list is put in front of it.
pub linked-Chain :
    (pa junk : ℕ) (k : Kmem) (xs : List ℕ)
    → times pa xs ≡ 0
    → pa ≢ 0
    → Chain k.word k.freelist xs
    → Chain (linked pa (filled pa junk k)).word pa (pa ∷ xs)
linked-Chain pa junk k xs h ne c =
    let here : (pa == pa) ≡ true = ground arith in
    (
      refl,
      ne,
      rw here (
          Chain-update (update k.word pa junk) pa k.freelist k.freelist xs h
            (Chain-update k.word pa junk k.freelist xs h c)),
    )

-- What happens in a kernel that only frees pages it was given, and writes to no others.
pub record Held : Type 0 where
  pub mem : Kmem
  pub held : List ℕ

pub data Step (kernel_end : ℕ) (s : Held) : Held → Type 0 where
  gives :
      (p : ℕ) (k : Kmem)
      → kalloc s.mem ≡ (p, k)
      → p ≢ 0
      → Step kernel_end s (record { mem = k; held = p ∷ s.held })
  frees :
      (before after : List ℕ) (p : ℕ) (k : Kmem)
      → s.held ≡ before ++ p ∷ after
      → kfree kernel_end p s.mem ≡ some k
      → Step kernel_end s (record { mem = k; held = before ++ after })
  writes :
      (p value : ℕ)
      → 0 < times p s.held
      → Step kernel_end s (record { mem = filled p value s.mem; held = s.held })

pub data Reach (kernel_end : ℕ) (word : ℕ → ℕ) : Held → Type 0 where
  start :
      (k : Kmem)
      → kinit phystop kernel_end word ≡ some k
      → Reach kernel_end word (record { mem = k; held = [] })
  next : {s t : Held} → Reach kernel_end word s → Step kernel_end s t → Reach kernel_end word t

pub is_page-le : (e l x : ℕ) → (if is_page e l x then 1 else 0) ≤ 1
is_page-le e l x = ground arith

-- kalloc takes the first page of the list.
pub gives-Conserved :
    (e l : ℕ) (k : Kmem) (held : List ℕ) (free : List ℕ)
    → Chain k.word k.freelist free
    → ((x : ℕ) → times x free + times x held ≡ (if is_page e l x then 1 else 0))
    → k.freelist ≢ 0
    → Conserved e l (kalloc k).1 ((kalloc k).0 ∷ held)
unfolding kalloc
gives-Conserved e l k held [] c once ne = absurd (ne c)
gives-Conserved e l k held (x ∷ xs) (s, nz, c) once ne =
    let no : (k.freelist == 0) ≡ false = ground (arith, ne) in
    let here : (x == x) ≡ true = ground arith in
    let o = once x in
    let le = is_page-le e l x in
    let alone : times x xs ≡ 0 = ground (arith, o, le, here) in
    rw (no, s)
      (record {
        free = xs;
        chain = Chain-update k.word x junk_given (k.word x) xs alone c;
        once = λ y. let o2 = once y in omega (arith, o2);
      })

-- The first occurrence of a page that is held goes from one list to the other.
pub frees-Conserved :
    (e l pa : ℕ) (k k1 : Kmem) (before after : List ℕ)
    → 0 < e
    → Conserved e l k (before ++ pa ∷ after)
    → kfree e pa k ≡ some k1
    → Conserved e l k1 (before ++ after)
unfolding kfree
frees-Conserved e l pa k k1 before after pos_end c h = elim (Bool-cases (not_a_page e pa)) [
  | inl bad ↦ absurd (ground (arith, bad, h))
  | inr good ↦
      let same : linked pa (filled pa junk_free k) ≡ k1 = ground (arith, good, h) in
      let here : (pa == pa) ≡ true = ground arith in
      let o = c.once pa in
      let le = is_page-le e l pa in
      let app = times-append pa before (pa ∷ after) in
      let alone : times pa c.free ≡ 0 = ground (arith, o, le, here, app) in
      let nz : pa ≢ 0 = λ z. ground (arith, good, z, pos_end) in
      subst (λ m. Conserved e l m (before ++ after)) same
        (record {
          free = pa ∷ c.free;
          chain = linked-Chain pa junk_free k c.free alone nz c.chain;
          once = λ x.
              let o2 = c.once x in
              let a = times-append x before (pa ∷ after) in
              let b = times-append x before after in omega (arith, o2, a, b);
        })
]

-- A word of a page that is held is not part of the list.
pub writes-Conserved :
    (e l p value : ℕ) (k : Kmem) (held : List ℕ)
    → Conserved e l k held
    → 0 < times p held
    → Conserved e l (filled p value k) held
writes-Conserved e l p value k held c h =
    let o = c.once p in
    let le = is_page-le e l p in
    let alone : times p c.free ≡ 0 = omega (arith, o, le, h) in
    record {
      free = c.free;
      chain = Chain-update k.word p value k.freelist c.free alone c.chain;
      once = c.once;
    }
