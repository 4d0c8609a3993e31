-- ===== src/Kernel/Kalloc/Tests.antt =====
-- A memory of two pages.
use ncsc210_g.Base.{ℕ, ◌≡◌, refl, none, some, [], ◌∷◌, arith}
use ncsc210_g.Kernel.Kalloc.{phystop, Kmem, kfree, kalloc, kinit}
use ncsc210_g.Kernel.Kalloc.Given.{Conserved, Held, gives, Reach, start, next}
use ncsc210_g.Kernel.Kalloc.Starts.{Reach-Conserved}

-- The kernel ends in the page before the last two.
abbrev kernel_end : ℕ
kernel_end = 2281693000

abbrev empty_mem : Kmem
empty_mem = record { word = λ a. 0; freelist = 0 }

abbrev started : Kmem
unfolding kinit
started = elim (kinit phystop kernel_end (λ a. 0)) [ none ↦ empty_mem | some k ↦ k ]

kinit-started : kinit phystop kernel_end (λ a. 0) ≡ some started
unfolding kinit
kinit-started = refl

last_page_first : (kalloc started).0 ≡ 2281697280
unfolding kalloc kinit
last_page_first = refl

abbrev one_held : Held
unfolding kalloc kinit
one_held = record { mem = (kalloc started).1; held = 2281697280 ∷ [] }

one_held-Reach : Reach kernel_end (λ a. 0) one_held
unfolding kalloc kinit
one_held-Reach =
    next (start started kinit-started)
      (gives 2281697280 (kalloc started).1 refl (λ z. omega (arith, z)))

Reach-Conserved_example : Conserved kernel_end phystop one_held.mem one_held.held
Reach-Conserved_example =
    Reach-Conserved kernel_end (λ a. 0) one_held (omega arith) (omega arith) one_held-Reach

kfree_inside_page : kfree kernel_end 2281693185 started ≡ none
unfolding kfree kinit
kfree_inside_page = refl
