-- ===== src/Kernel/Kalloc.antt =====
-- The allocator of physical pages, xv6-riscv/kernel/kalloc.c of G16_Project1_xv6CustomizeSystemCalls.
-- `kernel_end` is the symbol `end` of the linker. Each function holds kmem.lock, and is one step.
mod Tests
pub mod Given
pub mod Starts
use ncsc210_g.Base.{
  ℕ, zero, suc, ◌+◌, ◌*◌, ◌/◌, ◌%◌, Bool, not, ◌||◌, Option, none, some, ltb, leb, ◌==◌,
  if◌then◌else◌, update,
}

abbrev pub phystop : ℕ
phystop = 2281701376

-- The first word of each page, which is `next` of struct run in a free one, and kmem.freelist.
pub record Kmem : Type 0 where
  pub word : ℕ → ℕ
  pub freelist : ℕ

-- The words that memset leaves of the bytes 1 and 5.
abbrev pub junk_free : ℕ
junk_free = 72340172838076673

abbrev pub junk_given : ℕ
junk_given = 361700864190383365

-- What kfree panics on.
abbrev pub not_a_page : (kernel_end pa : ℕ) → Bool
not_a_page kernel_end pa = not (pa % 4096 == 0) || ltb pa kernel_end || leb phystop pa

abbrev pub filled : (pa junk : ℕ) → Kmem → Kmem
filled pa junk k = record k { word = update k.word pa junk }

abbrev pub linked : (pa : ℕ) → Kmem → Kmem
linked pa k = record { word = update k.word pa k.freelist; freelist = pa }

-- `none` is the panic.
unfoldable pub kfree : (kernel_end pa : ℕ) → Kmem → Option Kmem
kfree kernel_end pa k =
    if not_a_page kernel_end pa then none else some (linked pa (filled pa junk_free k))

-- The address of the page, 0 when there is none.
unfoldable pub kalloc : Kmem → ℕ × Kmem
kalloc k =
    let r = k.freelist in
    if r == 0 then (r, k) else (r, filled r junk_given (record k { freelist = k.word r }))

abbrev pub pground_up : ℕ → ℕ
pground_up sz = (sz + 4095) / 4096 * 4096

abbrev pub after_kfree : Option Kmem → (Kmem → Option Kmem) → Option Kmem
after_kfree none more = none
after_kfree (some k) more = more k

-- The loop of freerange on fuel; `none` is a panic, or that the fuel runs out.
freerange_loop : (fuel kernel_end p pa_end : ℕ) → Kmem → Option Kmem
unfolding kfree
freerange_loop zero kernel_end p pa_end k = none
freerange_loop (suc fuel) kernel_end p pa_end k =
    if leb (p + 4096) pa_end
    then after_kfree (kfree kernel_end p k) (freerange_loop fuel kernel_end (p + 4096) pa_end)
    else some k

unfoldable pub freerange : (fuel kernel_end pa_start pa_end : ℕ) → Kmem → Option Kmem
unfolding freerange_loop
freerange fuel kernel_end pa_start pa_end k =
    freerange_loop fuel kernel_end (pground_up pa_start) pa_end k

-- kmem.freelist is 0 at first; `word` is what the memory holds.
unfoldable pub kinit : (fuel kernel_end : ℕ) (word : ℕ → ℕ) → Option Kmem
unfolding freerange
kinit fuel kernel_end word =
    freerange fuel kernel_end kernel_end phystop (record { word = word; freelist = 0 })
