-- ===== src/Kernel/Strings.antt =====
-- xv6-riscv/kernel/string.c: memory as a function from addresses to bytes. Regions do not wrap around the
-- end of the address space. A byte is the value of an unsigned char.
mod Tests
pub mod Moves
pub mod Copies
use ncsc210_g.Base.{
  ℕ, zero, suc, ◌+◌, ◌-◌, ◌%◌, not, ◌&&◌, Option, none, some, ltb, ◌==◌, if◌then◌else◌, ℤ, pos,
  negsuc, update,
}

abbrev pub Memory : Type 0
Memory = ℕ → ℕ

-- The loop of memset.
memset : (dst c n : ℕ) → Memory → Memory
memset dst c zero m = m
memset dst c (suc n) m = memset (dst + 1) c n (update m dst (c % 256))

-- The difference of two bytes, as an int.
unfoldable pub byte_difference : ℕ → ℕ → ℤ
byte_difference a b = if ltb a b then negsuc (b - a - 1) else pos (a - b)

unfoldable pub memcmp : (v1 v2 n : ℕ) → Memory → ℤ
unfolding byte_difference
memcmp v1 v2 zero m = pos 0
memcmp v1 v2 (suc n) m =
    let rest = memcmp (v1 + 1) (v2 + 1) n m in
    if m v1 == m v2 then rest else byte_difference (m v1) (m v2)

-- The loop of memmove that goes up.
move_up : (n d s : ℕ) → Memory → Memory
move_up zero d s m = m
move_up (suc n) d s m = move_up n (d + 1) (s + 1) (update m d (m s))

-- The loop that goes down, with both pointers behind the regions.
move_down : (n d s : ℕ) → Memory → Memory
move_down zero d s m = m
move_down (suc n) d s m = move_down n (d - 1) (s - 1) (update m (d - 1) (m (s - 1)))

unfoldable pub memmove : (dst src n : ℕ) → Memory → Memory
unfolding move_up move_down
memmove dst src n m =
    if n == 0
    then m
    else if ltb src dst && ltb dst (src + n)
    then move_down n (dst + n) (src + n) m
    else move_up n dst src m

unfoldable pub strncmp : (p q n : ℕ) → Memory → ℤ
unfolding byte_difference
strncmp p q zero m = pos 0
strncmp p q (suc n) m =
    let rest = strncmp (p + 1) (q + 1) n m in
    if not (m p == 0) && m p == m q then rest else byte_difference (m p) (m q)

-- The second loop of strncpy.
fill : (n s : ℕ) → Memory → Memory
fill zero s m = m
fill (suc n) s m = fill n (s + 1) (update m s 0)

-- The first loop, for n that is not negative. The test n-- takes one off also where the loop ends on a
-- zero byte.
strncpy : (n s t : ℕ) → Memory → Memory
unfolding fill
strncpy zero s t m = m
strncpy (suc n) s t m =
    let m1 = update m s (m t) in
    let more = strncpy n (s + 1) (t + 1) m1 in if m t == 0 then fill n (s + 1) m1 else more

-- The loop of safestrcpy, with `left` rounds to go before `--n` is 0.
safe_loop : (left s t : ℕ) → Memory → Memory
safe_loop zero s t m = update m s 0
safe_loop (suc left) s t m =
    let m1 = update m s (m t) in
    let more = safe_loop left (s + 1) (t + 1) m1 in if m t == 0 then update m1 (s + 1) 0 else more

unfoldable pub safestrcpy : (s t : ℕ) (n : ℤ) → Memory → Memory
unfolding safe_loop
safestrcpy s t (negsuc n) m = m
safestrcpy s t (pos zero) m = m
safestrcpy s t (pos (suc n)) m = safe_loop n s t m

-- The loop of strlen, on fuel: `none` when it runs out.
strlen_loop : (fuel n s : ℕ) → Memory → Option ℕ
strlen_loop zero n s m = none
strlen_loop (suc fuel) n s m =
    let more = strlen_loop fuel (n + 1) s m in if m (s + n) == 0 then some n else more

unfoldable pub strlen : (fuel s : ℕ) → Memory → Option ℕ
unfolding strlen_loop
strlen fuel s m = strlen_loop fuel 0 s m
