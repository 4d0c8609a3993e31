-- ===== src/Kernel/Strings/Tests.antt =====
-- Copies of a few bytes.
use ncsc210_g.Base.{ℕ, ◌-◌, ◌≤◌, ◌≡◌, refl, ◌⊎◌, inr, some, arith, ◌==◌, if◌then◌else◌, pos, negsuc}
use ncsc210_g.Kernel.Strings.{Memory, memcmp, memmove, strncmp, safestrcpy, strlen}
use ncsc210_g.Kernel.Strings.Moves.{memmove_lem}
use ncsc210_g.Kernel.Strings.Copies.{strlen-safestrcpy}

-- The bytes 1, 2, 3, ... from address 10 on, and zero at 14.
abbrev counted : Memory
counted x = if x == 14 then 0 else x - 9

overlapping_up : memmove 12 10 3 counted 14 ≡ 3
unfolding memmove
overlapping_up = refl

overlapping_down : memmove 10 12 4 counted 13 ≡ 6
unfolding memmove
overlapping_down = refl

memmove_lem_example : memmove 12 10 3 counted 13 ≡ 2
memmove_lem_example = memmove_lem 12 10 3 counted 13

different_bytes : memcmp 10 20 3 counted ≡ negsuc 9
unfolding memcmp
different_bytes = refl

equal_strings : strncmp 10 10 9 counted ≡ pos 0
unfolding strncmp
equal_strings = refl

cut_copy : safestrcpy 40 10 (pos 3) counted 42 ≡ 0
unfolding safestrcpy
cut_copy = refl

strlen-safestrcpy_example :
    (k : ℕ) × (strlen 3 40 (safestrcpy 40 10 (pos 3) counted) ≡ some k)
    × (k ≤ 2)
    × ((strlen 3 10 counted ≡ some k) ⊎ (k ≡ 2))
strlen-safestrcpy_example = strlen-safestrcpy 40 10 2 counted (inr (omega arith))
