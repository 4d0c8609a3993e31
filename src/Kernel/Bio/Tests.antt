-- ===== src/Kernel/Bio/Tests.antt =====
-- A block is read, released, and found again.
use ncsc210_g.Base.{◌≡◌, refl, false, some, arith}
use ncsc210_g.Kernel.Bio.{Bcache, binit, first_buf, set_buf, holds, bget, brelse}
use ncsc210_g.Kernel.Bio.Blocks.{IsCache}
use ncsc210_g.Kernel.Bio.Uses.{gets, releases, Reach, start, next, Reach-IsCache}

abbrev taken : Bcache
taken = set_buf 0 (record { dev = 1; blockno = 7; valid = false; refcnt = 1 }) binit

-- The least recently used buffer is the one that binit put on the list first.
takes_last : bget 1 7 binit ≡ some (0, taken)
unfolding bget binit
takes_last = refl

moves_to_head : first_buf (holds (brelse 0 taken) 1 7) (brelse 0 taken).order ≡ some 0
unfolding brelse binit first_buf
moves_to_head = refl

taken-Reach : Reach (brelse 0 taken)
unfolding binit
taken-Reach =
    next (next start (gets 1 7 0 taken takes_last)) (releases 0 (omega arith) (omega arith))

Reach-IsCache_example : IsCache (brelse 0 taken)
Reach-IsCache_example = Reach-IsCache (brelse 0 taken) taken-Reach
