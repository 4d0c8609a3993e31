-- ===== src/Kernel/Pipe/Tests.antt =====
-- A pipe whose counters are about to wrap, with one byte in it.
use ncsc210_g.Base.{
  ℕ, ◌≡◌, refl, Bool, true, false, Option, none, some, List, [], ◌∷◌, arith, ◌==◌, if◌then◌else◌,
  pos,
}
use ncsc210_g.Kernel.Pipe.History.{
  Traffic, writes, reads, Reach, start, next, InOrder, Reach-InOrder,
}
use ncsc210_g.Kernel.Pipe.{Pipe, pipealloc, put_byte, returns, pipewrite, take_byte, piperead}
use ncsc210_g.Kernel.Pipe.Ring.{IsRing}
use ncsc210_g.Kernel.Pipe.Fifo.{nothing, one, ReadOut, piperead_lem}

abbrev wrapping : Pipe
wrapping = record {
  buffer = λ x. if x == 511 then 5 else 0;
  nread = 4294967295;
  nwrite = 0;
  readopen = true;
  writeopen = true;
}

wrapping-IsRing : IsRing wrapping
wrapping-IsRing = record {
  nread_fits = omega arith;
  nwrite_fits = omega arith;
  bounded = omega arith;
}

abbrev two_bytes : List (Bool × Option ℕ)
two_bytes = (false, some 6) ∷ (false, some 7) ∷ []

reads_across :
    piperead false (true ∷ true ∷ []) wrapping ≡ returns (take_byte wrapping) (pos 1) (5 ∷ [])
unfolding piperead
reads_across = refl

writes_one_of_two :
    pipewrite ((false, some 6) ∷ (false, none) ∷ []) 0 wrapping
    ≡ returns (put_byte 6 wrapping) (pos 1)
unfolding pipewrite
writes_one_of_two = refl

piperead_lem_example : ReadOut wrapping false (piperead false (true ∷ true ∷ []) wrapping)
piperead_lem_example = piperead_lem false (true ∷ true ∷ []) wrapping wrapping-IsRing

abbrev new_pipe : Pipe
new_pipe = pipealloc (λ a. 0)

abbrev two_written : Pipe
two_written = put_byte 7 (put_byte 6 new_pipe)

-- Two bytes are written to a new pipe, and one is read.
abbrev one_read : Traffic
one_read = record { pipe = take_byte two_written; written = 6 ∷ 7 ∷ []; got = 6 ∷ [] }

one_read_reached : Reach (λ a. 0) one_read
unfolding pipealloc pipewrite piperead
one_read_reached =
    next
      (next start
        (writes two_bytes 0 two_written (6 ∷ 7 ∷ []) [] refl (one false 6 (one false 7 nothing))))
      (reads false (true ∷ false ∷ []) (take_byte two_written) (pos 1) (6 ∷ []) refl)

Reach-InOrder_example : InOrder one_read
Reach-InOrder_example = Reach-InOrder one_read_reached
