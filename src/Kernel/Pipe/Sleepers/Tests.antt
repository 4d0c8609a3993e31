-- ===== src/Kernel/Pipe/Sleepers/Tests.antt =====
-- A reader that waits on a new pipe, and a writer.
use ncsc210_g.Base.{◌≡◌, refl, true, false, some, [], ◌∷◌}
use ncsc210_g.Kernel.Pipe.{empty, pipealloc, pipewrite, piperead}
use ncsc210_g.Kernel.Pipe.Sleepers.{
  Sleepers, awake, on_nread, write_round, read_round, Reach, start, next, reads,
}
use ncsc210_g.Kernel.Pipe.Sleepers.Rounds.{HasReason}
use ncsc210_g.Kernel.Pipe.Sleepers.Awake.{Reach-HasReason, killed_writer_strands_reader}

abbrev new_pipe : Sleepers
unfolding pipealloc
new_pipe = record { pipe = pipealloc (λ a. 0); sleep = λ p. awake }

abbrev one_waits : Sleepers
unfolding read_round piperead pipealloc
one_waits = read_round 1 false (true ∷ []) new_pipe

one_waits-Reach : Reach (λ a. 0) one_waits
unfolding read_round piperead pipealloc
one_waits-Reach = next start (reads 1 false (true ∷ []) refl)

is_woken : (write_round 2 ((false, some 6) ∷ []) 0 one_waits).sleep 1 ≡ awake
unfolding write_round pipewrite read_round piperead pipealloc
is_woken = refl

Reach-HasReason_example : HasReason one_waits
Reach-HasReason_example = Reach-HasReason one_waits-Reach

killed_writer_strands_reader_example :
    ((write_round 2 ((false, some 6) ∷ (true, some 7) ∷ []) 0 one_waits).sleep 1 ≡ on_nread)
    × (empty (write_round 2 ((false, some 6) ∷ (true, some 7) ∷ []) 0 one_waits).pipe ≡ false)
unfolding read_round piperead pipealloc
killed_writer_strands_reader_example =
    killed_writer_strands_reader (λ a. 0) one_waits 2 1 6 0 (some 7) [] one_waits-Reach refl refl
