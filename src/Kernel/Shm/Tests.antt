-- ===== src/Kernel/Shm/Tests.antt =====
-- Two processes share a segment, and the last to leave gives its pages back.
use ncsc210_g.Base.{ℕ, ◌≡◌, refl, true, none, List, [], ◌∷◌, ◌++◌, arith, pos}
use ncsc210_g.Kernel.Shm.Exec.{kexec_commit, kexec_commit-shmat}
use ncsc210_g.Kernel.Shm.{Memory, sys_shmat}
use ncsc210_g.Kernel.Shm.Attached.{boot}
use ncsc210_g.Kernel.Shm.Calls.{Call, shmget, shmat, shmdt, exits, run}
use ncsc210_g.Kernel.Shm.Pages.{holdings}
use ncsc210_g.Kernel.Shm.Conserved.{pages_conserved}

abbrev two_share : List Call
two_share =
    shmget (pos 7) (pos 5000)
    ∷ shmat (λ j. true) 1 (pos 0) (omega arith)
    ∷ shmat (λ j. true) 2 (pos 0) (omega arith)
    ∷ []

abbrev one_leaves : List Call
one_leaves = shmdt 1 (pos 0) (omega arith) ∷ exits 2 (omega arith) ∷ []

abbrev pages : List ℕ
pages = 4096 ∷ 8192 ∷ 12288 ∷ []

count_is_two : ((run two_share (boot pages)).shmtable 0).refcount ≡ 2
unfolding run
count_is_two = refl

pages_come_back : (run (two_share ++ one_leaves) (boot pages)).freelist ≡ 8192 ∷ 4096 ∷ 12288 ∷ []
unfolding run
pages_come_back = refl

pages_conserved_example :
    holdings 4096 (run (two_share ++ one_leaves) (boot pages)) ≡ holdings 4096 (boot pages)
pages_conserved_example = pages_conserved (two_share ++ one_leaves) (boot pages) 4096

-- A segment of two pages.
abbrev created : Memory
unfolding run
created = run (shmget (pos 7) (pos 5000) ∷ []) (boot pages)

kexec_commit-shmat_example :
    kexec_commit 1 (λ x. none) 8192 (sys_shmat (λ j. true) 1 (pos 0) created).0 ≡ none
unfolding run
kexec_commit-shmat_example =
    kexec_commit-shmat (λ j. true) 1 0 4096 8192 (8192 ∷ []) (λ x. none) created (λ k. refl)
      (omega arith) refl refl refl (omega arith)
