-- ===== src/Kernel/Log/Recovery.antt =====
-- recover_from_log of log.c.
use ncsc210_g.Base.{
  ℕ, zero, suc, ◌+◌, ◌≤◌, ◌<◌, ◌≡◌, refl, sym, ap, subst, ◌∙◌, ◌≢◌, inl, inr, true, List, [], arith,
  Bool-cases, length, drop, take-append, update,
}
use ncsc210_g.Kernel.Log.{
  logblocks, Block, Fs, write_disk, header_onto, header_of, write_head, read_head, install_from,
  clear, boot, recover_from_log, listed,
}
use ncsc210_g.Kernel.Log.Writes.{is_home, AllHome, update-here, update-other, write_disk-other}
use ncsc210_g.Kernel.Log.Installs.{
  Installed, install_from-Installed, Committed, Installed-Committed,
}

-- A disk from which a recovery makes `goal`: it is there already, or in the log.
pub record Settled (start : ℕ) (goal d : ℕ → Block) : Type 0 where
  pub blocks : List ℕ
  pub fits : length blocks ≤ logblocks
  pub home : AllHome start blocks
  pub committed : Committed start blocks goal d

pub header_of-header_onto :
    (old : Block) (blocks : List ℕ) → header_of (header_onto old blocks) ≡ blocks
header_of-header_onto old blocks =
    take-append (length blocks) blocks (drop (length blocks + 1) old) refl

pub start-no-home : (start x : ℕ) → is_home start x ≡ true → start ≢ x
start-no-home start x h e = ground (arith, h, e)

-- All blocks are home, and the header says that the log is empty.
pub empty-Settled :
    (start : ℕ) (goal d : ℕ → Block)
    → header_of (d start) ≡ []
    → ((x : ℕ) → is_home start x ≡ true → d x ≡ goal x)
    → Settled start goal d
empty-Settled start goal d e h = record {
  blocks = [];
  fits = omega arith;
  home = tt;
  committed = record { head_is = e; slots = tt; rest = λ x a b. h x a };
}

-- The header is cleared when the blocks are home; until then the disk stays as it is.
pub write_disk-Settled :
    (power start : ℕ) (v : Block) (goal d : ℕ → Block)
    → header_of v ≡ []
    → Settled start goal d
    → (0 < power → (x : ℕ) → is_home start x ≡ true → d x ≡ goal x)
    → Settled start goal (write_disk power start v d)
write_disk-Settled zero start v goal d e s h = s
write_disk-Settled (suc power) start v goal d e s h =
    empty-Settled start goal (update d start v) (ap header_of (update-here d start v) ∙ e)
      (λ x home. update-other d start x v (start-no-home start x home) ∙ h (omega arith) x home)

-- After an installation, however far it came.
pub clear-Settled :
    (blocks : List ℕ) (goal : ℕ → Block) (s t : Fs)
    → length blocks ≤ logblocks
    → AllHome s.start blocks
    → Committed s.start blocks goal s.disk
    → Installed blocks goal s t
    → Settled s.start goal (clear t).disk
unfolding write_head
clear-Settled blocks goal s t fits home c w =
    let done : (0 < t.power) → (x : ℕ) → is_home s.start x ≡ true → t.disk x ≡ goal x = λ left x h.
      elim (Bool-cases (listed blocks x)) [
        | inl e ↦ w.all_right (omega (arith, left, w.power_is)) x e
        | inr e ↦ w.stays_right x (c.rest x h e)
      ] in
    let settled : Settled s.start goal t.disk = record {
      blocks = blocks;
      fits = fits;
      home = home;
      committed = Installed-Committed blocks goal s t fits home w c;
    } in
    let v = header_onto (t.cache t.start) [] in
    subst (λ y. Settled s.start goal (write_disk t.power y v t.disk)) (sym w.start_same)
      (write_disk-Settled t.power s.start v goal t.disk refl settled done)

-- The recovery reads the header, and installs what it names.
abbrev recovers : (start power : ℕ) (blocks : List ℕ) (d : ℕ → Block) → Fs
recovers start power blocks d = install_from 0 blocks (record (boot start power d) { lh = blocks })

recovers-Installed :
    (start power : ℕ) (goal d : ℕ → Block) (s : Settled start goal d)
    → Installed s.blocks goal
        (record (boot start power d) { lh = s.blocks })
        (recovers start power s.blocks d)
recovers-Installed start power goal d s =
    install_from-Installed 0 s.blocks goal (record (boot start power d) { lh = s.blocks })
      (omega (arith, s.fits)) s.home s.committed.slots

-- A recovery may itself be cut short: another one still makes `goal`.
pub recover_from_log-Settled :
    (start power : ℕ) (goal d : ℕ → Block)
    → Settled start goal d
    → Settled start goal (recover_from_log (boot start power d)).disk
unfolding recover_from_log read_head
recover_from_log-Settled start power goal d s =
    let head = s.committed.head_is in
    subst (λ bs. Settled start goal (clear (recovers start power bs d)).disk) (sym head)
      (clear-Settled s.blocks goal (record (boot start power d) { lh = s.blocks })
        (recovers start power s.blocks d) s.fits s.home s.committed
        (recovers-Installed start power goal d s))

recovers_all :
    (start power : ℕ) (goal d : ℕ → Block) (s : Settled start goal d) (x : ℕ)
    → logblocks < power
    → is_home start x ≡ true
    → (recovers start power s.blocks d).disk x ≡ goal x
recovers_all start power goal d s x enough h =
    let w = recovers-Installed start power goal d s in
    elim (Bool-cases (listed s.blocks x)) [
      | inl e ↦ w.all_right (omega (arith, enough, s.fits)) x e
      | inr e ↦ w.stays_right x (s.committed.rest x h e)
    ]

clear-home :
    (t : Fs) (start x : ℕ) → t.start ≡ start → is_home start x ≡ true → (clear t).disk x ≡ t.disk x
unfolding write_head
clear-home t start x e h =
    write_disk-other t.power t.start x _ t.disk (λ same. start-no-home start x h (sym e ∙ same))

-- A recovery with power for 31 writes makes `goal`.
pub recover_from_log_lem :
    (start power : ℕ) (goal d : ℕ → Block) (x : ℕ)
    → Settled start goal d
    → logblocks < power
    → is_home start x ≡ true
    → (recover_from_log (boot start power d)).disk x ≡ goal x
unfolding recover_from_log read_head
recover_from_log_lem start power goal d x s enough h =
    let w = recovers-Installed start power goal d s in
    subst (λ bs. (clear (recovers start power bs d)).disk x ≡ goal x) (sym s.committed.head_is)
      (clear-home (recovers start power s.blocks d) start x w.start_same h
        ∙ recovers_all start power goal d s x enough h)
