-- ===== src/Kernel/Log/Crash.antt =====
-- commit of log.c: all of a transaction survives a crash, or none of it.
use ncsc210_g.Base.{
  ℕ, ◌+◌, ◌≤◌, ◌<◌, ◌≡◌, refl, sym, ap, subst, ◌∙◌, inl, inr, true, false, List, [], ◌∷◌, arith,
  ltb, if◌then◌else◌, ltb→lt, Bool-cases, length,
}
use ncsc210_g.Kernel.Log.{
  logblocks, Block, Fs, write_disk, put, header_onto, header_of, write_head, install_from,
  write_log_from, clear, commit_some, commit, boot, recover_from_log, listed,
}
use ncsc210_g.Kernel.Log.Installs.{install_from-Installed, Committed}
use ncsc210_g.Kernel.Log.Writes.{
  is_home, Slots, AllHome, update-other, write_disk-other, write_disk-here, Slots-cong, Wrote,
  home-outside, write_log_from-Wrote,
}
use ncsc210_g.Kernel.Log.Recovery.{
  Settled, header_of-header_onto, start-no-home, empty-Settled, clear-Settled,
  recover_from_log-Settled, recover_from_log_lem,
}

-- Between two commits: the log on the disk is empty, and only blocks of the transaction differ from it.
pub record Ready (s : Fs) : Type 0 where
  pub fits : length s.lh ≤ logblocks
  pub home : AllHome s.start s.lh
  pub log_empty : header_of (s.disk s.start) ≡ []
  pub clean : (x : ℕ) → is_home s.start x ≡ true → listed s.lh x ≡ false → s.cache x ≡ s.disk x

-- Without power nothing is written.
put-dead : (b : ℕ) (v : Block) (s : Fs) → s.power ≡ 0 → (put b v s).disk ≡ s.disk
put-dead b v s e = rw e refl

install_from-dead :
    (tail : ℕ) (blocks : List ℕ) (s : Fs)
    → s.power ≡ 0
    → ((install_from tail blocks s).disk ≡ s.disk) × ((install_from tail blocks s).power ≡ 0)
unfolding install_from
install_from-dead tail [] s e = (refl, e)
install_from-dead tail (b ∷ blocks) s e =
    let v = s.cache (s.start + tail + 1) in
    let (d, p) = install_from-dead (tail + 1) blocks (put b v s) (omega (arith, e)) in
    (d ∙ put-dead b v s e, p)

commit_some-dead :
    (s t : Fs) → t.power ≡ 0 → (clear (install_from 0 s.lh (write_head t))).disk ≡ t.disk
unfolding write_head
commit_some-dead s t e =
    let v = header_onto (t.cache t.start) t.lh in
    let t1 = put t.start v t in
    let (d, p) = install_from-dead 0 s.lh t1 (omega (arith, e)) in
    let t2 = install_from 0 s.lh t1 in
    put-dead t2.start (header_onto (t2.cache t2.start) []) t2 p ∙ d ∙ put-dead t.start v t e

-- An installation and the clearing of the header, for a log that starts at `start`.
pub listed-none : (blocks : List ℕ) (x : ℕ) → length blocks ≡ 0 → listed blocks x ≡ false
listed-none [] x e = refl
listed-none (b ∷ blocks) x e = absurd (omega (arith, e))

install_clear-Settled :
    (start : ℕ) (blocks : List ℕ) (goal : ℕ → Block) (s : Fs)
    → s.start ≡ start
    → length blocks ≤ logblocks
    → AllHome start blocks
    → Slots start 0 blocks goal s.cache
    → Committed start blocks goal s.disk
    → Settled start goal (clear (install_from 0 blocks s)).disk
install_clear-Settled start blocks goal s e fits home slots c =
    subst
      (λ y.
        AllHome y blocks
        → Slots y 0 blocks goal s.cache
        → Committed y blocks goal s.disk
        → Settled y goal (clear (install_from 0 blocks s)).disk)
      e
      (λ home slots c.
        clear-Settled blocks goal s (install_from 0 blocks s) fits home c
          (install_from-Installed 0 blocks goal s (omega (arith, fits)) home slots))
      home slots c

module _ (s : Fs) (r : Ready s) where
  -- The log is written.
  pub logged : Wrote 0 s.lh s.cache s (write_log_from 0 s.lh s)
  logged = write_log_from-Wrote 0 s.lh s.cache s (omega (arith, r.fits)) r.home (λ x h. refl)

  -- The power fails before the header is written.
  lost : s.power ≤ length s.lh → Settled s.start s.disk (commit_some s).disk
  unfolding commit_some
  lost short =
      let w = logged in
      let t = write_log_from 0 s.lh s in
      subst (Settled s.start s.disk) (sym (commit_some-dead s t (omega (arith, short, w.power_is))))
        (empty-Settled s.start s.disk t.disk
          (ap header_of (w.disk_kept s.start (inl (omega arith))) ∙ r.log_empty)
          (λ x h. w.disk_kept x (home-outside s.start 0 (length s.lh) x (omega (arith, r.fits)) h)))

  -- The header is written: from here on the transaction counts.
  pub headed-Committed :
      (t : Fs)
      → Wrote 0 s.lh s.cache s t
      → length s.lh < s.power
      → Committed s.start s.lh s.cache (write_head t).disk
  unfolding write_head
  headed-Committed t w enough =
      let v = header_onto (t.cache s.start) s.lh in
      let c : Committed s.start s.lh s.cache (write_disk t.power s.start v t.disk) = record {
        head_is =
            ap header_of
              (write_disk-here t.power s.start v t.disk (omega (arith, enough, w.power_is)))
            ∙ header_of-header_onto (t.cache s.start) s.lh;
        slots =
            Slots-cong s.start 0 s.lh s.cache t.disk _
              (λ x low high.
                sym (write_disk-other t.power s.start x v t.disk (λ e. omega (arith, low, e))))
              (w.disk_slots (omega (arith, enough)));
        rest = λ x h e.
            write_disk-other t.power s.start x v t.disk (start-no-home s.start x h)
            ∙ w.disk_kept x (home-outside s.start 0 (length s.lh) x (omega (arith, r.fits)) h)
            ∙ sym (r.clean x h e);
      } in
      rw (w.start_same, w.lh_same) c

  pub headed-Slots :
      (t : Fs) → Wrote 0 s.lh s.cache s t → Slots s.start 0 s.lh s.cache (write_head t).cache
  unfolding write_head
  headed-Slots t w =
      let v = header_onto (t.cache s.start) s.lh in
      rw (w.start_same, w.lh_same)
        (Slots-cong s.start 0 s.lh s.cache t.cache _
          (λ x low high. sym (update-other t.cache s.start x v (λ e. omega (arith, low, e))))
          w.cache_slots)

  -- The power lasts beyond the header.
  saved : length s.lh < s.power → Settled s.start s.cache (commit_some s).disk
  unfolding commit_some write_head
  saved enough =
      let w = logged in
      let t = write_log_from 0 s.lh s in
      install_clear-Settled s.start s.lh s.cache (write_head t) w.start_same r.fits r.home
        (headed-Slots t w) (headed-Committed t w enough)

pub commit-Settled-lost :
    (s : Fs) → Ready s → s.power ≤ length s.lh → Settled s.start s.disk (commit s).disk
unfolding commit
commit-Settled-lost s r short = elim (Bool-cases (ltb 0 (length s.lh))) [
  | inl e ↦ rw e (lost s r short)
  | inr e ↦ rw e (empty-Settled s.start s.disk s.disk r.log_empty (λ x h. refl))
]

pub commit-Settled-saved :
    (s : Fs) → Ready s → length s.lh < s.power → Settled s.start s.cache (commit s).disk
unfolding commit
commit-Settled-saved s r enough = elim (Bool-cases (ltb 0 (length s.lh))) [
  | inl e ↦ rw e (saved s r enough)
  | inr e ↦ rw e (
      empty-Settled s.start s.cache s.disk r.log_empty
        (λ x h. sym (r.clean x h (listed-none s.lh x (ground (arith, e))))))
]

-- A crash at any write of a commit, and then a recovery, which may have been cut short by a second
-- crash: the blocks outside the log are all as before the transaction, or all as the cache had them,
-- depending on whether the header had been written.
pub commit-recover_from_log :
    (s : Fs) (again power : ℕ) (x : ℕ)
    → Ready s
    → logblocks < power
    → is_home s.start x ≡ true
    → (recover_from_log
          (boot s.start power (recover_from_log (boot s.start again (commit s).disk)).disk)).disk
        x
      ≡ (if ltb (length s.lh) s.power then s.cache x else s.disk x)
commit-recover_from_log s again power x r enough h = elim (Bool-cases (ltb (length s.lh) s.power)) [
  | inl e ↦
      let k = commit-Settled-saved s r (ltb→lt (length s.lh) s.power e) in
      rw e (
        recover_from_log_lem s.start power s.cache _ x
          (recover_from_log-Settled s.start again s.cache (commit s).disk k) enough h)
  | inr e ↦
      let k = commit-Settled-lost s r (ground (arith, e)) in
      rw e (
        recover_from_log_lem s.start power s.disk _ x
          (recover_from_log-Settled s.start again s.disk (commit s).disk k) enough h)
]
