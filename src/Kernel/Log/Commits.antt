-- ===== src/Kernel/Log/Commits.antt =====
-- commit of log.c while the power lasts.
use ncsc210_g.Base.{
  ℕ, ◌+◌, ◌*◌, ◌≤◌, ◌<◌, ◌≡◌, refl, sym, ap, subst, ◌∙◌, ◌≢◌, inl, inr, true, false, List, [], ◌∷◌,
  arith, ltb, Bool-cases, length,
}
use ncsc210_g.Kernel.Log.{
  logblocks, Fs, header_onto, header_of, write_head, install_from, write_log_from, clear,
  commit_some, commit, listed,
}
use ncsc210_g.Kernel.Log.Writes.{
  is_home, Slots, AllHome, update-other, write_disk-other, write_disk-here, home-outside,
}
use ncsc210_g.Kernel.Log.Installs.{install_from-Installed, Committed}
use ncsc210_g.Kernel.Log.Recovery.{start-no-home}
use ncsc210_g.Kernel.Log.Crash.{Ready, logged, headed-Committed, headed-Slots}

-- Two writes for each block and two for the header.
abbrev pub commit_power : ℕ
commit_power = 2 * logblocks + 2

-- What a commit leaves: the log is empty, on the disk too, and the blocks are home.
pub record Done (s t : Fs) : Type 0 where
  pub lh_is : t.lh ≡ []
  pub log_empty : header_of (t.disk t.start) ≡ []
  pub cache_kept : (x : ℕ) → is_home s.start x ≡ true → t.cache x ≡ s.cache x
  pub disk_is : (x : ℕ) → is_home s.start x ≡ true → t.disk x ≡ s.cache x
  pub start_same : t.start ≡ s.start
  pub outstanding_same : t.outstanding ≡ s.outstanding

-- From the header on.
installed-Done :
    (start : ℕ) (s t : Fs)
    → s.start ≡ start
    → Ready s
    → commit_power ≤ s.power
    → t.start ≡ start
    → (length s.lh ≤ t.power) × (length s.lh < t.power)
    → Slots start 0 s.lh s.cache t.cache
    → Committed start s.lh s.cache t.disk
    → ((x : ℕ) → is_home start x ≡ true → t.cache x ≡ s.cache x)
    → t.outstanding ≡ s.outstanding
    → Done s (clear (install_from 0 s.lh t))
unfolding write_head
installed-Done start s t e r power f (enough, more) slots c kept o =
    let home = subst (λ y. AllHome y s.lh) (e ∙ sym f) r.home in
    let w =
      install_from-Installed 0 s.lh s.cache t (omega (arith, r.fits)) home
        (subst (λ y. Slots y 0 s.lh s.cache t.cache) (sym f) slots) in
    let u = install_from 0 s.lh t in
    let v = header_onto (u.cache u.start) [] in
    let start_is : u.start ≡ s.start = w.start_same ∙ f ∙ sym e in
    let apart : (x : ℕ) → is_home s.start x ≡ true → u.start ≢ x =
      λ x h same. start-no-home s.start x h (sym start_is ∙ same) in
    let here : (x : ℕ) → is_home s.start x ≡ true → is_home start x ≡ true =
      λ x h. subst (λ y. is_home y x ≡ true) e h in
    record {
      lh_is = refl;
      log_empty =
          ap header_of (write_disk-here u.power u.start v u.disk (omega (arith, more, w.power_is)));
      cache_kept =
          λ x h. update-other u.cache u.start x v (apart x h) ∙ w.cache_right x (kept x (here x h));
      disk_is = λ x h.
          write_disk-other u.power u.start x v u.disk (apart x h)
          ∙ elim (Bool-cases (listed s.lh x)) [
            | inl l ↦ w.all_right enough x l
            | inr l ↦ w.stays_right x (c.rest x (here x h) l)
          ];
      start_same = start_is;
      outstanding_same = w.outstanding_same ∙ o;
    }

commit_some-Done : (s : Fs) → Ready s → commit_power ≤ s.power → Done s (commit_some s)
unfolding commit_some write_head
commit_some-Done s r power =
    let w = logged s r in
    let t = write_log_from 0 s.lh s in
    let v = header_onto (t.cache t.start) t.lh in
    installed-Done s.start s (write_head t) refl r power w.start_same
      (omega (arith, r.fits, power, w.power_is), omega (arith, r.fits, power, w.power_is))
      (headed-Slots s r t w) (headed-Committed s r t w (omega (arith, r.fits, power)))
      (λ x h.
        update-other t.cache t.start x v
          (λ same. start-no-home s.start x h (sym w.start_same ∙ same))
        ∙ w.cache_kept x (home-outside s.start 0 (length s.lh) x (omega (arith, r.fits)) h))
      w.outstanding_same

no_blocks : (blocks : List ℕ) → ltb 0 (length blocks) ≡ false → blocks ≡ []
no_blocks [] h = refl
no_blocks (b ∷ blocks) h = absurd (ground (arith, h))

-- A commit with power for 62 writes brings every block outside the log home: there the disk holds what
-- the cache held, the cache is as before, and the log is empty.
pub commit-Done : (s : Fs) → Ready s → commit_power ≤ s.power → Done s (commit s)
unfolding commit
commit-Done s r power = elim (Bool-cases (ltb 0 (length s.lh))) [
  | inl e ↦ rw e (commit_some-Done s r power)
  | inr e ↦
      let none_is = no_blocks s.lh e in
      rw e (record {
        lh_is = none_is;
        log_empty = r.log_empty;
        cache_kept = λ x h. refl;
        disk_is = λ x h. sym (r.clean x h (rw none_is refl));
        start_same = refl;
        outstanding_same = refl;
      })
]

pub Done-Ready : (s t : Fs) → Done s t → Ready t
Done-Ready s t d = record {
  fits = rw (d.lh_is) (omega arith);
  home = rw (d.lh_is) tt;
  log_empty = d.log_empty;
  clean = λ x h e.
      let g = subst (λ y. is_home y x ≡ true) d.start_same h in
      d.cache_kept x g ∙ sym (d.disk_is x g);
}
