-- ===== src/Kernel/Log/Installs.antt =====
-- install_trans of log.c: the blocks of the log go home.
use ncsc210_g.Base.{
  ℕ, ◌+◌, ◌-◌, ◌≤◌, ◌≡◌, refl, sym, ap, subst, ◌∙◌, ◌≢◌, inl, inr, true, false, List, [], ◌∷◌,
  arith, ◌==◌, ==_iff, Bool-cases, length,
}
use ncsc210_g.Kernel.Log.{logblocks, Block, Fs, put, header_of, install_from, listed}
use ncsc210_g.Kernel.Log.Writes.{
  is_home, Slots, AllHome, update-other, write_disk-other, write_disk-here, write_disk-same,
  Slots-cong,
}

-- Only listed blocks are written, each with what it is to hold; all of them if the power lasts.
pub record Installed (blocks : List ℕ) (goal : ℕ → Block) (s t : Fs) : Type 0 where
  pub disk_kept : (x : ℕ) → listed blocks x ≡ false → t.disk x ≡ s.disk x
  pub cache_kept : (x : ℕ) → listed blocks x ≡ false → t.cache x ≡ s.cache x
  pub stays_right : (x : ℕ) → s.disk x ≡ goal x → t.disk x ≡ goal x
  pub cache_right : (x : ℕ) → s.cache x ≡ goal x → t.cache x ≡ goal x
  pub all_right : length blocks ≤ s.power → (x : ℕ) → listed blocks x ≡ true → t.disk x ≡ goal x
  pub power_is : t.power ≡ s.power - length blocks
  pub start_same : t.start ≡ s.start
  pub outstanding_same : t.outstanding ≡ s.outstanding

not_listed_head : (b x : ℕ) (blocks : List ℕ) → listed (b ∷ blocks) x ≡ false → b ≢ x
not_listed_head b x blocks h e = ground (arith, h, e)

not_listed_tail :
    (b x : ℕ) (blocks : List ℕ) → listed (b ∷ blocks) x ≡ false → listed blocks x ≡ false
not_listed_tail b x blocks h = ground (arith, h)

listed_tail :
    (b x : ℕ) (blocks : List ℕ)
    → listed (b ∷ blocks) x ≡ true
    → (b == x) ≡ false
    → listed blocks x ≡ true
listed_tail b x blocks h e = ground (arith, h, e)

-- Blocks at home are not slots.
pub listed-outside :
    (start x : ℕ) (blocks : List ℕ)
    → AllHome start blocks
    → start ≤ x
    → x ≤ start + logblocks
    → listed blocks x ≡ false
listed-outside start x [] home low high = refl
listed-outside start x (b ∷ blocks) home low high =
    let rest = listed-outside start x blocks home.1 low high in ground (arith, home.0, rest)

pub install_from-Installed :
    (tail : ℕ) (blocks : List ℕ) (goal : ℕ → Block) (s : Fs)
    → tail + length blocks ≤ logblocks
    → AllHome s.start blocks
    → Slots s.start tail blocks goal s.cache
    → Installed blocks goal s (install_from tail blocks s)
unfolding install_from
install_from-Installed tail [] goal s fits home slots = record {
  disk_kept = λ x h. refl;
  cache_kept = λ x h. refl;
  stays_right = λ x h. h;
  cache_right = λ x h. h;
  all_right = λ h x e. cc;
  power_is = omega arith;
  start_same = refl;
  outstanding_same = refl;
}
install_from-Installed tail (b ∷ blocks) goal s fits home slots =
    let v = s.cache (s.start + tail + 1) in
    let s1 = put b v s in
    let apart : (x : ℕ) → s.start ≤ x → x ≤ s.start + logblocks → b ≢ x = λ x low high.
      not_listed_head b x blocks (listed-outside s.start x (b ∷ blocks) home low high) in
    let slots1 =
      Slots-cong s.start (tail + 1) blocks goal s.cache s1.cache
        (λ x low high. sym (update-other s.cache b x v (apart x (omega arith) (omega arith))))
        slots.1 in
    let w = install_from-Installed (tail + 1) blocks goal s1 (omega arith) home.1 slots1 in
    let right : (x : ℕ) → b ≡ x → v ≡ goal x = λ x e. slots.0 ∙ ap goal e in
    record {
      disk_kept = λ x h.
          w.disk_kept x (not_listed_tail b x blocks h)
          ∙ write_disk-other s.power b x v s.disk (not_listed_head b x blocks h);
      cache_kept = λ x h.
          w.cache_kept x (not_listed_tail b x blocks h)
          ∙ update-other s.cache b x v (not_listed_head b x blocks h);
      stays_right =
          λ x h. w.stays_right x (write_disk-same s.power b x v (goal x) s.disk (right x) h);
      cache_right = λ x h. w.cache_right x (write_disk-same 1 b x v (goal x) s.cache (right x) h);
      all_right = λ h x e. elim (Bool-cases (b == x)) [
        | inl same ↦
            let b_is : b ≡ x = (==_iff b x).0 same in
            let here = write_disk-here s.power b v s.disk (omega (arith, h)) in
            w.stays_right x (subst (λ y. s1.disk y ≡ goal y) b_is (here ∙ slots.0))
        | inr other ↦ w.all_right (omega (arith, h)) x (listed_tail b x blocks e other)
      ];
      power_is = w.power_is ∙ omega arith;
      start_same = w.start_same;
      outstanding_same = w.outstanding_same;
    }

-- A disk with a transaction that counts: the header names the blocks, the slots hold them, and all other
-- blocks hold what they are to hold.
pub record Committed (start : ℕ) (blocks : List ℕ) (goal d : ℕ → Block) : Type 0 where
  pub head_is : header_of (d start) ≡ blocks
  pub slots : Slots start 0 blocks goal d
  pub rest : (x : ℕ) → is_home start x ≡ true → listed blocks x ≡ false → d x ≡ goal x

-- An installation that is cut short leaves the transaction in place.
pub Installed-Committed :
    (blocks : List ℕ) (goal : ℕ → Block) (s t : Fs)
    → length blocks ≤ logblocks
    → AllHome s.start blocks
    → Installed blocks goal s t
    → Committed s.start blocks goal s.disk
    → Committed s.start blocks goal t.disk
Installed-Committed blocks goal s t fits home w c = record {
  head_is =
      ap header_of (
        w.disk_kept s.start
          (listed-outside s.start s.start blocks home (omega arith) (omega arith)))
      ∙ c.head_is;
  slots =
      Slots-cong s.start 0 blocks goal s.disk t.disk
        (λ x low high.
          sym (w.disk_kept x (listed-outside s.start x blocks home (omega arith) (omega arith))))
        c.slots;
  rest = λ x h e. w.disk_kept x e ∙ c.rest x h e;
}
