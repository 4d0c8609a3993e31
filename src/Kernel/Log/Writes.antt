-- ===== src/Kernel/Log/Writes.antt =====
-- What the loops of log.c leave on the disk when the power may fail at any write.
use ncsc210_g.Base.{
  ℕ, zero, suc, ◌+◌, ◌-◌, ◌≤◌, ◌<◌, ◌≡◌, refl, sym, ◌∙◌, ◌≢◌, ◌⊎◌, inl, inr, Bool, true, false,
  ◌||◌, List, [], ◌∷◌, arith, ltb, ◌==◌, ==_iff, Bool-cases, length, All, update,
}
use ncsc210_g.Kernel.Log.{logblocks, Block, Fs, write_disk, put, write_log_from}

-- The blocks outside the log, which starts at `start` with its header.
abbrev pub is_home : (start b : ℕ) → Bool
is_home start b = ltb b start || ltb (start + logblocks) b

-- The slots of the log from `tail` on hold what the blocks are to hold.
abbrev pub Slots : (start tail : ℕ) (blocks : List ℕ) (goal d : ℕ → Block) → Type 0
Slots start tail [] goal d = Unit
Slots start tail (b ∷ blocks) goal d =
    (d (start + tail + 1) ≡ goal b) × Slots start (tail + 1) blocks goal d

abbrev pub AllHome : (start : ℕ) → List ℕ → Type 0
AllHome start blocks = All (λ b. is_home start b ≡ true) blocks

pub update-here : (f : ℕ → Block) (b : ℕ) (v : Block) → update f b v b ≡ v
update-here f b v = let e : (b == b) ≡ true = ground arith in rw e refl

pub update-other : (f : ℕ → Block) (b x : ℕ) (v : Block) → b ≢ x → update f b v x ≡ f x
update-other f b x v h = let e : (b == x) ≡ false = ground arith in rw e refl

pub write_disk-other :
    (power b x : ℕ) (v : Block) (d : ℕ → Block) → b ≢ x → write_disk power b v d x ≡ d x
write_disk-other zero b x v d h = refl
write_disk-other (suc power) b x v d h = update-other d b x v h

pub write_disk-here :
    (power b : ℕ) (v : Block) (d : ℕ → Block) → 0 < power → write_disk power b v d b ≡ v
write_disk-here zero b v d h = absurd (omega arith)
write_disk-here (suc power) b v d h = update-here d b v

-- What was right stays right when the right value is written.
pub write_disk-same :
    (power b x : ℕ) (v w : Block) (d : ℕ → Block)
    → (b ≡ x → v ≡ w)
    → d x ≡ w
    → write_disk power b v d x ≡ w
write_disk-same zero b x v w d g h = h
write_disk-same (suc power) b x v w d g h = elim (Bool-cases (b == x)) [
  | inl e ↦ rw e (g ((==_iff b x).0 e))
  | inr e ↦ rw e h
]

pub Slots-cong :
    (start tail : ℕ) (blocks : List ℕ) (goal c d : ℕ → Block)
    → ((x : ℕ) → start + tail < x → x ≤ start + tail + length blocks → c x ≡ d x)
    → Slots start tail blocks goal c
    → Slots start tail blocks goal d
Slots-cong start tail [] goal c d h s = tt
Slots-cong start tail (b ∷ blocks) goal c d h s = (
  sym (h (start + tail + 1) (omega arith) (omega arith)) ∙ s.0,
  Slots-cong start (tail + 1) blocks goal c d (λ x low high. h x (omega arith) (omega arith)) s.1,
)

-- Nothing but the slots is written by write_log, and each slot gets its block; on the disk too, if the
-- power lasts.
pub record Wrote (tail : ℕ) (blocks : List ℕ) (goal : ℕ → Block) (s t : Fs) : Type 0 where
  pub disk_kept :
      (x : ℕ) → (x ≤ s.start + tail) ⊎ (s.start + tail + length blocks < x) → t.disk x ≡ s.disk x
  pub cache_kept :
      (x : ℕ) → (x ≤ s.start + tail) ⊎ (s.start + tail + length blocks < x) → t.cache x ≡ s.cache x
  pub cache_slots : Slots s.start tail blocks goal t.cache
  pub disk_slots : length blocks ≤ s.power → Slots s.start tail blocks goal t.disk
  pub power_is : t.power ≡ s.power - length blocks
  pub start_same : t.start ≡ s.start
  pub outstanding_same : t.outstanding ≡ s.outstanding
  pub lh_same : t.lh ≡ s.lh

outside-ne : (a n x : ℕ) → (x ≤ a) ⊎ (a + suc n < x) → a + 1 ≢ x
outside-ne a n x h e = elim h [
  | inl low ↦ omega (arith, low, e)
  | inr high ↦ omega (arith, high, e)
]

outside-next :
    (start tail n x : ℕ)
    → (x ≤ start + tail) ⊎ (start + tail + suc n < x)
    → (x ≤ start + (tail + 1)) ⊎ (start + (tail + 1) + n < x)
outside-next start tail n x h = elim h [
  | inl low ↦ inl (omega (arith, low))
  | inr high ↦ inr (omega (arith, high))
]

pub home-outside :
    (start tail n b : ℕ)
    → tail + n ≤ logblocks
    → is_home start b ≡ true
    → (b ≤ start + tail) ⊎ (start + tail + n < b)
home-outside start tail n b h e = elim (Bool-cases (ltb b start)) [
  | inl low ↦ inl (ground (arith, low))
  | inr high ↦ inr (ground (arith, high, e))
]

slot-no-home :
    (start tail x n : ℕ) → tail + suc n ≤ logblocks → start + tail + 1 ≡ x → is_home start x ≢ true
slot-no-home start tail x n fits e h = elim (Bool-cases (ltb x start)) [
  | inl low ↦ ground (arith, low, e, fits)
  | inr high ↦ ground (arith, high, e, h, fits)
]

pub write_log_from-Wrote :
    (tail : ℕ) (blocks : List ℕ) (goal : ℕ → Block) (s : Fs)
    → tail + length blocks ≤ logblocks
    → AllHome s.start blocks
    → ((x : ℕ) → is_home s.start x ≡ true → s.cache x ≡ goal x)
    → Wrote tail blocks goal s (write_log_from tail blocks s)
unfolding write_log_from
write_log_from-Wrote tail [] goal s fits home right = record {
  disk_kept = λ x h. refl;
  cache_kept = λ x h. refl;
  cache_slots = tt;
  disk_slots = λ h. tt;
  power_is = omega arith;
  start_same = refl;
  outstanding_same = refl;
  lh_same = refl;
}
write_log_from-Wrote tail (b ∷ blocks) goal s fits home right =
    let slot = s.start + tail + 1 in
    let v = s.cache b in
    let s1 = put slot v s in
    let v_is = right b home.0 in
    let w = write_log_from-Wrote (tail + 1) blocks goal s1 (omega arith) home.1 (λ x h.
      update-other s.cache slot x v (λ e. slot-no-home s.start tail x (length blocks) fits e h)
      ∙ right x h) in
    let past : slot ≤ s.start + (tail + 1) = omega arith in
    record {
      disk_kept = λ x h.
          w.disk_kept x (outside-next s.start tail (length blocks) x h)
          ∙ write_disk-other s.power slot x v s.disk
              (outside-ne (s.start + tail) (length blocks) x h);
      cache_kept = λ x h.
          w.cache_kept x (outside-next s.start tail (length blocks) x h)
          ∙ update-other s.cache slot x v (outside-ne (s.start + tail) (length blocks) x h);
      cache_slots =
          (w.cache_kept slot (inl past) ∙ update-here s.cache slot v ∙ v_is, w.cache_slots);
      disk_slots = λ h. (
        w.disk_kept slot (inl past)
            ∙ write_disk-here s.power slot v s.disk (omega (arith, h))
            ∙ v_is,
        w.disk_slots (omega (arith, h)),
      );
      power_is = w.power_is ∙ omega arith;
      start_same = w.start_same;
      outstanding_same = w.outstanding_same;
      lh_same = w.lh_same;
    }
