-- ===== src/Kernel/Names/Directory/Linked.antt =====
-- dirlink and dirlookup of fs.c, as a map from names to inode numbers.
use ncsc210_g.Base.{
  ℕ, ◌+◌, ◌%◌, ◌^◌, ◌<◌, ◌≡◌, refl, sym, ap, subst, ◌∙◌, ◌≢◌, ◌⊎◌, inl, inr, Bool, true, false,
  Option, none, some, List, [], ◌∷◌, arith, ◌==◌, if◌then◌else◌, Bool-cases, take, ℤ, pos,
  minus_one, ◌==ℤ◌, bytes_eq, bytes_eq_sound,
}
use ncsc210_g.Kernel.Names.{dirsiz}
use ncsc210_g.Kernel.Names.Directory.{
  Dirent, Directory, namecmp, dirent_size, dirlookup_from, dirlookup, name_field, free_entry,
  write_entry, new_entry, dirlink_absent, dirlink,
}
use ncsc210_g.Kernel.Names.Directory.Compared.{IsName, strncmp_bytes-field, strncmp_bytes-take}

-- Whether two names are one to a directory, which cuts them to DIRSIZ bytes.
abbrev pub same_name : (x y : List ℕ) → Bool
same_name x y = bytes_eq (take dirsiz x) (take dirsiz y)

-- The inode number of what dirlookup finds.
abbrev pub number : Option (ℕ × ℕ) → Option ℕ
number none = none
number (some (inum, off)) = some inum

abbrev pub numbers : Option (Option (ℕ × ℕ)) → Option (Option ℕ)
numbers none = none
numbers (some found) = some (number found)

pub same_name-namecmp :
    (x name entry : List ℕ)
    → IsName x
    → IsName name
    → same_name x name ≡ true
    → namecmp x entry ≡ namecmp name entry
unfolding namecmp
same_name-namecmp x name entry f g h =
    strncmp_bytes-take dirsiz x name entry f g (bytes_eq_sound (take dirsiz x) (take dirsiz name) h)

namecmp-field :
    (x name : List ℕ)
    → IsName x
    → IsName name
    → (namecmp x (name_field dirsiz name) ==ℤ pos 0) ≡ same_name x name
unfolding namecmp
namecmp-field x name f g = strncmp_bytes-field dirsiz x name f g

-- The entry that dirlink writes is not free, and is found by its name and no other.
new_entry-used : (inum : ℕ) → 0 < inum → inum < 2 ^ 16 → (inum % 2 ^ 16 == 0) ≡ false
new_entry-used inum low high = ground (arith, low, high)

-- The lookup of a name after an entry was written, in the first free place or at the end.
number-write_entry :
    (off : ℕ) (entries : List Dirent) (name x : List ℕ) (inum : ℕ)
    → IsName name
    → IsName x
    → 0 < inum
    → inum < 2 ^ 16
    → dirlookup_from off entries name ≡ none
    → number (dirlookup_from off (write_entry (free_entry entries) (new_entry name inum) entries) x)
      ≡ (if same_name x name then some inum else number (dirlookup_from off entries x))
unfolding dirlookup_from write_entry free_entry
number-write_entry off [] name x inum f g low high h =
    let cut : inum % 2 ^ 16 ≡ inum = omega (arith, high) in
    let m = namecmp-field x name g f in rw (new_entry-used inum low high, m) (ground (arith, cut))
number-write_entry off (d ∷ ds) name x inum f g low high h = elim (Bool-cases (d.inum == 0)) [
  | inl free ↦
      let cut : inum % 2 ^ 16 ≡ inum = omega (arith, high) in
      let m = namecmp-field x name g f in
      rw free (rw (new_entry-used inum low high, m) (ground (arith, cut)))
  | inr taken ↦
      let differs : (namecmp name d.name ==ℤ pos 0) ≡ false = ground (arith, h, taken) in
      let rest : dirlookup_from (off + dirent_size) ds name ≡ none = rw (taken, differs) at h in
      let ih = number-write_entry (off + dirent_size) ds name x inum f g low high rest in
      let same = same_name-namecmp x name d.name g f in
      rw taken (
        rw taken (elim (Bool-cases (namecmp x d.name ==ℤ pos 0)) [
          | inl hit ↦ elim (Bool-cases (same_name x name)) [
            | inl s ↦
                let clash : true ≡ false = sym hit ∙ ap (λ c. c ==ℤ pos 0) (same s) ∙ differs in
                absurd (cc)
            | inr s ↦ rw (hit, s) refl
          ]
          | inr miss ↦ rw miss ih
        ]))
]

-- What the directory is after a name was linked to an inode: lookups of this name give it, and all
-- others what they gave.
pub record IsLinked (name : List ℕ) (inum : ℕ) (dp dp1 : Directory) : Type 0 where
  pub was_absent : dirlookup dp name ≡ some none
  pub is_dir_same : dp1.is_dir ≡ dp.is_dir
  pub looks :
      (x : List ℕ)
      → IsName x
      → numbers (dirlookup dp1 x)
        ≡ (if same_name x name then some (some inum) else numbers (dirlookup dp x))

write_entry-IsLinked :
    (name : List ℕ) (inum : ℕ) (dp : Directory)
    → IsName name
    → 0 < inum
    → inum < 2 ^ 16
    → dirlookup dp name ≡ some none
    → IsLinked name inum dp (record dp {
      entries = write_entry (free_entry dp.entries) (new_entry name inum) dp.entries;
    })
unfolding dirlookup
write_entry-IsLinked name inum dp f low high h = elim (Bool-cases dp.is_dir) [
  | inl d ↦
      let absent : dirlookup_from 0 dp.entries name ≡ none = ground (arith, d, h) in
      record {
        was_absent = h;
        is_dir_same = refl;
        looks = λ x g.
            let w = number-write_entry 0 dp.entries name x inum f g low high absent in
            elim (Bool-cases (same_name x name)) [
              | inl s ↦ rw (d, s) (ap some (w ∙ (rw s refl)))
              | inr s ↦ rw (d, s) (ap some (w ∙ (rw s refl)))
            ];
      }
  | inr d ↦ absurd (ground (arith, d, h))
]

dirlink_absent_lem :
    (writes : Bool) (dp dp1 : Directory) (name : List ℕ) (inum : ℕ) (r : ℤ)
    (found : Option (Option (ℕ × ℕ)))
    → IsName name
    → 0 < inum
    → inum < 2 ^ 16
    → dirlookup dp name ≡ found
    → dirlink_absent writes dp name inum found ≡ some (dp1, r)
    → ((r ≡ pos 0) × IsLinked name inum dp dp1)
      ⊎ ((r ≡ minus_one) × (dp1 ≡ dp) × ((dirlookup dp name ≢ some none) ⊎ (writes ≡ false)))
unfolding dirlink_absent
dirlink_absent_lem writes dp dp1 name inum r none f low high e h = absurd (ground (arith, h))
dirlink_absent_lem writes dp dp1 name inum r (some (some found)) f low high e h =
    inr (cc, cc, inl (λ s. absurd (ground (arith, s, e))))
dirlink_absent_lem false dp dp1 name inum r (some none) f low high e h = inr (cc, cc, inr refl)
dirlink_absent_lem true dp dp1 name inum r (some none) f low high e h =
    let same : record dp {
      entries = write_entry (free_entry dp.entries) (new_entry name inum) dp.entries;
    }
        ≡ dp1 =
      cc in
    inl (cc, subst (IsLinked name inum dp) same (write_entry-IsLinked name inum dp f low high e))

-- dirlink of a name without zero bytes to an inode that a ushort can name, in a directory: it returns 0,
-- and the name, which was not there, is then found with this inode, and all other names as before; or
-- it returns -1, and changes nothing, because the name was there or no room was found.
pub dirlink-dirlookup :
    (writes : Bool) (dp dp1 : Directory) (name : List ℕ) (inum : ℕ) (r : ℤ)
    → IsName name
    → 0 < inum
    → inum < 2 ^ 16
    → dirlink writes dp name inum ≡ some (dp1, r)
    → ((r ≡ pos 0) × IsLinked name inum dp dp1)
      ⊎ ((r ≡ minus_one) × (dp1 ≡ dp) × ((dirlookup dp name ≢ some none) ⊎ (writes ≡ false)))
unfolding dirlink
dirlink-dirlookup writes dp dp1 name inum r f low high h =
    dirlink_absent_lem writes dp dp1 name inum r (dirlookup dp name) f low high refl h
