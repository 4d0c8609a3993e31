-- ===== src/Kernel/Names/Directory.antt =====
-- A directory of fs.c as the entries that its blocks hold: namecmp, dirlookup and dirlink. Its size is a
-- whole number of entries, and readi gives each of them; the inode that iget gives is its number.
mod Tests
pub mod Compared
pub mod Linked
pub mod Alike
pub mod Created
use ncsc210_g.Base.{
  ℕ, zero, suc, ◌+◌, ◌%◌, ◌^◌, Bool, not, ◌&&◌, Option, none, some, List, [], ◌∷◌, ◌==◌,
  if◌then◌else◌, replicate, ℤ, pos, minus_one, ◌==ℤ◌,
}
use ncsc210_g.Kernel.Strings.{byte_difference}
use ncsc210_g.Kernel.Names.{dirsiz}

-- struct dirent. A name of DIRSIZ bytes has no zero byte behind it.
pub record Dirent : Type 0 where
  pub inum : ℕ
  pub name : List ℕ

-- Whether the type of the inode is T_DIR, and its content.
pub record Directory : Type 0 where
  pub is_dir : Bool
  pub entries : List Dirent

-- The byte that a pointer into a string points to, and the pointer behind it.
abbrev pub byte_at : List ℕ → ℕ
byte_at [] = 0
byte_at (c ∷ cs) = c

abbrev pub behind : List ℕ → List ℕ
behind [] = []
behind (c ∷ cs) = cs

-- strncmp on the bytes of two strings.
pub strncmp_bytes : (n : ℕ) (p q : List ℕ) → ℤ
unfolding byte_difference
strncmp_bytes zero p q = pos 0
strncmp_bytes (suc n) p q =
    let rest = strncmp_bytes n (behind p) (behind q) in
    if not (byte_at p == 0) && byte_at p == byte_at q
    then rest
    else byte_difference (byte_at p) (byte_at q)

unfoldable pub namecmp : (s t : List ℕ) → ℤ
unfolding strncmp_bytes
namecmp s t = strncmp_bytes dirsiz s t

-- The size of a dirent.
abbrev pub dirent_size : ℕ
dirent_size = 16

-- The loop of dirlookup, with the inode's number and `*poff`.
pub dirlookup_from : (off : ℕ) → List Dirent → (name : List ℕ) → Option (ℕ × ℕ)
dirlookup_from off [] name = none
dirlookup_from off (de ∷ des) name =
    let rest = dirlookup_from (off + dirent_size) des name in
    if de.inum == 0
    then rest
    else if namecmp name de.name ==ℤ pos 0
    then some (de.inum, off)
    else rest

-- `none` is the panic.
unfoldable pub dirlookup : Directory → (name : List ℕ) → Option (Option (ℕ × ℕ))
unfolding dirlookup_from
dirlookup dp name = if dp.is_dir then some (dirlookup_from 0 dp.entries name) else none

-- strncpy into a field of n bytes.
pub name_field : (n : ℕ) → List ℕ → List ℕ
name_field zero cs = []
name_field (suc n) [] = 0 ∷ name_field n []
name_field (suc n) (c ∷ cs) =
    let more = name_field n cs in if c == 0 then 0 ∷ replicate n 0 else c ∷ more

-- How many entries the second loop of dirlink goes past.
pub free_entry : List Dirent → ℕ
free_entry [] = 0
free_entry (de ∷ des) = let rest = free_entry des in if de.inum == 0 then 0 else suc rest

-- writei of an entry, at the end of the directory at most.
pub write_entry : (at : ℕ) → Dirent → List Dirent → List Dirent
write_entry zero de [] = de ∷ []
write_entry zero de (d ∷ ds) = de ∷ ds
write_entry (suc i) de [] = []
write_entry (suc i) de (d ∷ ds) = d ∷ write_entry i de ds

-- The entry that dirlink writes; an inode number is a ushort there.
abbrev pub new_entry : (name : List ℕ) (inum : ℕ) → Dirent
new_entry name inum = record { inum = inum % 2 ^ 16; name = name_field dirsiz name }

-- dirlink behind its call of dirlookup; `writes` says whether writei finds room.
dirlink_absent :
    (writes : Bool)
    → Directory
    → (name : List ℕ) (inum : ℕ) → Option (Option (ℕ × ℕ))
    → Option (Directory × ℤ)
unfolding write_entry free_entry name_field
dirlink_absent writes dp name inum none = none
dirlink_absent writes dp name inum (some (some found)) = some (dp, minus_one)
dirlink_absent writes dp name inum (some none) =
    if writes
    then (some (
      record dp { entries = write_entry (free_entry dp.entries) (new_entry name inum) dp.entries },
      pos 0,
    ))
    else some (dp, minus_one)

unfoldable pub dirlink :
    (writes : Bool) → Directory → (name : List ℕ) (inum : ℕ) → Option (Directory × ℤ)
unfolding dirlookup dirlink_absent
dirlink writes dp name inum = dirlink_absent writes dp name inum (dirlookup dp name)
