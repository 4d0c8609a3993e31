-- ===== src/Kernel/Names/Directory/Tests.antt =====
-- A root, inode 1, with a directory `a`, inode 2, where `new` is created as inode 7.
use ncsc210_g.Base.{
  ℕ, ◌≡◌, refl, ◌≢◌, ◌⊎◌, true, false, none, some, [], ◌∷◌, arith, ◌==◌, if◌then◌else◌, pos,
  minus_one, codes, update,
}
use ncsc210_g.Kernel.Names.{namex}
use ncsc210_g.Kernel.Names.Directory.{Directory, namecmp, dirlookup, name_field, dirlink}
use ncsc210_g.Kernel.Names.Directory.Linked.{IsLinked, dirlink-dirlookup}
use ncsc210_g.Kernel.Names.Directory.Created.{inodes_of, namex-dirlink}

abbrev root_dir : Directory
unfolding name_field
root_dir = record {
  is_dir = true;
  entries = record { inum = 2; name = name_field 14 (codes "a") } ∷ [];
}

-- The first entry is free.
abbrev dir_a : Directory
unfolding name_field
dir_a = record {
  is_dir = true;
  entries =
      record { inum = 0; name = name_field 14 (codes "old") }
      ∷ record { inum = 5; name = name_field 14 (codes "exactly14bytes") }
      ∷ [];
}

abbrev file_system : ℕ → Directory
file_system ip =
    if ip == 1 then root_dir else if ip == 2 then dir_a else record { is_dir = false; entries = [] }

finds_long_name : dirlookup dir_a (codes "exactly14bytes_and_more") ≡ some (some (5, 16))
unfolding dirlookup namecmp name_field
finds_long_name = refl

free_entry_is_not_found : dirlookup dir_a (codes "old") ≡ some none
unfolding dirlookup namecmp name_field
free_entry_is_not_found = refl

abbrev dir_a1 : Directory
unfolding dirlink namecmp name_field
dir_a1 = elim (dirlink true dir_a (codes "new") 7) [ none ↦ dir_a | some (dp, r) ↦ dp ]

links_new : dirlink true dir_a (codes "new") 7 ≡ some (dir_a1, pos 0)
unfolding dirlink namecmp name_field
links_new = refl

dirlink-dirlookup_example :
    ((pos 0 ≡ pos 0) × IsLinked (codes "new") 7 dir_a dir_a1)
    ⊎ ((pos 0 ≡ minus_one)
        × (dir_a1 ≡ dir_a)
        × ((dirlookup dir_a (codes "new") ≢ some none) ⊎ (true ≡ false)))
unfolding dirlink namecmp name_field
dirlink-dirlookup_example =
    dirlink-dirlookup true dir_a dir_a1 (codes "new") 7 (pos 0) (omega arith) (omega arith)
      (omega arith) links_new

namex-dirlink_example :
    namex (inodes_of (update file_system 2 dir_a1)) 9 false 1 1 (codes "/a/new")
    ≡ some (some (7, codes "new"))
unfolding dirlink namecmp name_field namex
namex-dirlink_example =
    namex-dirlink file_system 9 1 1 2 (codes "/a/new") (codes "new") true 7 dir_a1 (omega arith)
      (omega arith) (omega arith) (omega arith) refl links_new
