-- ===== src/Kernel/Names/Tests.antt =====
-- A root, inode 1, with a directory `a`, inode 2, that has a file, inode 3.
use ncsc210_g.Base.{
  ℕ, ◌≡◌, refl, true, false, ◌&&◌, none, some, [], arith, ltb, ◌==◌, if◌then◌else◌, get_or, codes,
}
use ncsc210_g.Kernel.Names.{skipelem, Inodes, namex}
use ncsc210_g.Kernel.Names.Elements.{elements}
use ncsc210_g.Kernel.Names.Walks.{walk, namex_lem}

abbrev tree : Inodes ℕ
tree = record {
  is_dir = λ ip. ltb ip 3;
  dirlookup = λ ip name.
      if ip == 1 && get_or name 0 0 == b'a' then some 2 else if ip == 2 then some 3 else none;
}

slashes_are_skipped : skipelem (codes "///a/bb") ≡ some (codes "a", codes "bb")
unfolding skipelem
slashes_are_skipped = refl

long_name_is_cut : skipelem (codes "abcdefghijklmnop") ≡ some (codes "abcdefghijklmn", [])
unfolding skipelem
long_name_is_cut = refl

finds_the_file : namex tree 9 false 1 2 (codes "/a//file") ≡ some (some (3, codes "file"))
unfolding namex
finds_the_file = refl

finds_the_parent : namex tree 9 true 1 2 (codes "/a//file") ≡ some (some (2, codes "file"))
unfolding namex
finds_the_parent = refl

namex_lem_example :
    namex tree 9 false 1 2 (codes "/a//file")
    ≡ some (walk tree false 1 [] (elements (codes "/a//file")))
namex_lem_example = namex_lem tree 9 false 1 2 (codes "/a//file") (omega arith)
