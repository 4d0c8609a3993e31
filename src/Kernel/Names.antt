-- ===== src/Kernel/Names.antt =====
-- The walk along a path in xv6-riscv/kernel/fs.c: skipelem and namex. A path is the bytes before its zero
-- byte. Inodes are any type, with what namex asks of them; their locks and reference counts are left out.
mod Tests
pub mod Directory
pub mod Elements
pub mod Walks
use ncsc210_g.Base.{
  ℕ, zero, suc, Bool, true, false, not, ◌&&◌, Option, none, some, List, [], ◌∷◌, ◌==◌,
  if◌then◌else◌, length, get_or, take,
}

abbrev pub dirsiz : ℕ
dirsiz = 14

pub skip_slashes : List ℕ → List ℕ
skip_slashes [] = []
skip_slashes (c ∷ cs) = let rest = skip_slashes cs in if c == b'/' then rest else c ∷ cs

-- The bytes in front of the next slash, and those from it on.
pub take_elem : List ℕ → List ℕ × List ℕ
take_elem [] = ([], [])
take_elem (c ∷ cs) =
    let (elem, rest) = take_elem cs in if c == b'/' then ([], c ∷ cs) else (c ∷ elem, rest)

-- A path behind its slashes. The name is cut to DIRSIZ bytes.
abbrev pub elem_of : List ℕ → Option (List ℕ × List ℕ)
elem_of [] = none
elem_of (c ∷ cs) =
    let (elem, rest) = take_elem (c ∷ cs) in some (take dirsiz elem, skip_slashes rest)

unfoldable pub skipelem : List ℕ → Option (List ℕ × List ℕ)
unfolding skip_slashes take_elem
skipelem path = elem_of (skip_slashes path)

-- What namex asks of an inode: whether it is a directory, and dirlookup.
pub record Inodes (Inode : Type 0) : Type 0 where
  pub is_dir : Inode → Bool
  pub dirlookup : Inode → (name : List ℕ) → Option Inode

module _ {Inode : Type 0} (inodes : Inodes Inode) where
  -- The end of namex, where the path is used up.
  abbrev pub arrived : (nameiparent : Bool) → Inode → List ℕ → Option (Inode × List ℕ)
  arrived true ip name = none
  arrived false ip name = some (ip, name)

  -- The body of the loop of namex, for a name and the path behind it; `more` is the rest of the loop.
  abbrev pub step_down :
      (nameiparent : Bool)
      → Inode
      → (name path : List ℕ) → (more : Inode → Option (Option (Inode × List ℕ)))
      → Option (Option (Inode × List ℕ))
  step_down nameiparent ip name path more =
      if not (inodes.is_dir ip)
      then some none
      else if nameiparent && length path == 0
      then some (some (ip, name))
      else elim (inodes.dirlookup ip name) [ none ↦ some none | some next ↦ more next ]

  abbrev pub on_elem :
      (nameiparent : Bool)
      → Inode
      → (name : List ℕ) → (more : (name path : List ℕ) → Inode → Option (Option (Inode × List ℕ)))
      → Option (List ℕ × List ℕ)
      → Option (Option (Inode × List ℕ))
  on_elem nameiparent ip name more none = some (arrived nameiparent ip name)
  on_elem nameiparent ip name more (some (elem, path)) =
      step_down nameiparent ip elem path (more elem path)

  -- The loop of namex on fuel; `none` when that runs out. Its result is the inode, if there is one, with
  -- the name that was read last.
  pub namex_loop :
      (fuel : ℕ) (nameiparent : Bool)
      → (name path : List ℕ) → Inode
      → Option (Option (Inode × List ℕ))
  unfolding skipelem
  namex_loop zero nameiparent name path ip = none
  namex_loop (suc fuel) nameiparent name path ip =
      on_elem nameiparent ip name (namex_loop fuel nameiparent) (skipelem path)

  -- A path that starts with a slash starts at the root, any other at the current directory.
  unfoldable pub namex :
      (fuel : ℕ) (nameiparent : Bool) (root cwd : Inode) → List ℕ → Option (Option (Inode × List ℕ))
  unfolding namex_loop
  namex fuel nameiparent root cwd path =
      namex_loop fuel nameiparent [] path (if get_or path 0 0 == b'/' then root else cwd)
