-- ===== src/Kernel/Names/Walks.antt =====
-- namex of fs.c, against a walk along the names of the whole path.
use ncsc210_g.Base.{
  ℕ, zero, suc, ◌<◌, ◌≡◌, refl, sym, ap, ◌∙◌, inl, inr, Bool, not, ◌&&◌, Option, none, some, List,
  [], ◌∷◌, arith, ◌==◌, if◌then◌else◌, Bool-cases, Option-cases, length, get_or,
}
use ncsc210_g.Kernel.Names.{skipelem, Inodes, arrived, step_down, on_elem, namex_loop, namex}
use ncsc210_g.Kernel.Names.Elements.{elements, Splits, skipelem_lem, elements-empty}

module _ {Inode : Type 0} (inodes : Inodes Inode) where
  -- From an inode along the names; with `nameiparent` up to the directory of the last one. The result
  -- comes with the last name.
  unfoldable pub walk :
      (nameiparent : Bool) → Inode → (name : List ℕ) → List (List ℕ) → Option (Inode × List ℕ)
  walk nameiparent ip name [] = arrived inodes nameiparent ip name
  walk nameiparent ip name (n ∷ ns) =
      let below = λ (next : Inode). walk nameiparent next n ns in
      if not (inodes.is_dir ip)
      then none
      else if nameiparent && length ns == 0
      then some (ip, n)
      else elim (inodes.dirlookup ip n) [ none ↦ none | some next ↦ below next ]

  walk-nil :
      (nameiparent : Bool) (ip : Inode) (name : List ℕ)
      → walk nameiparent ip name [] ≡ arrived inodes nameiparent ip name
  unfolding walk
  walk-nil nameiparent ip name = refl

  step_down-walk :
      (nameiparent : Bool) (ip : Inode) (elem rest : List ℕ) (ns : List (List ℕ))
      (more : Inode → Option (Option (Inode × List ℕ)))
      → (length rest == 0) ≡ (length ns == 0)
      → ((next : Inode) → more next ≡ some (walk nameiparent next elem ns))
      → step_down inodes nameiparent ip elem rest more ≡ some (walk nameiparent ip elem (elem ∷ ns))
  unfolding walk
  step_down-walk nameiparent ip elem rest ns more e h = elim (Bool-cases (not (inodes.is_dir ip))) [
    | inl d ↦ rw d refl
    | inr d ↦ elim (Bool-cases (nameiparent && length ns == 0)) [
      | inl l ↦ rw (d, e, l) refl
      | inr l ↦ elim (Option-cases (inodes.dirlookup ip elem)) [
        | inl missing ↦ rw (d, e, l, missing) refl
        | inr (next, found) ↦ rw (d, e, l, found) (h next)
      ]
    ]
  ]

  walk-name :
      (nameiparent : Bool) (ip : Inode) (name elem : List ℕ) (n : List ℕ) (ns : List (List ℕ))
      → walk nameiparent ip name (n ∷ ns) ≡ walk nameiparent ip elem (n ∷ ns)
  unfolding walk
  walk-name nameiparent ip name elem n ns = refl

  on_elem-walk :
      (nameiparent : Bool) (ip : Inode) (name path : List ℕ)
      (more : (name path : List ℕ) → Inode → Option (Option (Inode × List ℕ)))
      (r : Option (List ℕ × List ℕ))
      → Splits path r
      → ((name rest : List ℕ) (next : Inode)
          → length rest < length path
          → more name rest next ≡ some (walk nameiparent next name (elements rest)))
      → on_elem inodes nameiparent ip name more r ≡ some (walk nameiparent ip name (elements path))
  on_elem-walk nameiparent ip name path more none s h =
      sym (ap (λ x. some (walk nameiparent ip name x)) s ∙ ap some (walk-nil nameiparent ip name))
  on_elem-walk nameiparent ip name path more (some (elem, rest)) (s, l, n) h =
      step_down-walk nameiparent ip elem rest (elements rest) (more elem rest)
        (elements-empty rest n) (λ next. h elem rest next l)
      ∙ sym (
          ap some (
            ap (walk nameiparent ip name) s
            ∙ walk-name nameiparent ip name elem elem (elements rest)))

  namex_loop-walk :
      (fuel : ℕ) (nameiparent : Bool) (name path : List ℕ) (ip : Inode)
      → length path < fuel
      → namex_loop inodes fuel nameiparent name path ip
        ≡ some (walk nameiparent ip name (elements path))
  unfolding namex_loop
  namex_loop-walk zero nameiparent name path ip low = absurd (omega (arith, low))
  namex_loop-walk (suc fuel) nameiparent name path ip low =
      on_elem-walk nameiparent ip name path (namex_loop inodes fuel nameiparent) (skipelem path)
        (skipelem_lem path)
        (λ elem rest next l.
          namex_loop-walk fuel nameiparent elem rest next (omega (arith, l, low)))

  -- The loop of namex ends, after at most as many rounds as the path has bytes and one, and its result is
  -- that of the walk along the names of the path: from the root if the path starts with a slash, else
  -- from the current directory.
  pub namex_lem :
      (fuel : ℕ) (nameiparent : Bool) (root cwd : Inode) (path : List ℕ)
      → length path < fuel
      → namex inodes fuel nameiparent root cwd path
        ≡ some (walk nameiparent (if get_or path 0 0 == b'/' then root else cwd) [] (elements path))
  unfolding namex
  namex_lem fuel nameiparent root cwd path low =
      namex_loop-walk fuel nameiparent [] path (if get_or path 0 0 == b'/' then root else cwd) low
