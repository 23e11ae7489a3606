-- ===== src/Vmm/Written.antt =====
-- One entry of a lowest table written.
use lnxrm.Base.{
  ℕ, zero, suc, ◌+◌, ◌*◌, ◌/◌, ◌<◌, ◌≡◌, true, false, refl, ap, sym, arith, ◌∙◌, if◌then◌else◌,
  ◌==◌, ==_iff, Option, some, ◌&&◌, Bool-cases, inl, inr,
}
use lnxrm.Vmm.{Vm, present, large, frame, i1, i2, i3, i4, store}
use lnxrm.Vmm.Tree.{IsUser, TablePlace, place, idx, pre, InTree, IsTree, descend, next_place}
use lnxrm.Vmm.Grow.{level_clash, both_eq}
use lnxrm.Vmm.Paths.{PathTo}

same_leaf : (r r' p p' : ℕ) → some (place r 0 p) ≡ some (place r' 0 p') → (r ≡ r') × (p ≡ p')
same_leaf r r' p p' e = ground arith

same_page : (va va' : ℕ) → pre 0 va ≡ pre 0 va' → i1 va ≡ i1 va' → va' / 4096 ≡ va / 4096
unfolding i1
same_page va va' p e = omega arith

i1_page : (va va' : ℕ) → va' / 4096 ≡ va / 4096 → i1 va' ≡ i1 va
unfolding i1
i1_page va va' e = omega arith

pub idx_page : (l va va' : ℕ) → va' / 4096 ≡ va / 4096 → idx l va' ≡ idx l va
unfolding i1 i2 i3 i4
idx_page zero va va' e = omega arith
idx_page (suc zero) va va' e = omega arith
idx_page (suc (suc zero)) va va' e = omega arith
idx_page (suc (suc (suc l))) va va' e = omega arith

-- One entry of a lowest table written.
module _ (home : ℕ → Option TablePlace) (s : Vm) (root va pt v : ℕ) (tree : IsTree home s)
    (u : IsUser va) (at : home pt ≡ some (place root 0 (pre 0 va))) where
  abbrev pub written : Vm
  written = store pt (i1 va) v s

  written-words : (x j : ℕ) → written.words x j ≡ (if pt == x && i1 va == j then v else s.words x j)
  unfolding store
  written-words x j = refl

  -- The tables above are as they were.
  upper : (x j r l p : ℕ) → home x ≡ some (place r (suc l) p) → written.words x j ≡ s.words x j
  upper x j r l p e =
      let other : (pt == x) ≡ false = elim (Bool-cases (pt == x)) [
        | inl z ↦
            let same : pt ≡ x = (==_iff pt x).0 z in
            absurd (level_clash r root l p _ (sym e ∙ ap home (sym same) ∙ at))
        | inr z ↦ z
      ] in
      written-words x j ∙ rw other refl

  written-edge :
      (a i r l p : ℕ)
      → home a ≡ some (place r (suc l) p)
      → InTree (suc l) i
      → present (written.words a i) ≡ true
      → (home (frame (written.words a i)) ≡ some (place r l (p * 512 + i)))
        × (large (written.words a i) ≡ false)
  written-edge a i r l p e c g =
      let word = upper a i r l p e in
      let old = tree.edge a i r l p e c (sym (ap present word) ∙ g) in
      (ap (λ w. home (frame w)) word ∙ old.0, ap large word ∙ old.1)

  pub written-IsTree : IsTree home written
  unfolding store
  written-IsTree = record {
    valid = tree.valid;
    based = tree.based;
    used = tree.used;
    edge = written-edge;
  }

  pub written-elsewhere :
      (l a r va' : ℕ)
      → l < 4
      → IsUser va'
      → (r ≡ root → va' / 4096 ≡ va / 4096 → ⊥)
      → home a ≡ some (place r l (pre l va'))
      → descend l a va' written ≡ descend l a va' s
  unfolding descend
  written-elsewhere zero a r va' b w n h = elim (Bool-cases (pt == a && i1 va == i1 va')) [
    | inl z ↦
        let (ea, ei) = both_eq pt a (i1 va) (i1 va') z in
        let q = same_leaf root r _ _ (sym at ∙ ap home ea ∙ h) in
        absurd (n (sym q.0) (same_page va va' q.1 ei))
    | inr z ↦ written-words a (i1 va') ∙ rw z refl
  ]
  written-elsewhere (suc l) a r va' b w n h =
      let word = upper a (idx (suc l) va') r l _ h in
      elim (Bool-cases (present (s.words a (idx (suc l) va')))) [
        | inl g ↦
            rw (word, g)
              (written-elsewhere l _ r va' (omega arith) w n
                (next_place home s a r l va' tree w (omega arith) h g))
        | inr g ↦ rw (word, g) refl
      ]

  pub written-here :
      (l a r va' : ℕ)
      → va' / 4096 ≡ va / 4096
      → home a ≡ some (place r l (pre l va))
      → l < 4
      → PathTo l a va pt s
      → descend l a va' written ≡ v
  unfolding descend
  written-here zero a r va' same h b path =
      written-words a (i1 va') ∙ rw (path, i1_page va va' same) (ground arith)
  written-here (suc l) a r va' same h b path =
      let at_idx = idx_page (suc l) va va' same in
      let word = ap (λ j. written.words a j) at_idx ∙ upper a (idx (suc l) va) r l _ h in
      rw (word, path.0)
        (written-here l _ r va' same (next_place home s a r l va tree u (omega arith) h path.0)
          (omega arith) path.1)
