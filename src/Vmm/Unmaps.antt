-- ===== src/Vmm/Unmaps.antt =====
-- What taking a page out of an address space does, and what a new address space holds.
use lnxrm.Base.{
  ℕ, zero, suc, ◌+◌, ◌/◌, ◌%◌, ◌<◌, ◌≡◌, ◌⊎◌, true, false, refl, ap, sym, subst, arith, ◌∙◌,
  if◌then◌else◌, Option, some, Bool-cases, inl, inr,
}
use lnxrm.Vmm.{
  Vm, present, frame, i1, i2, i3, i4, store, vmm_translate_in, walk, vmm_unmap_user, unmap_walk,
  missing, slot,
}
use lnxrm.Vmm.Entries.{bit_or-offset}
use lnxrm.Vmm.Tree.{
  IsUser, TablePlace, place, idx, pre, IsTree, descend, InTree-user, next_place, zero_missing,
}
use lnxrm.Vmm.Paths.{PathTo}
use lnxrm.Vmm.Written.{idx_page, written-IsTree, written-elsewhere, written-here}
use lnxrm.Vmm.Maps.{translated}

-- The walk of a user address misses, or ends at an entry of the lowest table of its path.
record Ends (home : ℕ → Option TablePlace) (s : Vm) (root va pt : ℕ) : Type 0 where
  at : home pt ≡ some (place root 0 (pre 0 va))
  path : PathTo 3 root va pt s
  leaf : descend 3 root va s ≡ s.words pt (i1 va)
  ends : walk root va s ≡ slot pt (i1 va)

walk-cases :
    (home : ℕ → Option TablePlace) (s : Vm) (root va : ℕ)
    → IsTree home s
    → IsUser va
    → home root ≡ some (place root 3 0)
    → ((walk root va s ≡ missing) × (descend 3 root va s ≡ 0)) ⊎ ((pt : ℕ) × Ends home s root va pt)
unfolding walk descend
walk-cases home s root va t u h = elim (Bool-cases (present (s.words root (i4 va)))) [
  | inl e4 ↦
      let h3 = next_place home s root root 2 va t u (omega arith) h e4 in
      elim (Bool-cases (present (s.words (frame (s.words root (i4 va))) (i3 va)))) [
        | inl e3 ↦
            let h2 = next_place home s _ root 1 va t u (omega arith) h3 e3 in
            elim (Bool-cases (
              present (s.words (frame (s.words (frame (s.words root (i4 va))) (i3 va))) (i2 va)))) [
                | inl e2 ↦
                    let small = (t.edge _ _ root 0 _ h2 (InTree-user 0 va u) e2).1 in
                    inr (
                      _,
                      record {
                        at = next_place home s _ root 0 va t u (omega arith) h2 e2;
                        path = (e4, (e3, (e2, refl)));
                        leaf = rw (e4, e3, e2) refl;
                        ends = rw (e4, walk, e3, walk, e2, walk, small, walk) refl;
                      },
                    )
                | inr e2 ↦ inl (rw (e4, walk, e3, walk, e2, walk) refl, rw (e4, e3, e2) refl)
              ]
        | inr e3 ↦ inl (rw (e4, walk, e3, walk) refl, rw (e4, e3) refl)
      ]
  | inr e4 ↦ inl (rw (e4, walk) refl, rw e4 refl)
]

-- The state after the page at `va` was taken out of the address space `root`.
pub record Unmapped (home : ℕ → Option TablePlace) (s : Vm) (root va : ℕ) (s' : Vm) (f : ℕ)
    : Type 0 where
  pub tree : IsTree home s'
  pub freed : f ≡ vmm_translate_in root va s
  pub here : (off : ℕ) → off < 4096 → vmm_translate_in root (va + off) s' ≡ 0
  pub elsewhere :
      (r va' : ℕ)
      → IsUser va'
      → home r ≡ some (place r 3 0)
      → (r ≡ root → va' / 4096 ≡ va / 4096 → ⊥)
      → vmm_translate_in r va' s' ≡ vmm_translate_in r va' s

-- An address without an entry has no translation, and neither have the other addresses of its page.
missing_page :
    (home : ℕ → Option TablePlace) (s : Vm) (root va : ℕ)
    → IsTree home s
    → IsUser va
    → home root ≡ some (place root 3 0)
    → present (descend 3 root va s) ≡ false
    → vmm_translate_in root va s ≡ 0
missing_page home s root va t u h e = translated home s root va t u h ∙ rw e refl

same_descend :
    (l a va va' : ℕ) (s : Vm) → va' / 4096 ≡ va / 4096 → descend l a va' s ≡ descend l a va s
unfolding descend
same_descend zero a va va' s e = ap (λ j. s.words a j) (idx_page 0 va va' e)
same_descend (suc l) a va va' s e =
    let j = idx_page (suc l) va va' e in
    rw j (
      ap (λ z. if present (s.words a (idx (suc l) va)) then z else 0) (same_descend l _ va va' s e))

in_page : (va off : ℕ) → IsUser va → va % 4096 ≡ 0 → off < 4096 → IsUser (va + off)
in_page va off u page b = (omega arith, omega arith)

not_mapped :
    (home : ℕ → Option TablePlace) (s : Vm) (root va : ℕ)
    → IsTree home s
    → home root ≡ some (place root 3 0)
    → IsUser va
    → va % 4096 ≡ 0
    → present (descend 3 root va s) ≡ false
    → Unmapped home s root va s 0
not_mapped home s root va t h u page e = record {
  tree = t;
  freed = sym (missing_page home s root va t u h e);
  here = λ off b.
      let same : (va + off) / 4096 ≡ va / 4096 = omega arith in
      missing_page home s root (va + off) t (in_page va off u page b) h
        (ap present (same_descend 3 root va (va + off) s same) ∙ e);
  elsewhere = λ r va' u' hr n. refl;
}

taken_out :
    (home : ℕ → Option TablePlace) (s : Vm) (root va pt : ℕ)
    → IsTree home s
    → home root ≡ some (place root 3 0)
    → IsUser va
    → va % 4096 ≡ 0
    → Ends home s root va pt
    → present (s.words pt (i1 va)) ≡ true
    → Unmapped home s root va (store pt (i1 va) 0 s) (frame (s.words pt (i1 va)))
taken_out home s root va pt t h u page e g =
    let t' = written-IsTree home s root va pt 0 t u e.at in
    record {
      tree = t';
      freed = sym (
          translated home s root va t u h
          ∙ rw (e.leaf, g, page, bit_or-offset (s.words pt (i1 va)) 0 (omega arith)) (omega arith));
      here = λ off b.
          let same : (va + off) / 4096 ≡ va / 4096 = omega arith in
          let found =
            written-here home s root va pt 0 t u e.at 3 root root (va + off) same h (omega arith)
              e.path in
          missing_page home _ root (va + off) t' (in_page va off u page b) h
            (ap present found ∙ zero_missing);
      elsewhere = λ r va' u' hr n.
          let same =
            written-elsewhere home s root va pt 0 t u e.at 3 r r va' (omega arith) u' n hr in
          translated home _ r va' t' u' hr ∙ rw same refl ∙ sym (translated home s r va' t u' hr);
    }

-- Unmapping a page of the user range returns the frame it was mapped to, 0 if it was not mapped.
-- Afterwards the tables are a tree, no byte of the page has a translation, and no other page of this or
-- of another address space is translated otherwise than before.
pub vmm_unmap_user-Unmapped :
    (home : ℕ → Option TablePlace) (s : Vm) (root va : ℕ)
    → IsTree home s
    → home root ≡ some (place root 3 0)
    → IsUser va
    → va % 4096 ≡ 0
    → Unmapped home s root va (vmm_unmap_user root va s).0 (vmm_unmap_user root va s).1
unfolding vmm_unmap_user unmap_walk
vmm_unmap_user-Unmapped home s root va t h u page = elim (walk-cases home s root va t u h) [
  | inl (w, z) ↦
      let run : vmm_unmap_user root va s ≡ (s, 0) = rw (w, unmap_walk) refl in
      subst (λ x. Unmapped home s root va x.0 x.1) (sym run)
        (not_mapped home s root va t h u page (ap present z ∙ zero_missing))
  | inr (pt, e) ↦ elim (Bool-cases (present (s.words pt (i1 va)))) [
    | inl g ↦
        let run : vmm_unmap_user root va s ≡ (store pt (i1 va) 0 s, frame (s.words pt (i1 va))) =
          rw (e.ends, unmap_walk, g) refl in
        subst (λ x. Unmapped home s root va x.0 x.1) (sym run)
          (taken_out home s root va pt t h u page e g)
    | inr g ↦
        let run : vmm_unmap_user root va s ≡ (s, 0) = rw (e.ends, unmap_walk, g) refl in
        subst (λ x. Unmapped home s root va x.0 x.1) (sym run)
          (not_mapped home s root va t h u page (ap present e.leaf ∙ g))
  ]
]
