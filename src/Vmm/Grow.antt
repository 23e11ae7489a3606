-- ===== src/Vmm/Grow.antt =====
-- A new table hung into the tree.
use lnxrm.Base.{
  ℕ, zero, suc, ◌+◌, ◌*◌, ◌<◌, ◌≡◌, ◌≢◌, true, false, refl, ap, ap₂, sym, arith, ◌∙◌, if◌then◌else◌,
  ◌==◌, ==_iff, Option, some, ◌&&◌, Bool-cases, inl, inr, update,
}
use lnxrm.Pmm.{Pmm}
use lnxrm.Pmm.Amounts.{covers}
use lnxrm.Vmm.{Vm, present, large, frame, i1, store, clear_page}
use lnxrm.Vmm.Entries.{table_entry, table_entry-frame}
use lnxrm.Vmm.Grown.{Grown, IsFresh}
use lnxrm.Vmm.Tree.{
  IsUser, TablePlace, place, idx, pre, InTree, IsTree, descend, next_place, zero_missing,
}

pub true-ne-false : true ≢ false
true-ne-false e = cc

pub both_eq : (a x i j : ℕ) → (a == x && i == j) ≡ true → (a ≡ x) × (i ≡ j)
both_eq a x i j z = ground arith

pub level_clash : (r r' l p p' : ℕ) → some (place r (suc l) p) ≢ some (place r' 0 p')
level_clash r r' l p p' e = ground arith

same_child :
    (r r' l l' p p' i j : ℕ)
    → some (place r (suc l) p) ≡ some (place r' (suc l') p')
    → i ≡ j
    → place r l (p * 512 + i) ≡ place r' l' (p' * 512 + j)
same_child r r' l l' p p' i j e g = ground arith

-- The state in which the fresh frame `t` hangs at entry `i` of `a`.
unfoldable pub hang_table : ℕ → ℕ → Pmm → ℕ → Vm → Vm
hang_table a i q t s = store a i (table_entry t) (clear_page t (record s { pmm = q }))

module _ (home : ℕ → Option TablePlace) (s : Vm) (a i r l p t : ℕ) (q : Pmm) (tree : IsTree home s)
    (fresh : IsFresh s q t) (h : home a ≡ some (place r (suc l) p)) (b : InTree (suc l) i)
    (absent : present (s.words a i) ≡ false) where
  pub new_home : ℕ → Option TablePlace
  new_home = update home t (some (place r l (p * 512 + i)))

  unplaced : (x : ℕ) (y : TablePlace) → home x ≡ some y → (t == x) ≡ false
  unplaced x y e = elim (Bool-cases (t == x)) [
    | inl z ↦
        let same : t ≡ x = (==_iff t x).0 z in
        absurd (omega (arith, tree.used x y e, fresh.was, ap (λ f. covers f s.pmm) same))
    | inr z ↦ z
  ]

  hang_table-words :
      (x j : ℕ)
      → (hang_table a i q t s).words x j
        ≡ (if a == x && i == j then table_entry t else if t == x then 0 else s.words x j)
  unfolding hang_table store clear_page
  hang_table-words x j = refl

  -- A present entry of a table that was there is as before, or the new one.
  old_entry :
      (x j : ℕ) (y : TablePlace)
      → home x ≡ some y
      → (a == x && i == j) ≡ false
      → (hang_table a i q t s).words x j ≡ s.words x j
  old_entry x j y e d = hang_table-words x j ∙ rw (d, unplaced x y e) refl

  pub new_entry : (hang_table a i q t s).words a i ≡ table_entry t
  new_entry = hang_table-words a i ∙ ground arith

  -- The new table is empty.
  empty : (j : ℕ) → (hang_table a i q t s).words t j ≡ 0
  empty j = hang_table-words t j ∙ rw (other_than_a) (ground arith)
    where
      other_than_a : (a == t) ≡ false
      other_than_a = ground (arith, unplaced a _ h)

  -- An entry that is present cannot be the one that was made.
  not_new : (x j : ℕ) → present (s.words x j) ≡ true → (a == x && i == j) ≡ false
  not_new x j e = elim (Bool-cases (a == x && i == j)) [
    | inl z ↦
        let at : s.words a i ≡ s.words x j =
          ap₂ s.words (both_eq a x i j z).0 (both_eq a x i j z).1 in
        absurd (true-ne-false (sym e ∙ ap present (sym at) ∙ absent))
    | inr z ↦ z
  ]
    where
      both : (a == x && i == j) ≡ true → (a ≡ x) × (i ≡ j)
      both z = ground arith

  homes_kept : (x : ℕ) (y : TablePlace) → home x ≡ some y → new_home x ≡ some y
  unfolding new_home
  homes_kept x y e = rw (unplaced x y e) e

  old_home : (x : ℕ) (y : TablePlace) → (t == x) ≡ false → new_home x ≡ some y → home x ≡ some y
  unfolding new_home
  old_home x y z e = sym (rw z refl) ∙ e

  pub home_of_t : new_home t ≡ some (place r l (p * 512 + i))
  unfolding new_home
  home_of_t = ground arith

  edge_of :
      (x j r' l' p' : ℕ)
      → new_home x ≡ some (place r' (suc l') p')
      → InTree (suc l') j
      → present ((hang_table a i q t s).words x j) ≡ true
      → (new_home (frame ((hang_table a i q t s).words x j)) ≡ some (place r' l' (p' * 512 + j)))
        × (large ((hang_table a i q t s).words x j) ≡ false)
  edge_of x j r' l' p' e c g = elim (Bool-cases (t == x)) [
    | inl z ↦
        let same : t ≡ x = (==_iff t x).0 z in
        absurd (
          true-ne-false (
            sym g
            ∙ ap (λ k. present ((hang_table a i q t s).words k j)) (sym same)
            ∙ ap present (empty j)
            ∙ zero_missing))
    | inr z ↦
        let old : home x ≡ some (place r' (suc l') p') = old_home x _ z e in
        elim (Bool-cases (a == x && i == j)) [
          | inl k ↦
              let (xa, ij) = both_eq a x i j k in
              let word : (hang_table a i q t s).words x j ≡ table_entry t =
                ap₂ (hang_table a i q t s).words (sym xa) (sym ij) ∙ new_entry in
              let e' = table_entry-frame t fresh.aligned in
              let where_to : place r l (p * 512 + i) ≡ place r' l' (p' * 512 + j) =
                same_child r r' l l' p p' i j (sym h ∙ ap home xa ∙ old) ij in
              (
                ap new_home (ap frame word ∙ e'.2) ∙ home_of_t ∙ ap some where_to,
                ap large word ∙ e'.1,
              )
          | inr k ↦
              let word = old_entry x j _ old k in
              let at = tree.edge x j r' l' p' old c (sym (ap present word) ∙ g) in
              (ap (λ w. new_home (frame w)) word ∙ homes_kept _ _ at.0, ap large word ∙ at.1)
        ]
  ]

  grown-IsTree : IsTree new_home (hang_table a i q t s)
  unfolding hang_table store clear_page
  grown-IsTree = record {
    valid = fresh.valid;
    based = omega (arith, fresh.based, tree.based);
    used = λ x y e. elim (Bool-cases (t == x)) [
      | inl z ↦ let same : t ≡ x = (==_iff t x).0 z in ap (λ f. covers f q) (sym same) ∙ fresh.gone
      | inr z ↦ omega (arith, fresh.less x, tree.used x y (old_home x y z e))
    ];
    edge = edge_of;
  }

  descend-empty : (m va : ℕ) → descend m t va (hang_table a i q t s) ≡ 0
  unfolding descend
  descend-empty zero va = empty (i1 va)
  descend-empty (suc m) va = rw (ap present (empty (idx (suc m) va)) ∙ zero_missing) refl

  leaves_of :
      (m x r' va : ℕ)
      → m < 4
      → IsUser va
      → home x ≡ some (place r' m (pre m va))
      → descend m x va (hang_table a i q t s) ≡ descend m x va s
  unfolding descend
  leaves_of zero x r' va c u e =
      let other : (a == x && i == i1 va) ≡ false = elim (Bool-cases (a == x)) [
        | inl z ↦
            let same : a ≡ x = (==_iff a x).0 z in
            absurd (level_clash r r' l p _ (sym h ∙ ap home same ∙ e))
        | inr z ↦ rw z refl
      ] in
      old_entry x (i1 va) _ e other
  leaves_of (suc m) x r' va c u e = elim (Bool-cases (a == x && i == idx (suc m) va)) [
    | inl z ↦
        let (xa, ij) = both_eq a x i (idx (suc m) va) z in
        let before : present (s.words x (idx (suc m) va)) ≡ false =
          ap present (ap₂ s.words (sym xa) (sym ij)) ∙ absent in
        let after : (hang_table a i q t s).words x (idx (suc m) va) ≡ table_entry t =
          ap₂ (hang_table a i q t s).words (sym xa) (sym ij) ∙ new_entry in
        let e' = table_entry-frame t fresh.aligned in
        rw (before, after, e'.0, e'.2) (descend-empty m va)
    | inr z ↦
        let same = old_entry x (idx (suc m) va) _ e z in
        elim (Bool-cases (present (s.words x (idx (suc m) va)))) [
          | inl g ↦
              rw (same, g)
                (leaves_of m (frame (s.words x (idx (suc m) va))) r' va (omega arith) u
                  (next_place home s x r' m va tree u (omega arith) e g))
          | inr g ↦ rw (same, g) refl
        ]
  ]

  pub hang_table-Grown : Grown home s new_home (hang_table a i q t s)
  hang_table-Grown = record {
    tree = grown-IsTree;
    homes = homes_kept;
    kept = λ x j y e g. old_entry x j y e (not_new x j g);
    leaves = leaves_of;
  }
