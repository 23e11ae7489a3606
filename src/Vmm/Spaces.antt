-- ===== src/Vmm/Spaces.antt =====
-- A new address space beside those that exist.
use lnxrm.Base.{
  ℕ, zero, suc, ◌+◌, ◌*◌, ◌<◌, ◌≡◌, ◌≢◌, ◌⊎◌, true, false, refl, ap, ap₂, sym, arith, ◌∙◌, ◌==◌,
  ==_iff, Option, none, some, Bool-cases, Option-cases, inl, inr, update,
}
use lnxrm.Pmm.{pmm_alloc_order, Pmm}
use lnxrm.Pmm.Amounts.{covers}
use lnxrm.Vmm.{
  Vm, present, large, frame, i1, i4, vmm_translate_in, new_table, clear_page, copy_kernel,
  vmm_new_user_aspace, user_slot,
}
use lnxrm.Vmm.Tree.{
  IsUser, TablePlace, place, idx, pre, InTree, IsTree, descend, InTree-user, next_place,
  zero_missing,
}
use lnxrm.Vmm.Grown.{IsFresh, alloc-IsFresh}
use lnxrm.Vmm.Grow.{true-ne-false}
use lnxrm.Vmm.Maps.{translated}

-- The state after an address space with the root `root` was made.
pub record SpaceOpened (home : ℕ → Option TablePlace) (s : Vm) (master root : ℕ) (s' : Vm)
    : Type 0 where
  pub home' : ℕ → Option TablePlace
  pub tree : IsTree home' s'
  pub homes : (a : ℕ) (q : TablePlace) → home a ≡ some q → home' a ≡ some q
  pub new_root : home' root ≡ some (place root 3 0)
  pub was_none : home root ≡ none
  pub empty : (va : ℕ) → IsUser va → vmm_translate_in root va s' ≡ 0
  pub kernel : (i : ℕ) → i < 512 → i ≢ user_slot → s'.words root i ≡ s.words master i
  pub elsewhere :
      (r va : ℕ)
      → IsUser va
      → home r ≡ some (place r 3 0)
      → vmm_translate_in r va s' ≡ vmm_translate_in r va s

level_of : (t r l p : ℕ) → some (place t 3 0) ≡ some (place r (suc l) p) → suc l ≡ 3
level_of t r l p e = ground arith

-- The frame `t` as a root.
open_root : ℕ → ℕ → Pmm → Vm → Vm
open_root t master q s = copy_kernel t master (clear_page t (record s { pmm = q }))

module _ (home : ℕ → Option TablePlace) (s : Vm) (master t : ℕ) (q : Pmm) (tree : IsTree home s)
    (fresh : IsFresh s q t) (master_kept : covers master s.pmm ≡ 0) where
  home' : ℕ → Option TablePlace
  home' = update home t (some (place t 3 0))

  unplaced : (x : ℕ) (y : TablePlace) → home x ≡ some y → (t == x) ≡ false
  unplaced x y e = elim (Bool-cases (t == x)) [
    | inl z ↦
        let same : t ≡ x = (==_iff t x).0 z in
        absurd (omega (arith, tree.used x y e, fresh.was, ap (λ f. covers f s.pmm) same))
    | inr z ↦ z
  ]

  apart : (t == master) ≡ false
  apart = elim (Bool-cases (t == master)) [
    | inl z ↦
        let same : t ≡ master = (==_iff t master).0 z in
        absurd (omega (arith, master_kept, fresh.was, ap (λ f. covers f s.pmm) same))
    | inr z ↦ z
  ]

  old_words : (x j : ℕ) → (t == x) ≡ false → (open_root t master q s).words x j ≡ s.words x j
  unfolding open_root copy_kernel clear_page
  old_words x j e = rw e refl

  user_word : (open_root t master q s).words t 255 ≡ 0
  unfolding open_root copy_kernel clear_page
  user_word = ground arith

  kernel_word :
      (i : ℕ) → i < 512 → i ≢ user_slot → (open_root t master q s).words t i ≡ s.words master i
  unfolding open_root copy_kernel clear_page
  kernel_word i b n = ground (arith, apart)

  homes_kept : (x : ℕ) (y : TablePlace) → home x ≡ some y → home' x ≡ some y
  unfolding home'
  homes_kept x y e = rw (unplaced x y e) e

  home_of_t : home' t ≡ some (place t 3 0)
  unfolding home'
  home_of_t = ground arith

  old_home : (x : ℕ) (y : TablePlace) → (t == x) ≡ false → home' x ≡ some y → home x ≡ some y
  unfolding home'
  old_home x y z e = sym (rw z refl) ∙ e

  edge_of :
      (x j r l p : ℕ)
      → home' x ≡ some (place r (suc l) p)
      → InTree (suc l) j
      → present ((open_root t master q s).words x j) ≡ true
      → (home' (frame ((open_root t master q s).words x j)) ≡ some (place r l (p * 512 + j)))
        × (large ((open_root t master q s).words x j) ≡ false)
  edge_of x j r l p e c g = elim (Bool-cases (t == x)) [
    | inl z ↦
        let same : t ≡ x = (==_iff t x).0 z in
        let level : suc l ≡ 3 = level_of t r l p (sym home_of_t ∙ ap home' same ∙ e) in
        let zero_word : (open_root t master q s).words x j ≡ 0 =
          ap₂ (open_root t master q s).words (sym same) (c level) ∙ user_word in
        absurd (true-ne-false (sym g ∙ ap present zero_word ∙ zero_missing))
    | inr z ↦
        let word = old_words x j z in
        let at = tree.edge x j r l p (old_home x _ z e) c (sym (ap present word) ∙ g) in
        (ap (λ w. home' (frame w)) word ∙ homes_kept _ _ at.0, ap large word ∙ at.1)
  ]

  open-IsTree : IsTree home' (open_root t master q s)
  unfolding open_root copy_kernel clear_page
  open-IsTree = record {
    valid = fresh.valid;
    based = omega (arith, fresh.based, tree.based);
    used = λ x y e. elim (Bool-cases (t == x)) [
      | inl z ↦ let same : t ≡ x = (==_iff t x).0 z in ap (λ f. covers f q) (sym same) ∙ fresh.gone
      | inr z ↦ omega (arith, fresh.less x, tree.used x y (old_home x y z e))
    ];
    edge = edge_of;
  }

  same_below :
      (m x r va : ℕ)
      → m < 4
      → IsUser va
      → home x ≡ some (place r m (pre m va))
      → descend m x va (open_root t master q s) ≡ descend m x va s
  unfolding descend
  same_below zero x r va c u e = old_words x (i1 va) (unplaced x _ e)
  same_below (suc m) x r va c u e =
      let same = old_words x (idx (suc m) va) (unplaced x _ e) in
      elim (Bool-cases (present (s.words x (idx (suc m) va)))) [
        | inl g ↦
            rw (same, g)
              (same_below m _ r va (omega arith) u
                (next_place home s x r m va tree u (omega arith) e g))
        | inr g ↦ rw (same, g) refl
      ]

  nothing : (va : ℕ) → IsUser va → descend 3 t va (open_root t master q s) ≡ 0
  unfolding descend
  nothing va u =
      let at : i4 va ≡ 255 = InTree-user 2 va u refl in rw (at, user_word, zero_missing) refl

  open-SpaceOpened : home t ≡ none → SpaceOpened home s master t (open_root t master q s)
  open-SpaceOpened n = record {
    home' = home';
    tree = open-IsTree;
    homes = homes_kept;
    new_root = home_of_t;
    was_none = n;
    empty = λ va u.
        translated home' _ t va open-IsTree u home_of_t ∙ rw (nothing va u, zero_missing) refl;
    kernel = kernel_word;
    elsewhere = λ r va u h.
        translated home' _ r va open-IsTree u (homes_kept r _ h)
        ∙ rw (same_below 3 r r va (omega arith) u h) refl
        ∙ sym (translated home s r va tree u h);
  }

free_unplaced :
    (home : ℕ → Option TablePlace) (s : Vm) (t : ℕ)
    → IsTree home s
    → covers t s.pmm ≡ 1
    → home t ≡ none
free_unplaced home s t tree c = elim (Option-cases (home t)) [
  | inl e ↦ e
  | inr (y, e) ↦ absurd (omega (arith, tree.used t y e, c))
]

-- If the kernel's root is no frame of the allocator, a new address space either meets an empty
-- allocator, or it has a root that was no table before, the kernel's entries outside the user slot, and
-- no translation in the user range; the tables are a tree again and the user translations of every
-- other address space are as before.
pub vmm_new_user_aspace-SpaceOpened :
    (home : ℕ → Option TablePlace) (s : Vm) (master : ℕ)
    → IsTree home s
    → covers master s.pmm ≡ 0
    → (vmm_new_user_aspace master s ≡ none)
      ⊎ ((s' : Vm) × (root : ℕ) × (vmm_new_user_aspace master s ≡ some (s', root))
          × SpaceOpened home s master root s')
unfolding vmm_new_user_aspace new_table open_root
vmm_new_user_aspace-SpaceOpened home s master tree c =
    elim (Bool-cases ((pmm_alloc_order 0 s.pmm).1 == 0)) [
      | inl z ↦ inl (rw (z, new_table) refl)
      | inr z ↦
          let t = (pmm_alloc_order 0 s.pmm).1 in
          let q = (pmm_alloc_order 0 s.pmm).0 in
          let fresh = alloc-IsFresh s tree.valid (ground arith) in
          inr (
            open_root t master q s,
            t,
            rw (z, new_table) refl,
            open-SpaceOpened home s master t q tree fresh c (free_unplaced home s t tree fresh.was),
          )
    ]
