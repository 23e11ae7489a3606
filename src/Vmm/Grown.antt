-- ===== src/Vmm/Grown.antt =====
-- BrkGrowth of the trees of tables.
use lnxrm.Base.{
  ℕ, ◌+◌, ◌%◌, ◌≤◌, ◌<◌, ◌≡◌, ◌≢◌, zero, suc, true, refl, ap, sym, arith, inl, inr, Bool-cases, ◌∙◌,
  Option, some,
}
use lnxrm.Pmm.{Pmm, pmm_alloc_order}
use lnxrm.Pmm.Amounts.{covers, inside}
use lnxrm.Pmm.Valid.{IsValid, inside_start}
use lnxrm.Pmm.Frames.{pmm_alloc_order-IsValid, pmm_alloc_order-covers, pmm_alloc_order_window}
use lnxrm.Pmm.Seed.Cover.{Aligned-page}
use lnxrm.Vmm.{Vm, present, large, frame, i1}
use lnxrm.Vmm.Tree.{IsUser, TablePlace, place, pre, idx, IsTree, descend, next_place}

-- From `s` to `s'` tables were added: places and the entries that were present stay, and no address of
-- any address space is translated otherwise.
pub record Grown (home : ℕ → Option TablePlace) (s : Vm) (home' : ℕ → Option TablePlace) (s' : Vm)
    : Type 0 where
  pub tree : IsTree home' s'
  pub homes : (a : ℕ) (q : TablePlace) → home a ≡ some q → home' a ≡ some q
  pub kept :
      (a i : ℕ) (q : TablePlace)
      → home a ≡ some q
      → present (s.words a i) ≡ true
      → s'.words a i ≡ s.words a i
  pub leaves :
      (l a r va : ℕ)
      → l < 4
      → IsUser va
      → home a ≡ some (place r l (pre l va))
      → descend l a va s' ≡ descend l a va s

pub Grown-same : (home : ℕ → Option TablePlace) (s : Vm) → IsTree home s → Grown home s home s
Grown-same home s t = record {
  tree = t;
  homes = λ a q h. h;
  kept = λ a i q h e. refl;
  leaves = λ l a r va b u h. refl;
}

pub Grown-then :
    (h₀ h₁ h₂ : ℕ → Option TablePlace) (s₀ s₁ s₂ : Vm)
    → Grown h₀ s₀ h₁ s₁
    → Grown h₁ s₁ h₂ s₂
    → Grown h₀ s₀ h₂ s₂
Grown-then h₀ h₁ h₂ s₀ s₁ s₂ g k = record {
  tree = k.tree;
  homes = λ a q h. k.homes a q (g.homes a q h);
  kept = λ a i q h e.
      let once = g.kept a i q h e in k.kept a i q (g.homes a q h) (ap present once ∙ e) ∙ once;
  leaves = λ l a r va b u h. k.leaves l a r va b u (g.homes a _ h) ∙ g.leaves l a r va b u h;
}

-- A frame taken for a table.
pub record IsFresh (s : Vm) (q : Pmm) (t : ℕ) : Type 0 where
  pub valid : IsValid q
  pub based : q.base_addr ≡ s.pmm.base_addr
  pub less : (f : ℕ) → covers f q ≤ covers f s.pmm
  pub was : covers t s.pmm ≡ 1
  pub gone : covers t q ≡ 0
  pub aligned : t % 4096 ≡ 0

pub alloc-IsFresh :
    (s : Vm)
    → IsValid s.pmm
    → (pmm_alloc_order 0 s.pmm).1 ≢ 0
    → IsFresh s (pmm_alloc_order 0 s.pmm).0 (pmm_alloc_order 0 s.pmm).1
alloc-IsFresh s v n =
    let t = (pmm_alloc_order 0 s.pmm).1 in
    let moved : (f : ℕ) → covers f (pmm_alloc_order 0 s.pmm).0 + inside f 0 t ≡ covers f s.pmm =
      λ f. (pmm_alloc_order-covers f 0 s.pmm v n).1 in
    let here = inside_start 0 t in
    record {
      valid = pmm_alloc_order-IsValid 0 s.pmm v;
      based = (pmm_alloc_order_window 0 s.pmm v).0;
      less = λ f. omega (arith, moved f);
      was = omega (arith, moved t, here, v.once t);
      gone = omega (arith, moved t, here, v.once t);
      aligned = Aligned-page 0 t (pmm_alloc_order-covers 0 0 s.pmm v n).0.0;
    }

-- A step that writes no table and gives no frame back changes no translation.
module _ (home : ℕ → Option TablePlace) (s s' : Vm) (tree : IsTree home s) (valid : IsValid s'.pmm)
    (based : s'.pmm.base_addr ≡ s.pmm.base_addr) (less : (f : ℕ) → covers f s'.pmm ≤ covers f s.pmm)
    (same : (x j : ℕ) (y : TablePlace) → home x ≡ some y → s'.words x j ≡ s.words x j) where
  untouched-IsTree : IsTree home s'
  untouched-IsTree = record {
    valid = valid;
    based = omega (arith, based, tree.based);
    used = λ x y e. omega (arith, less x, tree.used x y e);
    edge = λ x j r l p e c g.
        let word = same x j _ e in
        let at = tree.edge x j r l p e c (sym (ap present word) ∙ g) in
        (ap (λ w. home (frame w)) word ∙ at.0, ap large word ∙ at.1);
  }

  untouched_below :
      (m x r va : ℕ)
      → m < 4
      → IsUser va
      → home x ≡ some (place r m (pre m va))
      → descend m x va s' ≡ descend m x va s
  unfolding descend
  untouched_below zero x r va c u e = same x (i1 va) _ e
  untouched_below (suc m) x r va c u e =
      let word = same x (idx (suc m) va) _ e in
      elim (Bool-cases (present (s.words x (idx (suc m) va)))) [
        | inl g ↦
            rw (word, g)
              (untouched_below m _ r va (omega arith) u
                (next_place home s x r m va tree u (omega arith) e g))
        | inr g ↦ rw (word, g) refl
      ]

  pub untouched-Grown : Grown home s home s'
  untouched-Grown = record {
    tree = untouched-IsTree;
    homes = λ x y e. e;
    kept = λ x j y e g. same x j y e;
    leaves = untouched_below;
  }
