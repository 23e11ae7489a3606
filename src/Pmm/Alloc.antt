-- ===== src/Pmm/Alloc.antt =====
-- The search for a free block, and the split of the block that is found.
use lnxrm.Base.{
  ℕ, zero, suc, ◌+◌, ◌-◌, ◌^◌, ◌≤◌, ◌<◌, ◌≡◌, ◌⊎◌, true, false, inl, inr, ap, subst, sym, arith,
  ◌∙◌, refl, Bool-cases, ltb, ltb→lt, ◌≢◌, Option-cases, none, some, List, [], ◌∷◌, length, ◌==◌,
}
use lnxrm.Base.Links.{has, unlink}
use lnxrm.Pmm.{
  size, max_order, Pmm, push, withdraw, bit_set, bit_clr, find_order, split, take_block,
  pmm_alloc_order,
}
use lnxrm.Pmm.Blocks.{Aligned-lower, size_next}
use lnxrm.Pmm.Amounts.{
  weigh, amount, inside, covers, Halves, inside-Halves, amount-push, amount-withdraw,
  amount-recount, weigh-unlink,
}
use lnxrm.Pmm.Valid.{IsValid, IsBlock, push-IsValid, withdraw-IsValid, recount-IsValid}

split-amount :
    (v : ℕ → ℕ → ℕ) (n order x : ℕ) (s : Pmm)
    → Halves v
    → order + n < max_order
    → amount v (split n order x s) + v order x ≡ amount v s + v (order + n) x
unfolding split
split-amount v zero order x s l h = ap (λ o. amount v s + v o x) (omega arith)
split-amount v (suc n) order x s l h =
    let o = order + n in
    let up : v (order + suc n) x ≡ v (o + 1) x = ap (λ k. v k x) (omega arith) in
    omega (
      arith,
      split-amount v n order x (push o (x + size o) s) l (omega arith),
      amount-push v o (x + size o) s (omega arith),
      l o x,
    )

split-IsValid :
    (n order x : ℕ) (s : Pmm)
    → order + n < max_order
    → IsBlock (order + n) x s
    → ((f : ℕ) → covers f s + inside f (order + n) x ≤ 1)
    → IsValid s
    → IsValid (split n order x s) × IsBlock order x s
unfolding split push bit_set
split-IsValid zero order x s h b fresh i = (i, subst (λ k. IsBlock k x s) (omega arith) b)
split-IsValid (suc n) order x s h b fresh i =
    let o = order + n in
    let up : order + suc n ≡ o + 1 = omega arith in
    let whole : IsBlock (o + 1) x s = subst (λ k. IsBlock k x s) up b in
    let halves : (f : ℕ) → inside f (order + suc n) x ≡ inside f o x + inside f o (x + size o) =
      λ f. ap (λ k. inside f k x) up ∙ inside-Halves f o x in
    let half : IsBlock o (x + size o) s = (
      (Aligned-lower o x whole.0).1,
      omega (arith, whole.1),
      omega (arith, whole.2, size_next o),
    ) in
    let lower : IsBlock o x s =
      ((Aligned-lower o x whole.0).0, whole.1, omega (arith, whole.2, size_next o)) in
    split-IsValid n order x _ (omega arith) lower
      (λ f. omega (arith, amount-push (inside f) o (x + size o) s (omega arith), fresh f, halves f))
      (push-IsValid o (x + size o) s (omega arith) half (λ f. omega (arith, fresh f, halves f)) i)

find_order-some :
    (n o p : ℕ) (free : ℕ → List ℕ)
    → find_order n o free ≡ some p
    → (o ≤ p) × (p < o + n) × ((length (free p) == 0) ≡ false)
unfolding find_order
find_order-some zero o p free h = ground arith
find_order-some (suc n) o p free h = elim (Bool-cases (length (free o) == 0)) [
  | inl e ↦
      let r = find_order-some n (o + 1) p free (sym (rw (e, find_order) refl) ∙ h) in
      (omega (arith, r.0), omega (arith, r.1), r.2)
  | inr e ↦
      let found : some o ≡ some p = sym (rw (e, find_order) refl) ∙ h in
      let same : o ≡ p = cc in (omega arith, omega arith, rw (sym same) e)
]

find_order-none :
    (n o q : ℕ) (free : ℕ → List ℕ)
    → find_order n o free ≡ none
    → o ≤ q
    → q < o + n
    → length (free q) ≡ 0
unfolding find_order
find_order-none zero o q free h a b = absurd (omega arith)
find_order-none (suc n) o q free h a b = elim (Bool-cases (length (free o) == 0)) [
  | inl e ↦ elim (Bool-cases (o == q)) [
    | inl s ↦ ground arith
    | inr s ↦
        find_order-none n (o + 1) q free (sym (rw (e, find_order) refl) ∙ h) (ground arith)
          (omega arith)
  ]
  | inr e ↦ ground arith
]

unlink_head : (x : ℕ) (q : List ℕ) → unlink x (x ∷ q) ≡ q
unfolding unlink
unlink_head x q = ground arith

has_head : (x : ℕ) (q : List ℕ) → has x (x ∷ q) ≡ true
has_head x q = ground arith

-- The head of a list is taken.
module _ (order o x : ℕ) (q : List ℕ) (s : Pmm) (b : o < max_order) (h : order ≤ o)
    (l : s.free o ≡ x ∷ q) (i : IsValid s) where
  listed : has x (s.free o) ≡ true
  listed = rw l (has_head x q)

  rest : unlink x (s.free o) ≡ q
  rest = rw l (unlink_head x q)

  level : order + (o - order) ≡ o
  level = omega arith

  took : IsValid (withdraw o x q s)
  took = subst (λ k. IsValid (withdraw o x k s)) rest (withdraw-IsValid o x s b listed i)

  took-amount : (v : ℕ → ℕ → ℕ) → amount v (withdraw o x q s) + v o x ≡ amount v s
  took-amount v =
      amount-withdraw v o x q s b
        (ap (λ k. weigh v o k + v o x) (sym rest) ∙ weigh-unlink v o x _ listed)

  whole : IsBlock (order + (o - order)) x (withdraw o x q s)
  unfolding withdraw bit_clr
  whole = subst (λ k. IsBlock k x s) (sym level) (i.within o x b listed)

  parts : IsValid (split (o - order) order x (withdraw o x q s)) × IsBlock order x s
  unfolding withdraw bit_clr
  parts =
      split-IsValid (o - order) order x _ (omega arith) whole
        (λ f. omega (arith, took-amount (inside f), ap (λ k. inside f k x) level, i.once f)) took

  parts-amount :
      (v : ℕ → ℕ → ℕ)
      → Halves v
      → amount v (split (o - order) order x (withdraw o x q s)) + v order x ≡ amount v s
  parts-amount v halves = omega (
    arith,
    split-amount v (o - order) order x (withdraw o x q s) halves (omega arith),
    took-amount v,
    ap (λ k. v k x) level,
  )

-- What an allocation that finds a block leaves.
pub record Allocated (order : ℕ) (s s' : Pmm) (a : ℕ) : Type 0 where
  pub valid : IsValid s'
  pub block : IsBlock order a s
  pub taken : (v : ℕ → ℕ → ℕ) → Halves v → amount v s' + v order a ≡ amount v s
  pub counter : s'.free_pg ≡ s.free_pg - 2 ^ order
  pub window : (s'.base_addr ≡ s.base_addr) × (s'.top_addr ≡ s.top_addr)

split_window :
    (n order x : ℕ) (s : Pmm)
    → ((split n order x s).base_addr ≡ s.base_addr) × ((split n order x s).top_addr ≡ s.top_addr)
unfolding split push bit_set
split_window zero order x s = (refl, refl)
split_window (suc n) order x s = split_window n order x _

take_block-Allocated :
    (order o : ℕ) (q : List ℕ) (s : Pmm)
    → o < max_order
    → order ≤ o
    → s.free o ≡ q
    → (length q == 0) ≡ false
    → IsValid s
    → Allocated order s (take_block order o q s).0 (take_block order o q s).1
unfolding take_block withdraw bit_clr
take_block-Allocated order o [] s b h l e i = ground arith
take_block-Allocated order o (x ∷ q) s b h l e i = record {
  valid = recount-IsValid _ _ (parts order o x q s b h l i).0;
  block = (parts order o x q s b h l i).1;
  taken = λ v w. omega (arith, amount-recount v _ _, parts-amount order o x q s b h l i v w);
  counter = refl;
  window = split_window (o - order) order x _;
}

-- The result 0 and an unchanged state, if no list of the order or above holds a block.
abbrev pub Refused : ℕ → Pmm → Type 0
Refused order s =
    (pmm_alloc_order order s ≡ (s, 0))
    × ((q : ℕ) → order ≤ q → q < max_order → length (s.free q) ≡ 0)

pub pmm_alloc_order-cases :
    (order : ℕ) (s : Pmm)
    → IsValid s
    → Allocated order s (pmm_alloc_order order s).0 (pmm_alloc_order order s).1 ⊎ Refused order s
unfolding pmm_alloc_order
pmm_alloc_order-cases order s i =
    elim (Option-cases (find_order (max_order - order) order s.free)) [
      | inl e ↦ inr (
        rw (e, pmm_alloc_order) refl,
        λ q h b. find_order-none (max_order - order) order q s.free e h (omega arith),
      )
      | inr (o, e) ↦
          let f = find_order-some (max_order - order) order o s.free e in
          inl (
            rw (e, pmm_alloc_order)
              (take_block-Allocated order o _ s (omega (arith, f.0, f.1)) f.0 refl f.2 i))
    ]

-- No block of an order above 10 is ever handed out.
pub pmm_alloc_order_small :
    (order : ℕ) (s : Pmm) → (pmm_alloc_order order s).1 ≢ 0 → order < max_order
unfolding pmm_alloc_order find_order
pmm_alloc_order_small order s n = elim (Bool-cases (ltb order max_order)) [
  | inl e ↦ ltb→lt order max_order e
  | inr e ↦
      let none_left : max_order - order ≡ 0 = ground arith in
      let run : pmm_alloc_order order s ≡ (s, 0) = rw (none_left, pmm_alloc_order) refl in
      absurd (n (ap (λ k. k.1) run))
]
