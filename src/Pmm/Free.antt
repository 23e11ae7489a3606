-- ===== src/Pmm/Free.antt =====
-- A freed block is coalesced with its free buddies.
use lnxrm.Base.{
  ℕ, zero, suc, ◌+◌, ◌-◌, min, ◌≤◌, ◌<◌, ◌≡◌, true, inl, inr, sym, arith, ◌∙◌, refl, Bool-cases,
}
use lnxrm.Base.Links.{has, unlink}
use lnxrm.Pmm.{
  max_order, Pmm, push, withdraw, bit_set, bit_clr, bit_get, buddy_of, merges, coalesce,
  pmm_free_order,
}
use lnxrm.Pmm.Amounts.{
  amount, inside, covers, pages, Halves, inside-Halves, pages-Halves, amount-push, amount-withdraw,
  amount-recount, weigh-unlink, merged, merged-Aligned, merged-end,
}
use lnxrm.Pmm.Valid.{IsValid, IsBlock, push-IsValid, withdraw-IsValid, recount-IsValid}

-- A buddy that merges is on the list of its order.
merges-has :
    (o x : ℕ) (s : Pmm)
    → o < max_order
    → IsBlock o x s
    → IsValid s
    → merges o (buddy_of x o) s ≡ true
    → has (buddy_of x o) (s.free o) ≡ true
unfolding merges
merges-has o x s h b v e =
    let near : (s.base_addr ≤ buddy_of x o) × (buddy_of x o < s.top_addr) = ground arith in
    let set : bit_get o (buddy_of x o) s ≡ true = ground arith in
    sym (v.agrees o _ h (merged-Aligned o x b.0).0 near.0 near.1) ∙ set

-- The free buddy is taken off its list.
merge : ℕ → ℕ → Pmm → Pmm
merge o x s = withdraw o (buddy_of x o) (unlink (buddy_of x o) (s.free o)) s

merge-amount :
    (v : ℕ → ℕ → ℕ) (o x : ℕ) (s : Pmm)
    → Halves v
    → o < max_order
    → IsBlock o x s
    → IsValid s
    → merges o (buddy_of x o) s ≡ true
    → amount v (merge o x s) + v (o + 1) (min x (buddy_of x o)) ≡ amount v s + v o x
unfolding merge
merge-amount v o x s l h b i e =
    let listed = merges-has o x s h b i e in
    omega (arith, merged v o x l b.0, amount-withdraw v o _ _ s h (weigh-unlink v o _ _ listed))

-- The block and its buddy make a block of the next order that is not free.
merge_step :
    (o x : ℕ) (s : Pmm)
    → o < max_order
    → IsBlock o x s
    → ((f : ℕ) → covers f s + inside f o x ≤ 1)
    → IsValid s
    → merges o (buddy_of x o) s ≡ true
    → IsValid (merge o x s)
      × IsBlock (o + 1) (min x (buddy_of x o)) (merge o x s)
      × ((f : ℕ) → covers f (merge o x s) + inside f (o + 1) (min x (buddy_of x o)) ≤ 1)
unfolding merge withdraw bit_clr
merge_step o x s h b fresh i e =
    let listed = merges-has o x s h b i e in
    let other : IsBlock o (buddy_of x o) s = i.within o _ h listed in
    (
      withdraw-IsValid o _ s h listed i,
      (
        (merged-Aligned o x b.0).1,
        omega (arith, b.1, other.1),
        merged-end o x s.top_addr b.0 b.2 other.2,
      ),
      λ f. omega (arith, merge-amount (inside f) o x s (inside-Halves f) h b i e, fresh f),
    )

coalesce-amount :
    (v : ℕ → ℕ → ℕ) (n o x : ℕ) (s : Pmm)
    → Halves v
    → n + o ≡ 10
    → IsBlock o x s
    → ((f : ℕ) → covers f s + inside f o x ≤ 1)
    → IsValid s
    → amount v (coalesce n o x s) ≡ amount v s + v o x
unfolding coalesce merge
coalesce-amount v zero o x s l h b fresh i = amount-push v o x s (omega arith)
coalesce-amount v (suc n) o x s l h b fresh i = elim (Bool-cases (merges o (buddy_of x o) s)) [
  | inl e ↦
      let m = merge_step o x s (omega arith) b fresh i e in
      rw (e, coalesce)
        (coalesce-amount v n (o + 1) _ _ l (omega arith) m.1 m.2 m.0
          ∙ merge-amount v o x s l (omega arith) b i e)
  | inr e ↦ rw (e, coalesce) (amount-push v o x s (omega arith))
]

coalesce-IsValid :
    (n o x : ℕ) (s : Pmm)
    → n + o ≡ 10
    → IsBlock o x s
    → ((f : ℕ) → covers f s + inside f o x ≤ 1)
    → IsValid s
    → IsValid (coalesce n o x s)
unfolding coalesce merge
coalesce-IsValid zero o x s h b fresh i = push-IsValid o x s (omega arith) b fresh i
coalesce-IsValid (suc n) o x s h b fresh i = elim (Bool-cases (merges o (buddy_of x o) s)) [
  | inl e ↦
      let m = merge_step o x s (omega arith) b fresh i e in
      rw (e, coalesce) (coalesce-IsValid n (o + 1) _ _ (omega arith) m.1 m.2 m.0)
  | inr e ↦ rw (e, coalesce) (push-IsValid o x s (omega arith) b fresh i)
]

coalesce_kept :
    (n o x : ℕ) (s : Pmm)
    → ((coalesce n o x s).free_pg ≡ s.free_pg)
      × ((coalesce n o x s).base_addr ≡ s.base_addr)
      × ((coalesce n o x s).top_addr ≡ s.top_addr)
      × ((coalesce n o x s).resv ≡ s.resv)
unfolding coalesce merge withdraw bit_clr push bit_set
coalesce_kept zero o x s = (refl, refl, refl, refl)
coalesce_kept (suc n) o x s = elim (Bool-cases (merges o (buddy_of x o) s)) [
  | inl e ↦ rw (e, coalesce) (coalesce_kept n (o + 1) _ (merge o x s))
  | inr e ↦ rw (e, coalesce) (refl, refl, refl, refl)
]

-- Freeing a block of an order below 11 that is aligned, lies in the managed window and shares no
-- address with a free block keeps the allocator's invariant: every free block is aligned and in the
-- window, the bitmaps agree with the lists, and no address lies in two free blocks.
pub pmm_free_order-IsValid :
    (pa order : ℕ) (s : Pmm)
    → order < max_order
    → IsBlock order pa s
    → ((f : ℕ) → covers f s + inside f order pa ≤ 1)
    → IsValid s
    → IsValid (pmm_free_order pa order s)
unfolding pmm_free_order
pmm_free_order-IsValid pa order s h b fresh v =
    recount-IsValid _ _ (coalesce-IsValid (10 - order) order pa s (omega arith) b fresh v)

free-amount :
    (v : ℕ → ℕ → ℕ) (pa order : ℕ) (s : Pmm)
    → Halves v
    → order < max_order
    → IsBlock order pa s
    → ((f : ℕ) → covers f s + inside f order pa ≤ 1)
    → IsValid s
    → amount v (pmm_free_order pa order s) ≡ amount v s + v order pa
unfolding pmm_free_order
free-amount v pa order s l h b fresh i =
    amount-recount v _ _ ∙ coalesce-amount v (10 - order) order pa s l (omega arith) b fresh i

-- Under the same conditions the free addresses afterwards are exactly those that were free and those of
-- the freed block, however far it was coalesced.
pub pmm_free_order-covers :
    (f pa order : ℕ) (s : Pmm)
    → order < max_order
    → IsBlock order pa s
    → ((f : ℕ) → covers f s + inside f order pa ≤ 1)
    → IsValid s
    → covers f (pmm_free_order pa order s) ≡ covers f s + inside f order pa
pmm_free_order-covers f pa order s h b fresh i =
    free-amount (inside f) pa order s (inside-Halves f) h b fresh i

-- `free_pg` counts the pages of the blocks on the free lists.
abbrev pub IsCounted : Pmm → Type 0
IsCounted s = amount pages s ≡ s.free_pg

pub pmm_free_order-IsCounted :
    (pa order : ℕ) (s : Pmm)
    → order < max_order
    → IsBlock order pa s
    → ((f : ℕ) → covers f s + inside f order pa ≤ 1)
    → IsValid s
    → IsCounted s
    → IsCounted (pmm_free_order pa order s)
unfolding pmm_free_order
pmm_free_order-IsCounted pa order s h b fresh i c = omega (
  arith,
  free-amount pages pa order s pages-Halves h b fresh i,
  (coalesce_kept (10 - order) order pa s).0,
)

pub pmm_free_order_window :
    (pa order : ℕ) (s : Pmm)
    → ((pmm_free_order pa order s).base_addr ≡ s.base_addr)
      × ((pmm_free_order pa order s).top_addr ≡ s.top_addr)
unfolding pmm_free_order
pmm_free_order_window pa order s = let k = coalesce_kept (10 - order) order pa s in (k.1, k.2)

pub pmm_free_order_resv : (pa order : ℕ) (s : Pmm) → (pmm_free_order pa order s).resv ≡ s.resv
unfolding pmm_free_order
pmm_free_order_resv pa order s = (coalesce_kept (10 - order) order pa s).3
