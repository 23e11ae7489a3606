-- ===== src/Pmm/Amounts.antt =====
-- What the free lists hold together: the sum, over all free blocks, of a value `v o x` of the block at
-- `x` of order `o`.
use lnxrm.Base.{
  ℕ, zero, suc, ◌+◌, min, ◌≤◌, ◌<◌, ◌≡◌, true, List, [], ◌∷◌, update, inl, inr, ap, arith, ◌∙◌,
  refl, ◌==◌, if◌then◌else◌, ==_iff, Bool-cases, ltb, leb, ◌&&◌, ◌^◌,
}
use lnxrm.Pmm.Blocks.{size_next, size_pos, pow_next, Aligned, Aligned-lower, buddy_of-cases}
use lnxrm.Base.Links.{has, unlink}
use lnxrm.Pmm.{
  Range, blank_window, size, max_order, Pmm, push, withdraw, buddy_of, bit_set, bit_clr,
}

module _ (v : ℕ → ℕ → ℕ) where
  abbrev pub weigh : ℕ → List ℕ → ℕ
  weigh o [] = 0
  weigh o (x ∷ q) = v o x + weigh o q

  abbrev pub total : ℕ → (ℕ → List ℕ) → ℕ
  total zero free = 0
  total (suc n) free = total n free + weigh n (free n)

  pub amount : Pmm → ℕ
  amount s = total max_order s.free

  total-update_out :
      (n o : ℕ) (free : ℕ → List ℕ) (q : List ℕ) → n ≤ o → total n (update free o q) ≡ total n free
  total-update_out zero o free q h = refl
  total-update_out (suc n) o free q h = ground (arith, total-update_out n o free q)

  total-update :
      (n o : ℕ) (free : ℕ → List ℕ) (q : List ℕ)
      → o < n
      → total n (update free o q) + weigh o (free o) ≡ total n free + weigh o q
  total-update zero o free q h = elim h [ ]
  total-update (suc n) o free q h = elim (Bool-cases (o == n)) [
    | inl e ↦
        let same : o ≡ n = (==_iff o n).0 e in
        let rest = total-update_out n o free q (omega arith) in rw (e, rest, same) (omega arith)
    | inr e ↦ rw e (omega (arith, total-update n o free q (ground arith)))
  ]

  weigh-le-total : (n o : ℕ) (free : ℕ → List ℕ) → o < n → weigh o (free o) ≤ total n free
  weigh-le-total zero o free h = elim h [ ]
  weigh-le-total (suc n) o free h = elim (Bool-cases (o == n)) [
    | inl e ↦ let same : o ≡ n = (==_iff o n).0 e in rw same (omega arith)
    | inr e ↦ omega (arith, weigh-le-total n o free (ground arith))
  ]

  pub weigh-le-amount : (o : ℕ) (s : Pmm) → o < max_order → weigh o (s.free o) ≤ amount s
  unfolding amount
  weigh-le-amount o s h = weigh-le-total max_order o s.free h

  pub weigh-unlink :
      (o x : ℕ) (q : List ℕ) → has x q ≡ true → weigh o (unlink x q) + v o x ≡ weigh o q
  unfolding unlink
  weigh-unlink o x [] h = ground arith
  weigh-unlink o x (y ∷ q) h = elim (Bool-cases (y == x)) [
    | inl e ↦ let same : y ≡ x = (==_iff y x).0 e in rw (e, same) (omega arith)
    | inr e ↦ rw e (omega (arith, weigh-unlink o x q (ground arith)))
  ]

  pub weigh-has : (o x : ℕ) (q : List ℕ) → has x q ≡ true → v o x ≤ weigh o q
  weigh-has o x q h = omega (arith, weigh-unlink o x q h)

  pub amount-push : (o x : ℕ) (s : Pmm) → o < max_order → amount (push o x s) ≡ amount s + v o x
  unfolding push bit_set amount
  amount-push o x s h = omega (arith, total-update max_order o s.free (x ∷ s.free o) h)

  pub amount-withdraw :
      (o x : ℕ) (q : List ℕ) (s : Pmm)
      → o < max_order
      → weigh o q + v o x ≡ weigh o (s.free o)
      → amount (withdraw o x q s) + v o x ≡ amount s
  unfolding withdraw bit_clr amount
  amount-withdraw o x q s h e = omega (arith, total-update max_order o s.free q h)

  -- The counter of free pages is no part of the lists.
  pub amount-recount : (n : ℕ) (s : Pmm) → amount (record s { free_pg = n }) ≡ amount s
  unfolding amount
  amount-recount n s = refl

  pub amount-retotal : (n : ℕ) (s : Pmm) → amount (record s { total_pg = n }) ≡ amount s
  unfolding amount
  amount-retotal n s = refl

  pub amount-blank_window :
      (base top : ℕ) (rs : List Range) (n : ℕ) → amount (blank_window base top rs n) ≡ 0
  unfolding amount
  amount-blank_window base top rs n = refl

-- A block covers the addresses from its start on.
abbrev pub inside : ℕ → ℕ → ℕ → ℕ
inside f o x = if leb x f && ltb f (x + size o) then 1 else 0

-- The number of free blocks that cover an address.
abbrev pub covers : ℕ → Pmm → ℕ
covers f s = amount (inside f) s

-- The number of free pages.
abbrev pub pages : ℕ → ℕ → ℕ
pages o x = 2 ^ o

-- A value of blocks that is the sum of the values of the two halves.
abbrev pub Halves : (ℕ → ℕ → ℕ) → Type 0
Halves v = (o x : ℕ) → v (o + 1) x ≡ v o x + v o (x + size o)

pub inside-Halves : (f : ℕ) → Halves (inside f)
inside-Halves f o x = ground (arith, size_next o, size_pos o)

pub pages-Halves : Halves pages
pages-Halves o x = ap (λ n. 2 ^ n) {y = suc o} (omega arith) ∙ pow_next o

-- A block and its buddy are the halves of the block of twice the size at the lower one of them.
pub merged :
    (v : ℕ → ℕ → ℕ) (o x : ℕ)
    → Halves v
    → Aligned o x
    → v (o + 1) (min x (buddy_of x o)) ≡ v o x + v o (buddy_of x o)
merged v o x h a = elim (buddy_of-cases o x a) [
  | inl e ↦ let low : min x (buddy_of x o) ≡ x = omega (arith, e.0) in rw (low, e.0) (h o x)
  | inr e ↦
      let low : min x (buddy_of x o) ≡ buddy_of x o = omega (arith, e.0) in
      rw low (h o _ ∙ omega (arith, ap (v o) e.0))
]

pub merged-Aligned :
    (o x : ℕ) → Aligned o x → Aligned o (buddy_of x o) × Aligned (o + 1) (min x (buddy_of x o))
merged-Aligned o x a = elim (buddy_of-cases o x a) [
  | inl e ↦
      let low : min x (buddy_of x o) ≡ x = omega (arith, e.0) in
      (rw e.0 (Aligned-lower o x e.1).1, rw low e.1)
  | inr e ↦
      let low : min x (buddy_of x o) ≡ buddy_of x o = omega (arith, e.0) in
      ((Aligned-lower o _ e.1).0, rw low e.1)
]

pub merged-end :
    (o x top : ℕ)
    → Aligned o x
    → x + size o ≤ top
    → buddy_of x o + size o ≤ top
    → min x (buddy_of x o) + size (o + 1) ≤ top
merged-end o x top a h g = elim (buddy_of-cases o x a) [
  | inl e ↦ omega (arith, e.0, size_next o)
  | inr e ↦ omega (arith, e.0, size_next o)
]
