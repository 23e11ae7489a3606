-- ===== src/Pmm/Seed/Cover.antt =====
-- The order of the next block, and the addresses that are to be free.
use lnxrm.Base.{
  ℕ, zero, suc, ◌+◌, ◌*◌, ◌/◌, ◌%◌, ◌≤◌, ◌<◌, ◌≡◌, inl, inr, ap, subst, arith, ◌∙◌, refl, true,
  false, not, ◌&&◌, List, [], ◌∷◌, ltb, leb, ◌==◌, if◌then◌else◌, Bool-cases, ==_iff,
}
use native.Mathlib.Nat.{div-add-mod'}
use lnxrm.Pmm.{size, Range, resv_hits}
use lnxrm.Pmm.Blocks.{Aligned, Aligned-lower, size_pos, size_next}
use lnxrm.Pmm.Amounts.{inside}
use lnxrm.Pmm.Seed.{fit, shrink}

pub size_zero : size 0 ≡ 4096
unfolding size
size_zero = refl

pub Aligned-page : (o x : ℕ) → Aligned o x → x % 4096 ≡ 0
Aligned-page zero x (k, e) = let e' : x ≡ k * 4096 = e ∙ ap (λ n. k * n) size_zero in omega arith
Aligned-page (suc o) x a =
    Aligned-page o x (Aligned-lower o x (subst (λ n. Aligned n x) (omega arith) a)).0

pub Aligned-next : (o x : ℕ) → Aligned o x → Aligned o (x + size o)
Aligned-next o x (k, e) = (k + 1, rw e (grind arith))

Aligned-of-mod : (o x : ℕ) → (x % size o == 0) ≡ true → Aligned o x
Aligned-of-mod o x h =
    let z : x % size o ≡ 0 = (==_iff _ _).0 h in
    (x / size o, omega (arith, div-add-mod' x (size o)))

-- A block from `cur` on that ends at or below `top`.
abbrev pub Fits : ℕ → ℕ → ℕ → Type 0
Fits o cur top = Aligned o cur × (cur + size o ≤ top)

pub fit_lem :
    (n o cur top : ℕ) → Fits o cur top → (fit n o cur top ≤ n + o) × Fits (fit n o cur top) cur top
unfolding fit
fit_lem zero o cur top h = (omega arith, h)
fit_lem (suc n) o cur top h =
    elim (Bool-cases (cur % size (o + 1) == 0 && leb (cur + size (o + 1)) top)) [
      | inl e ↦
          let r =
            fit_lem n (o + 1) cur top (Aligned-of-mod (o + 1) cur (ground arith), ground arith) in
          rw (e, fit) (omega (arith, r.0), r.1)
      | inr e ↦ rw (e, fit) (omega arith, h)
    ]

pub shrink_lem :
    (o cur top : ℕ) (rs : List Range)
    → Fits o cur top
    → (shrink o cur rs ≤ o)
      × Fits (shrink o cur rs) cur top
      × (resv_hits cur 4096 rs ≡ false → resv_hits cur (size (shrink o cur rs)) rs ≡ false)
unfolding shrink
shrink_lem zero cur top rs h = (omega arith, h, λ e. ap (λ n. resv_hits cur n rs) size_zero ∙ e)
shrink_lem (suc o) cur top rs h = elim (Bool-cases (resv_hits cur (size (suc o)) rs)) [
  | inl e ↦
      let a = Aligned-lower o cur (subst (λ n. Aligned n cur) (omega arith) h.0) in
      let up : size (suc o) ≡ size (o + 1) = ap size (omega arith) in
      let r = shrink_lem o cur top rs (a.0, omega (arith, h.1, up, size_next o)) in
      rw (e, shrink) (omega (arith, r.0), r.1, r.2)
  | inr e ↦ rw (e, shrink) (omega arith, h, λ _. e)
]

-- A part of what misses every reserved range misses them too.
resv_hits_part :
    (p m pa n : ℕ) (rs : List Range)
    → pa ≤ p
    → p + m ≤ pa + n
    → resv_hits pa n rs ≡ false
    → resv_hits p m rs ≡ false
unfolding resv_hits
resv_hits_part p m pa n [] a b h = refl
resv_hits_part p m pa n (r ∷ rs) a b h = ground (arith, resv_hits_part p m pa n rs a b)

-- The page of an address.
abbrev pub page_of : ℕ → ℕ
page_of f = f / 4096 * 4096

-- 1 for an address from `cur` to the top whose page misses every reserved range, and 0 for any other.
abbrev pub available : ℕ → ℕ → List Range → ℕ → ℕ
available cur top rs f =
    if leb cur f && ltb f top && not (resv_hits (page_of f) 4096 rs) then 1 else 0

pub available-skip :
    (cur top : ℕ) (rs : List Range) (f : ℕ)
    → cur % 4096 ≡ 0
    → resv_hits cur 4096 rs ≡ true
    → available cur top rs f ≡ available (cur + 4096) top rs f
available-skip cur top rs f a h = elim (Bool-cases (leb cur f && ltb f (cur + 4096))) [
  | inl e ↦
      let here : page_of f ≡ cur = ground arith in
      let hit : resv_hits (page_of f) 4096 rs ≡ true = ap (λ p. resv_hits p 4096 rs) here ∙ h in
      rw hit (ground arith)
  | inr e ↦ ground arith
]

pub available-block :
    (o cur top : ℕ) (rs : List Range) (f : ℕ)
    → Fits o cur top
    → resv_hits cur (size o) rs ≡ false
    → available cur top rs f ≡ inside f o cur + available (cur + size o) top rs f
available-block o cur top rs f h m = elim (Bool-cases (leb cur f && ltb f (cur + size o))) [
  | inl e ↦
      let from : cur % 4096 ≡ 0 = Aligned-page o cur h.0 in
      let to : (cur + size o) % 4096 ≡ 0 = Aligned-page o _ (Aligned-next o cur h.0) in
      let lo : cur ≤ f = ground arith in
      let hi : f < cur + size o = ground arith in
      let clear : resv_hits (page_of f) 4096 rs ≡ false =
        resv_hits_part (page_of f) 4096 cur (size o) rs (omega arith) (omega arith) m in
      rw clear (ground (arith, h.1))
  | inr e ↦ ground (arith, size_pos o)
]
