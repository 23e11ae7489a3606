-- ===== src/Pmm/Blocks.antt =====
-- Aligned blocks, their buddies and their indices in a bitmap.
use lnxrm.Base.{
  ℕ, zero, suc, ◌+◌, ◌-◌, ◌*◌, ◌/◌, ◌%◌, ◌^◌, ◌≤◌, ◌<◌, ◌≡◌, ◌⊎◌, inl, inr, ℕ_discrete, ap, sym,
  arith, ◌∙◌,
}
use native.Mathlib.Nat.{lt_of_mul-lt-mul_right, div-add-mod', mod-lt}
use lnxrm.Base.Bits.{bit_xor_pow, bit_xor_one}
use lnxrm.Pmm.{size, buddy_of, index}

pub pow_pos : (n : ℕ) → 0 < 2 ^ n
pow_pos zero = omega arith
pow_pos (suc n) = omega (arith, pow_pos n)

pub pow_next : (n : ℕ) → 2 ^ suc n ≡ 2 ^ n + 2 ^ n
pow_next n = omega arith

pub size_pos : (o : ℕ) → 0 < size o
unfolding size
size_pos o = pow_pos (12 + o)

pub size_next : (o : ℕ) → size (o + 1) ≡ size o + size o
unfolding size
size_next o = ap (λ n. 2 ^ n) {y = suc (12 + o)} (omega arith) ∙ pow_next (12 + o)

-- A block of order `o` starts at a multiple of its size.
abbrev pub Aligned : ℕ → ℕ → Type 0
Aligned o x = (k : ℕ) × (x ≡ k * size o)

pub Aligned-lower : (o x : ℕ) → Aligned (o + 1) x → Aligned o x × Aligned o (x + size o)
Aligned-lower o x (k, e) =
    ((k + k, rw (e, size_next o) (grind arith)), (k + k + 1, rw (e, size_next o) (grind arith)))

pub succ_mul : (k p : ℕ) → (k + 1) * p ≡ k * p + p
succ_mul k p = grind arith

double_mul : (k p : ℕ) → k * 2 * p ≡ k * (p + p)
double_mul k p = grind arith

buddy_of_mul : (o k : ℕ) → buddy_of (k * size o) o ≡ (k / 2 * 2 + (1 - k % 2)) * size o
unfolding buddy_of size
buddy_of_mul o k = bit_xor_pow (12 + o) k ∙ ap (λ n. n * 2 ^ (12 + o)) (bit_xor_one k)

times : (o : ℕ) {n m : ℕ} → n ≡ m → n * size o ≡ m * size o
times o h = ap (λ n. n * size o) h

-- The buddy of a block is its other half in a block of twice the size.
pub buddy_of-cases :
    (o x : ℕ)
    → Aligned o x
    → ((buddy_of x o ≡ x + size o) × Aligned (o + 1) x)
      ⊎ ((x ≡ buddy_of x o + size o) × Aligned (o + 1) (buddy_of x o))
buddy_of-cases o x (k, e) =
    let b : buddy_of x o ≡ (k / 2 * 2 + (1 - k % 2)) * size o = rw e (buddy_of_mul o k) in
    let half : k / 2 * 2 * size o ≡ k / 2 * size (o + 1) =
      double_mul (k / 2) (size o) ∙ ap (λ p. k / 2 * p) (sym (size_next o)) in
    elim (ℕ_discrete (k % 2) 0) [
      | yes z ↦ inl (
        b ∙ times o {m = k + 1} (omega arith) ∙ succ_mul k (size o) ∙ ap (λ n. n + size o) (sym e),
        (k / 2, e ∙ times o (omega arith) ∙ half),
      )
      | no z ↦ inr (
        e
            ∙ times o {m = k / 2 * 2 + (1 - k % 2) + 1} (omega arith)
            ∙ succ_mul _ (size o)
            ∙ ap (λ n. n + size o) (sym b),
        (k / 2, b ∙ times o (omega arith) ∙ half),
      )
    ]

pub index_bounds :
    (o base x : ℕ)
    → (index base o x * size o ≤ x - base) × (x - base < index base o x * size o + size o)
unfolding index
index_bounds o base x =
    let d = div-add-mod' (x - base) (size o) in
    let m = mod-lt (x - base) (size_pos o) in (omega arith, omega arith)

pub index_inj :
    (o base k j : ℕ)
    → base ≤ k * size o
    → base ≤ j * size o
    → index base o (k * size o) ≡ index base o (j * size o)
    → k ≡ j
index_inj o base k j h g e =
    let s = size_pos o in
    let a = index_bounds o base (k * size o) in
    let b = index_bounds o base (j * size o) in
    let q = ap (λ i. i * size o) e in
    let up : k < j + 1 = lt_of_mul-lt-mul_right (size o) (omega (arith, succ_mul j (size o))) in
    let down : j < k + 1 = lt_of_mul-lt-mul_right (size o) (omega (arith, succ_mul k (size o))) in
    omega arith
