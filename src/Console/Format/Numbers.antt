-- ===== src/Console/Format/Numbers.antt =====
-- The digits that `putnum` prints, read back.
use mathlib.Core.Bool.{◌&&◌}
use lnxrm.Base.{
  length-append, leb, ℕ, zero, suc, ◌+◌, ◌-◌, ◌*◌, ◌/◌, ◌%◌, ◌^◌, ◌≤◌, ◌<◌, ◌≡◌, sym, ap, ◌∙◌, Bool,
  false, inl, inr, List, [], ◌∷◌, ◌==◌, ltb, arith, if◌then◌else◌, length, Bool-cases,
}
use lnxrm.Console.Format.{digit_char, digits_from, number_tmp}

abbrev pub digit_value : ℕ → ℕ
digit_value c = if ltb c b'a' then c - b'0' else c - b'a' + 10

-- The value of digits that stand from the last one on.
pub value_of : ℕ → List ℕ → ℕ
value_of base [] = 0
value_of base (c ∷ cs) = digit_value c + base * value_of base cs

digit_value-char : (d : ℕ) → d < 16 → digit_value (digit_char d) ≡ d
digit_value-char d h = ground arith

-- What the two bases of the conversions have in common.
record IsBase (b : ℕ) : Type 0 where
  split : (v : ℕ) → v % b + b * (v / b) ≡ v
  small : (v : ℕ) → v % b < 16
  shrinks : (v : ℕ) → v / b ≤ v / 2
  drops : (v : ℕ) → v / b ≤ v / 10

ten : IsBase 10
ten = record {
  split = λ v. omega arith;
  small = λ v. omega arith;
  shrinks = λ v. omega arith;
  drops = λ v. omega arith;
}

sixteen : IsBase 16
sixteen = record {
  split = λ v. omega arith;
  small = λ v. omega arith;
  shrinks = λ v. omega arith;
  drops = λ v. omega arith;
}

value_of-digits_from :
    (b : ℕ) → IsBase b → (n v : ℕ) → v < 2 ^ n → value_of b (digits_from n v b) ≡ v
unfolding value_of digits_from
value_of-digits_from b base zero v h = omega arith
value_of-digits_from b base (suc n) v h =
    let d = digit_value-char (v % b) (base.small v) in
    let whole = base.split v in
    elim (Bool-cases (v / b == 0)) [
      | inl e ↦
          let z : v / b ≡ 0 = ground arith in rw (e, d) (ap (λ k. v % b + b * k) (sym z) ∙ whole)
      | inr e ↦
          let power : 2 ^ suc n ≡ 2 * 2 ^ n = ground arith in
          let half = base.shrinks v in
          rw (e, d, value_of-digits_from b base n (v / b) (omega (arith, power, half))) whole
    ]

length-digits_from :
    (b : ℕ) → IsBase b → (n k v : ℕ) → v < 10 ^ suc k → length (digits_from n v b) ≤ suc k
unfolding digits_from
length-digits_from b base zero k v h = omega arith
length-digits_from b base (suc n) zero v h =
    let z : v / b ≡ 0 = omega (arith, base.drops v) in rw z (omega arith)
length-digits_from b base (suc n) (suc k) v h =
    let power : 10 ^ suc (suc k) ≡ 10 * 10 ^ suc k = ground arith in
    let less : v / b < 10 ^ suc k = omega (arith, power, base.drops v) in
    let rest = length-digits_from b base n k (v / b) less in
    elim (Bool-cases (v / b == 0)) [
      | inl e ↦ rw e (omega arith)
      | inr e ↦ rw e (omega (arith, rest))
    ]

-- The digits that are printed for a 64-bit value, in base 10 or 16, read back as the value, and with a
-- sign they fit `tmp[32]`.
pub number_tmp_lem :
    (v : ℕ) (sgn : Bool)
    → v < 2 ^ 64
    → (value_of 10 (number_tmp v 10 false) ≡ v)
      × (value_of 16 (number_tmp v 16 false) ≡ v)
      × (length (number_tmp v 10 sgn) ≤ 32)
      × (length (number_tmp v 16 sgn) ≤ 32)
unfolding number_tmp
number_tmp_lem v sgn h = (
  value_of-digits_from 10 ten 64 v h,
  value_of-digits_from 16 sixteen 64 v h,
  fits 10 ten,
  fits 16 sixteen,
)
  where
    fits : (b : ℕ) → IsBase b → length (number_tmp v b sgn) ≤ 32
    fits b base =
        let plain = length-digits_from b base 64 19 v (omega arith) in
        let signed = length-digits_from b base 64 19 ((2 ^ 64 - v) % 2 ^ 64) (omega arith) in
        elim (Bool-cases (sgn && leb (2 ^ 63) v)) [
          | inl e ↦
              rw (e, length-append (digits_from 64 ((2 ^ 64 - v) % 2 ^ 64) b) (b'-' ∷ []))
                (omega (arith, signed))
          | inr e ↦ rw e (omega (arith, plain))
        ]
