-- ===== src/Vmm/Entries.antt =====
-- What the bits of an entry say.
use lnxrm.Base.{
  ℕ, ◌+◌, ◌*◌, ◌/◌, ◌%◌, ◌<◌, ◌≡◌, bit_or, Bool, true, false, refl, ap, sym, arith, ◌∙◌,
}
use lnxrm.Base.Bits.{bit_or_odd, bit_or_zero, bit_or_pow}
use lnxrm.Vmm.{present, large, frame, leaf_entry, pg_p, pg_w, pg_u}

-- PG_P, PG_W and PG_U are put into the address of a frame, `k * 8`.
flag_p : (k : ℕ) → bit_or (k * 8) 1 ≡ k * 8 + 1
flag_p k = bit_or_pow 3 k 1 (omega arith)

flag_w : (k : ℕ) → bit_or (k * 8 + 1) 2 ≡ k * 8 + 3
flag_w k =
    ap (λ x. bit_or x 2) {y = k * 4 * 2 + 1} (omega arith)
    ∙ bit_or_odd (k * 4) 1
    ∙ ap (λ x. x * 2 + 1) (bit_or_pow 2 k 1 (omega arith))
    ∙ omega arith

flag_u : (k : ℕ) → bit_or (k * 8 + 1) 4 ≡ k * 8 + 5
flag_u k =
    ap (λ x. bit_or x 4) {y = k * 4 * 2 + 1} (omega arith)
    ∙ bit_or_odd (k * 4) 2
    ∙ ap (λ x. x * 2 + 1) (bit_or_pow 2 k 2 (omega arith))
    ∙ omega arith

flag_wu : (k : ℕ) → bit_or (k * 8 + 3) 4 ≡ k * 8 + 7
flag_wu k =
    let low : bit_or (k * 4 + 1) 2 ≡ k * 4 + 3 =
      ap (λ x. bit_or x 2) {y = k * 2 * 2 + 1} (omega arith)
      ∙ bit_or_odd (k * 2) 1
      ∙ ap (λ x. x * 2 + 1) (bit_or_pow 1 k 1 (omega arith))
      ∙ omega arith in
    ap (λ x. bit_or x 4) {y = (k * 4 + 1) * 2 + 1} (omega arith)
    ∙ bit_or_odd (k * 4 + 1) 2
    ∙ ap (λ x. x * 2 + 1) low
    ∙ omega arith

-- The entry that leads to a table.
abbrev pub table_entry : ℕ → ℕ
table_entry t = bit_or (bit_or (bit_or t pg_p) pg_w) pg_u

all_flags : (k : ℕ) → bit_or (bit_or (bit_or (k * 8) 1) 2) 4 ≡ k * 8 + 7
all_flags k = rw (flag_p k, flag_w k, flag_wu k) refl

eighths : (t : ℕ) → t % 4096 ≡ 0 → t ≡ t / 8 * 8
eighths t h = omega arith

table_entry_lem : (t : ℕ) → t % 4096 ≡ 0 → table_entry t ≡ t + 7
table_entry_lem t h =
    let e = eighths t h in ap table_entry e ∙ all_flags (t / 8) ∙ ap (λ x. x + 7) (sym e)

pub table_entry-frame :
    (t : ℕ)
    → t % 4096 ≡ 0
    → (present (table_entry t) ≡ true)
      × (large (table_entry t) ≡ false)
      × (frame (table_entry t) ≡ t)
unfolding present large frame
table_entry-frame t h = rw (table_entry_lem t h) (ground arith, ground arith, omega arith)

-- PG_W and PG_U of a page.
bits_of : Bool → Bool → ℕ
bits_of true true = 6
bits_of true false = 2
bits_of false true = 4
bits_of false false = 0

bits_of_lt : (w u : Bool) → bits_of w u < 8
unfolding bits_of
bits_of_lt true true = omega arith
bits_of_lt true false = omega arith
bits_of_lt false true = omega arith
bits_of_lt false false = omega arith

bits_of_even : (w u : Bool) → bits_of w u % 2 ≡ 0
unfolding bits_of
bits_of_even true true = refl
bits_of_even true false = refl
bits_of_even false true = refl
bits_of_even false false = refl

leaf_flags : (k : ℕ) (w u : Bool) → leaf_entry (k * 8) w u ≡ k * 8 + 1 + bits_of w u
unfolding leaf_entry bits_of
leaf_flags k true true = rw (flag_p k, flag_w k, flag_wu k) (omega arith)
leaf_flags k true false = rw (flag_p k, flag_w k, bit_or_zero (k * 8 + 3)) (omega arith)
leaf_flags k false true = rw (flag_p k, bit_or_zero (k * 8 + 1), flag_u k) (omega arith)
leaf_flags k false false =
    rw (flag_p k, bit_or_zero (k * 8 + 1), bit_or_zero (k * 8 + 1)) (omega arith)

leaf_entry_lem : (pa : ℕ) (w u : Bool) → pa % 4096 ≡ 0 → leaf_entry pa w u ≡ pa + 1 + bits_of w u
leaf_entry_lem pa w u h =
    let e = eighths pa h in
    ap (λ x. leaf_entry x w u) e ∙ leaf_flags (pa / 8) w u ∙ ap (λ x. x + 1 + bits_of w u) (sym e)

pub leaf_entry-frame :
    (pa : ℕ) (w u : Bool)
    → pa % 4096 ≡ 0
    → (present (leaf_entry pa w u) ≡ true) × (frame (leaf_entry pa w u) ≡ pa)
unfolding present frame leaf_entry
leaf_entry-frame pa w u h =
    let e : leaf_entry pa w u ≡ pa + 1 + bits_of w u = leaf_entry_lem pa w u h in
    let small : bits_of w u < 8 = bits_of_lt w u in
    let even : bits_of w u % 2 ≡ 0 = bits_of_even w u in rw e (ground arith, omega arith)

-- The address of a byte of a page.
pub bit_or-offset : (e off : ℕ) → off < 4096 → bit_or (frame e) off ≡ frame e + off
unfolding frame
bit_or-offset e off h = bit_or_pow 12 (e / 4096) off h
