-- ===== src/Str/Order.antt =====
-- When the comparisons of kernel/lib/string.c answer 0.
use lnxrm.Base.{
  ℕ, zero, suc, ◌-◌, ◌≡◌, ◌<◌, ◌↔◌, refl, ap₂, inl, inr, List, [], ◌∷◌, map, ◌==◌, leb, arith,
  Bool-cases, take, length,
}
use lnxrm.Base.Words.{pos, neg}
use lnxrm.Str.{byte_diff, strcmp, strncmp, tolower, biased, char_diff, strcasecmp, memcmp}

-- Every byte is one of a C string: not NUL, and below 256.
abbrev pub IsText : List ℕ → Type 0
IsText [] = 0 < 1
IsText (b ∷ bs) = (0 < b) × (b < 256) × IsText bs

neg-zero : (n : ℕ) → neg n ≡ pos 0 → n ≡ 0
neg-zero zero e = refl
neg-zero (suc n) e = absurd cc

diff-zero : (a b : ℕ) → byte_diff a b ≡ pos 0 → a ≡ b
diff-zero a b e = elim (Bool-cases (leb b a)) [
  | inl h ↦ let zero_gap : pos (a - b) ≡ pos 0 = rw h at e in ground arith
  | inr h ↦ let gap = neg-zero (b - a) (rw h at e) in absurd (ground arith)
]

diff_self : (a : ℕ) → byte_diff a a ≡ pos 0
diff_self a = ground arith

strncmp_forth :
    (a b : List ℕ) (n : ℕ) → IsText a → IsText b → strncmp a b n ≡ pos 0 → take n a ≡ take n b
unfolding strncmp
strncmp_forth a b zero s t e = refl
strncmp_forth [] [] (suc n) s t e = refl
strncmp_forth [] (y ∷ b) (suc n) s t e = absurd (omega (arith, diff-zero 0 y e, t.0))
strncmp_forth (x ∷ a) [] (suc n) s t e = absurd (omega (arith, diff-zero x 0 e, s.0))
strncmp_forth (x ∷ a) (y ∷ b) (suc n) s t e = elim (Bool-cases (x == y)) [
  | inl h ↦ ap₂ ◌∷◌ (ground arith) (strncmp_forth a b n s.2 t.2 (rw h at e))
  | inr h ↦ let same = diff-zero x y (rw h at e) in absurd (ground arith)
]

strncmp_back : (a b : List ℕ) (n : ℕ) → take n a ≡ take n b → strncmp a b n ≡ pos 0
unfolding strncmp
strncmp_back a b zero e = refl
strncmp_back [] [] (suc n) e = refl
strncmp_back [] (y ∷ b) (suc n) e = absurd cc
strncmp_back (x ∷ a) [] (suc n) e = absurd cc
strncmp_back (x ∷ a) (y ∷ b) (suc n) e =
    let head : x ≡ y = cc in
    let tail : take n a ≡ take n b = cc in ground (arith, strncmp_back a b n tail)

-- On two strings `strncmp` is 0 exactly when they agree in their first `n` bytes, or are equal if
-- they have fewer.
pub strncmp_iff :
    (a b : List ℕ) (n : ℕ) → IsText a → IsText b → (strncmp a b n ≡ pos 0) ↔ (take n a ≡ take n b)
strncmp_iff a b n s t = (strncmp_forth a b n s t, strncmp_back a b n)

biased_injective : (x y : ℕ) → x < 256 → y < 256 → biased x ≡ biased y → x ≡ y
biased_injective x y a b e = omega arith

lower-bound : (x : ℕ) → 0 < x → x < 256 → (0 < tolower x) × (tolower x < 256)
lower-bound x a b = (ground arith, ground arith)

char_diff-zero : (x y : ℕ) → x < 256 → y < 256 → char_diff x y ≡ pos 0 → tolower x ≡ tolower y
char_diff-zero x y a b e =
    biased_injective (tolower x) (tolower y) (ground arith) (ground arith)
      (diff-zero (biased (tolower x)) (biased (tolower y)) e)

strcasecmp_forth :
    (a b : List ℕ) → IsText a → IsText b → strcasecmp a b ≡ pos 0 → map tolower a ≡ map tolower b
unfolding strcasecmp
strcasecmp_forth [] [] s t e = refl
strcasecmp_forth [] (y ∷ b) s t e =
    let same = char_diff-zero 0 y (omega arith) t.1 e in
    absurd (omega (arith, same, (lower-bound y t.0 t.1).0))
strcasecmp_forth (x ∷ a) [] s t e =
    let same = char_diff-zero x 0 s.1 (omega arith) e in
    absurd (omega (arith, same, (lower-bound x s.0 s.1).0))
strcasecmp_forth (x ∷ a) (y ∷ b) s t e = elim (Bool-cases (tolower x == tolower y)) [
  | inl h ↦ ap₂ ◌∷◌ (ground arith) (strcasecmp_forth a b s.2 t.2 (rw h at e))
  | inr h ↦ let same = char_diff-zero x y s.1 t.1 (rw h at e) in absurd (ground arith)
]

strcasecmp_back : (a b : List ℕ) → map tolower a ≡ map tolower b → strcasecmp a b ≡ pos 0
unfolding strcasecmp
strcasecmp_back [] [] e = refl
strcasecmp_back [] (y ∷ b) e = absurd cc
strcasecmp_back (x ∷ a) [] e = absurd cc
strcasecmp_back (x ∷ a) (y ∷ b) e =
    let head : tolower x ≡ tolower y = cc in
    let tail : map tolower a ≡ map tolower b = cc in ground (arith, strcasecmp_back a b tail)

-- On two strings `strcasecmp` is 0 exactly when they are equal with capital letters read as small ones.
pub strcasecmp_iff :
    (a b : List ℕ)
    → IsText a
    → IsText b
    → (strcasecmp a b ≡ pos 0) ↔ (map tolower a ≡ map tolower b)
strcasecmp_iff a b s t = (strcasecmp_forth a b s t, strcasecmp_back a b)

-- A limit beyond the end of the first string makes `strncmp` the same as `strcmp`.
pub strncmp-strcmp : (a b : List ℕ) (n : ℕ) → length a < n → strncmp a b n ≡ strcmp a b
unfolding strncmp strcmp
strncmp-strcmp a b zero h = absurd (omega arith)
strncmp-strcmp [] [] (suc n) h = refl
strncmp-strcmp [] (y ∷ b) (suc n) h = refl
strncmp-strcmp (x ∷ a) [] (suc n) h = refl
strncmp-strcmp (x ∷ a) (y ∷ b) (suc n) h = ground (arith, strncmp-strcmp a b n (omega arith))

memcmp_forth : (a b : List ℕ) → length a ≡ length b → memcmp a b ≡ pos 0 → a ≡ b
unfolding memcmp
memcmp_forth [] [] h e = refl
memcmp_forth [] (y ∷ b) h e = absurd (omega arith)
memcmp_forth (x ∷ a) [] h e = absurd (omega arith)
memcmp_forth (x ∷ a) (y ∷ b) h e = elim (Bool-cases (x == y)) [
  | inl s ↦ ap₂ ◌∷◌ (ground arith) (memcmp_forth a b (omega arith) (rw s at e))
  | inr s ↦ absurd (ground arith)
]

memcmp_back : (a b : List ℕ) → a ≡ b → memcmp a b ≡ pos 0
unfolding memcmp
memcmp_back [] b e = refl
memcmp_back (x ∷ a) [] e = absurd cc
memcmp_back (x ∷ a) (y ∷ b) e =
    let head : x ≡ y = cc in let tail : a ≡ b = cc in ground (arith, memcmp_back a b tail)

-- On areas of the same length `memcmp` is 0 exactly when they are equal.
pub memcmp_iff : (a b : List ℕ) → length a ≡ length b → (memcmp a b ≡ pos 0) ↔ (a ≡ b)
memcmp_iff a b h = (memcmp_forth a b h, memcmp_back a b)
