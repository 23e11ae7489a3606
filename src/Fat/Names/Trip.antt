-- ===== src/Fat/Names/Trip.antt =====
-- 8.3 names to short names and back.
use lnxrm.Base.{
  length-map, length-replicate, ℕ, zero, suc, ◌-◌, ◌≤◌, ◌≡◌, refl, ap, Bool, true, false, not, ◌&&◌,
  List, [], ◌∷◌, ◌++◌, map, ◌==◌, leb, length, take, drop, replicate, arith, length-append,
}
use lnxrm.Fat.Names.{
  ascii_toupper, ascii_tolower, base_part, ext_part, pad_to, name_to_short, until_space, with_dot,
  fat_short_to_name,
}

-- A character that a short name keeps: no dot, no space and no capital letter.
abbrev pub is_kept : ℕ → Bool
is_kept c = not (c == b'.') && not (c == b' ') && not (leb b'A' c && leb c b'Z')

abbrev pub all_kept : List ℕ → Bool
all_kept [] = true
all_kept (c ∷ cs) = is_kept c && all_kept cs

kept-trip :
    (c : ℕ)
    → is_kept c ≡ true
    → (ascii_tolower (ascii_toupper c) ≡ c) × ((ascii_toupper c == b' ') ≡ false)
kept-trip c h = (ground arith, ground arith)

-- The padding begins where the characters end.
until_space-padded :
    (n : ℕ) (cs : List ℕ)
    → all_kept cs ≡ true
    → until_space (map ascii_toupper cs ++ replicate n b' ') ≡ cs
unfolding until_space
until_space-padded zero [] h = refl
until_space-padded (suc n) [] h = refl
until_space-padded n (c ∷ cs) h =
    let t = kept-trip c (ground arith) in
    let rest = until_space-padded n cs (ground arith) in rw (t.1, rest) (ap (λ r. r ∷ cs) t.0)

base_part-name :
    (n : ℕ) (base rest : List ℕ)
    → all_kept base ≡ true
    → length base ≤ n
    → base_part n (base ++ (b'.' ∷ rest)) ≡ (map ascii_toupper base, b'.' ∷ rest)
unfolding base_part
base_part-name zero [] rest h b = refl
base_part-name zero (c ∷ base) rest h b = absurd (omega arith)
base_part-name (suc n) [] rest h b = refl
base_part-name (suc n) (c ∷ base) rest h b =
    let other : (c == b'.') ≡ false = ground arith in
    let later = base_part-name n base rest (ground arith) (omega arith) in rw (other, later) refl

take_exactly : (a b : List ℕ) (n : ℕ) → length a ≡ n → take n (a ++ b) ≡ a
take_exactly [] b zero h = refl
take_exactly [] b (suc n) h = absurd (omega arith)
take_exactly (c ∷ a) b zero h = absurd (omega arith)
take_exactly (c ∷ a) b (suc n) h = ap (λ r. c ∷ r) (take_exactly a b n (omega arith))

drop_exactly : (a b : List ℕ) (n : ℕ) → length a ≡ n → drop n (a ++ b) ≡ b
drop_exactly [] b zero h = refl
drop_exactly [] b (suc n) h = absurd (omega arith)
drop_exactly (c ∷ a) b zero h = absurd (omega arith)
drop_exactly (c ∷ a) b (suc n) h = drop_exactly a b n (omega arith)

base_part-bare :
    (n : ℕ) (base : List ℕ)
    → all_kept base ≡ true
    → length base ≤ n
    → base_part n (base ++ []) ≡ (map ascii_toupper base, [])
unfolding base_part
base_part-bare zero [] h b = refl
base_part-bare zero (c ∷ base) h b = absurd (omega arith)
base_part-bare (suc n) [] h b = refl
base_part-bare (suc n) (c ∷ base) h b =
    let other : (c == b'.') ≡ false = ground arith in
    let later = base_part-bare n base (ground arith) (omega arith) in rw (other, later) refl

take_whole : (n : ℕ) (l : List ℕ) → length l ≤ n → take n l ≡ l
take_whole zero [] h = refl
take_whole zero (c ∷ l) h = absurd (omega arith)
take_whole (suc n) [] h = refl
take_whole (suc n) (c ∷ l) h = ap (λ r. c ∷ r) (take_whole n l (omega arith))

ext_part-name :
    (c : ℕ) (ext : List ℕ)
    → length (c ∷ ext) ≤ 3
    → ext_part (b'.' ∷ c ∷ ext) ≡ map ascii_toupper (c ∷ ext)
unfolding ext_part
ext_part-name c ext h = ap (map ascii_toupper) (take_whole 3 (c ∷ ext) h)

ext_part-none : ext_part [] ≡ []
unfolding ext_part
ext_part-none = refl

-- What `name_to_short` makes of a base and an extension that fit.
short-parts :
    (base ext : List ℕ)
    → all_kept base ≡ true
    → length base ≤ 8
    → length ext ≤ 3
    → name_to_short (base ++ with_dot ext)
      ≡ pad_to 8 (map ascii_toupper base) ++ pad_to 3 (map ascii_toupper ext)
unfolding name_to_short
short-parts base [] h b l = rw (base_part-bare 8 base h b, ext_part-none) refl
short-parts base (c ∷ ext) h b l =
    rw (base_part-name 8 base (c ∷ ext) h b, ext_part-name c ext l) refl

length-padded : (n : ℕ) (cs : List ℕ) → length cs ≤ n → length (pad_to n (map ascii_toupper cs)) ≡ n
length-padded n cs h = omega (
  arith,
  length-append (map ascii_toupper cs) (replicate (n - length (map ascii_toupper cs)) b' '),
  length-map cs ascii_toupper,
  length-replicate {A = ℕ} (n - length (map ascii_toupper cs)) b' ',
)

-- A name of at most eight characters with an extension of at most three, or none, comes back from its
-- short name as it was, if no character is a dot, a space or a capital letter.
pub fat_short_to_name-trip :
    (base ext : List ℕ)
    → all_kept base ≡ true
    → all_kept ext ≡ true
    → length base ≤ 8
    → length ext ≤ 3
    → fat_short_to_name (name_to_short (base ++ with_dot ext)) ≡ base ++ with_dot ext
unfolding fat_short_to_name
fat_short_to_name-trip base ext h k b l =
    let front = pad_to 8 (map ascii_toupper base) in
    let back = pad_to 3 (map ascii_toupper ext) in
    rw
      (
        short-parts base ext h b l,
        take_exactly front back 8 (length-padded 8 base b),
        drop_exactly front back 8 (length-padded 8 base b),
        take_whole 3 back (omega (arith, length-padded 3 ext l)),
        until_space-padded (8 - length (map ascii_toupper base)) base h,
        until_space-padded (3 - length (map ascii_toupper ext)) ext k,
      )
      refl
