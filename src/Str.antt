-- ===== src/Str.antt =====
-- kernel/lib/string.c: the comparisons of strings and memory. A string is the list of the bytes in front of
-- its NUL, and an `int` is an integer of the model.
pub mod Order
use lnxrm.Base.{
  ℕ, zero, suc, ◌+◌, ◌-◌, ◌%◌, Bool, ◌&&◌, Option, none, some, List, [], ◌∷◌, ◌==◌, ltb, leb,
  if◌then◌else◌,
}
use lnxrm.Base.Words.{ℤ, pos, negsuc, neg}

-- The difference of two bytes.
abbrev pub byte_diff : ℕ → ℕ → ℤ
byte_diff a b = if leb b a then pos (a - b) else neg (b - a)

pub strcmp : List ℕ → List ℕ → ℤ
strcmp [] [] = pos 0
strcmp [] (b ∷ bs) = byte_diff 0 b
strcmp (a ∷ as_) [] = byte_diff a 0
strcmp (a ∷ as_) (b ∷ bs) = let rest = strcmp as_ bs in if a == b then rest else byte_diff a b

unfoldable pub strncmp : List ℕ → List ℕ → ℕ → ℤ
strncmp a b zero = pos 0
strncmp [] [] (suc n) = pos 0
strncmp [] (b ∷ bs) (suc n) = byte_diff 0 b
strncmp (a ∷ as_) [] (suc n) = byte_diff a 0
strncmp (a ∷ as_) (b ∷ bs) (suc n) =
    let rest = strncmp as_ bs n in if a == b then rest else byte_diff a b

-- `tolower` for the byte of a `char`.
abbrev pub tolower : ℕ → ℕ
tolower c = if leb 65 c && leb c 90 then c + 32 else c

-- `char` is signed: bytes from 128 on are negative. Adding 128 to both sides keeps their difference.
abbrev pub biased : ℕ → ℕ
biased c = (c + 128) % 256

abbrev pub char_diff : ℕ → ℕ → ℤ
char_diff a b = byte_diff (biased (tolower a)) (biased (tolower b))

unfoldable pub strcasecmp : List ℕ → List ℕ → ℤ
strcasecmp [] [] = char_diff 0 0
strcasecmp [] (b ∷ bs) = char_diff 0 b
strcasecmp (a ∷ as_) [] = char_diff a 0
strcasecmp (a ∷ as_) (b ∷ bs) =
    let rest = strcasecmp as_ bs in if tolower a == tolower b then rest else char_diff a b

-- Memory areas of the same length.
pub memcmp : List ℕ → List ℕ → ℤ
memcmp [] b = pos 0
memcmp (x ∷ xs) [] = pos 0
memcmp (x ∷ xs) (y ∷ ys) =
    let rest = memcmp xs ys in if x == y then rest else if ltb x y then neg 1 else pos 1
