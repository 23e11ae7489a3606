-- ===== src/Fat/Names.antt =====
-- kernel/fs/fat32/fat32_dir.c and include/fat32_priv.h: the 8.3 names of directory entries. A name is the
-- list of its bytes in front of the NUL, a short name the list of its 11 bytes.
pub mod Trip
use lnxrm.Base.{
  ℕ, zero, suc, ◌+◌, ◌-◌, Bool, true, false, not, ◌&&◌, ◌||◌, List, [], ◌∷◌, ◌++◌, map, ◌==◌, leb,
  if◌then◌else◌, length, take, drop, replicate,
}

abbrev pub ascii_toupper : ℕ → ℕ
ascii_toupper c = if leb b'a' c && leb c b'z' then c - 32 else c

abbrev pub ascii_tolower : ℕ → ℕ
ascii_tolower c = if leb b'A' c && leb c b'Z' then c + 32 else c

-- The loop that copies at most `n` characters up to a '.', and what is left of the name.
unfoldable pub base_part : ℕ → List ℕ → List ℕ × List ℕ
base_part zero name = ([], name)
base_part (suc n) [] = ([], [])
base_part (suc n) (c ∷ cs) =
    let rest = base_part n cs in
    if c == b'.' then ([], c ∷ cs) else (ascii_toupper c ∷ rest.0, rest.1)

-- The loop over the extension.
unfoldable pub ext_part : List ℕ → List ℕ
ext_part [] = []
ext_part (c ∷ cs) = if c == b'.' then map ascii_toupper (take 3 cs) else []

abbrev pub pad_to : ℕ → List ℕ → List ℕ
pad_to n cs = cs ++ replicate (n - length cs) b' '

unfoldable pub name_to_short : List ℕ → List ℕ
name_to_short name = let split = base_part 8 name in pad_to 8 split.0 ++ pad_to 3 (ext_part split.1)

-- The characters in front of the first space.
unfoldable pub until_space : List ℕ → List ℕ
until_space [] = []
until_space (c ∷ cs) = let rest = until_space cs in if c == b' ' then [] else ascii_tolower c ∷ rest

abbrev pub with_dot : List ℕ → List ℕ
with_dot [] = []
with_dot (c ∷ cs) = b'.' ∷ c ∷ cs

unfoldable pub fat_short_to_name : List ℕ → List ℕ
fat_short_to_name sn = until_space (take 8 sn) ++ with_dot (until_space (take 3 (drop 8 sn)))

unfoldable pub same_short : List ℕ → List ℕ → Bool
same_short [] [] = true
same_short [] (s ∷ ss) = false
same_short (e ∷ es) [] = false
same_short (e ∷ es) (s ∷ ss) = let rest = same_short es ss in ascii_toupper e == s && rest

-- Against the name field of an entry.
unfoldable pub fat_name_eq_short : List ℕ → List ℕ → Bool
fat_name_eq_short want field = same_short field (name_to_short want)
