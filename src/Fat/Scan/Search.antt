-- ===== src/Fat/Scan/Search.antt =====
-- What a search of a directory finds, for `fat_scan_find_cb` in kernel/fs/fat32/fat32_dir.c.
use lnxrm.Base.{
  ◌≢◌, ◌%◌, ◌/◌, get_or, ℕ, ◌⊎◌, take, zero, suc, ◌++◌, not, if◌then◌else◌, ◌<◌, ◌≡◌, Bool, true,
  false, ◌&&◌, Option, none, some, List, [], ◌∷◌,
}
use lnxrm.Fat.{Volume, ends_at, fat_next_cluster}
use lnxrm.Fat.Scan.{
  Dirent, LfnState, lfn_reset, lfn_entry, entry_used, is_end, is_lfn, is_volume, is_match, Pass,
  stopped, ended, goes_on, entry_name,
}
use lnxrm.Str.{strcasecmp}
use lnxrm.Base.Words.{pos}
use lnxrm.Fat.Names.{fat_name_eq_short}

-- What an entry leaves of a long name: a piece extends it, a label keeps it, all else forgets it.
abbrev pub left_by : Dirent → LfnState → LfnState
left_by e lf =
    if entry_used e && is_lfn e
    then lfn_entry e lf
    else if entry_used e && is_volume e
    then lf
    else lfn_reset lf

pub left_by_all : List Dirent → LfnState → LfnState
left_by_all [] lf = lf
left_by_all (e ∷ es) lf = left_by_all es (left_by e lf)

-- An entry that has a name: in use, no part of a long name and no label.
abbrev pub is_named : Dirent → Bool
is_named e = entry_used e && not (is_lfn e) && not (is_volume e)

-- The end mark is not among the entries, and none that has a name matches under it.
pub Passed : List ℕ → LfnState → List Dirent → Type 0
Passed want lf [] = 0 < 1
Passed want lf (e ∷ es) =
    (is_end e ≡ false)
    × ((is_named e && is_match want (entry_name e lf) e) ≡ false)
    × Passed want (left_by e lf) es

-- What a search finds in a list of entries: the first one that has a name and matches under it, where the
-- name is the long one that the entries in front of it leave, or its short one. The end mark is not in
-- front of it.
pub record Matches (want : List ℕ) (lf : LfnState) (l : List Dirent) (e : Dirent) : Type 0 where
  pub in_front : List Dirent
  pub behind : List Dirent
  pub is_split : l ≡ in_front ++ (e ∷ behind)
  pub earlier : Passed want lf in_front
  pub is_wanted :
      (strcasecmp (entry_name e (left_by_all in_front lf)) want ≡ pos 0)
      ⊎ (fat_name_eq_short want (take 11 e) ≡ true)
  pub in_use : (get_or e 0 0 ≢ 0) × (get_or e 0 0 ≢ 0xE5)
  pub no_piece : get_or e 11 0 % 16 ≢ 15
  pub no_label : get_or e 11 0 / 8 % 2 ≡ 0
  pub no_end : is_end e ≡ false

-- The result of a pass over the entries `l` from the state `lf`, with nothing found before.
GoodPass : List ℕ → LfnState → List Dirent → Pass (Option Dirent) → Type 0
GoodPass want lf l (stopped none) = 0 < 1
GoodPass want lf l (stopped (some e)) = Matches want lf l e
GoodPass want lf l (ended none) = 0 < 1
GoodPass want lf l (ended (some e)) = 1 < 0
GoodPass want lf l (goes_on lf' none) = (lf' ≡ left_by_all l lf) × Passed want lf l
GoodPass want lf l (goes_on lf' (some e)) = 1 < 0

-- The entries of a directory, those of its clusters in the order of the chain, at most `n` clusters.
pub directory : ℕ → Volume → (ℕ → List Dirent) → ℕ → List Dirent
directory zero m entries c = []
directory (suc n) m entries c =
    let rest = directory n m entries (fat_next_cluster m c) in
    if ends_at c then [] else entries c ++ rest

-- A result of the walk over the clusters.
Walked : List ℕ → LfnState → List Dirent → Option (Bool × Option Dirent) → Type 0
Walked want lf l none = 0 < 1
Walked want lf l (some (stop, none)) = 0 < 1
Walked want lf l (some (stop, some e)) = Matches want lf l e
