-- ===== src/Fat/Scan/Listing.antt =====
-- kernel/fs/fat32/fat32_dir.c: `fat_dir_iter`, which reads a directory one entry at a time by a cookie,
-- against the listing of the whole directory.
mod Passes
pub mod Cookies
use lnxrm.Base.{
  ℕ, zero, suc, ◌+◌, ◌-◌, ◌*◌, ◌/◌, ◌%◌, ◌^◌, ◌≤◌, ◌<◌, ◌≡◌, refl, sym, ap, subst, ◌∙◌, Bool, true,
  false, not, ◌&&◌, Option, none, some, inl, inr, List, [], ◌∷◌, ◌++◌, ◌==◌, leb, ltb,
  if◌then◌else◌, length, take, get_elem?, arith, Bool-cases, length-append,
}
use lnxrm.Fat.{Volume, ends_at, fat_next_cluster}
use lnxrm.Fat.Scan.{
  Dirent, LfnState, lfn_reset, lfn_entry, entry_used, is_end, is_lfn, is_volume, is_dir, entry_name,
  first_cluster, Pass, stopped, ended, goes_on, scan_entries, scan_chain, fat_scan_dir,
}

-- A name and a type, 4 for a directory and 8 for a file.
abbrev pub Shown : Type 0
Shown = List ℕ × ℕ

abbrev pub shown : List ℕ → Dirent → Shown
shown name e = (take 55 name, if is_dir e then 4 else 8)

abbrev pub is_hidden : List ℕ → Bool
is_hidden [] = false
is_hidden (c ∷ cs) = c == b'.'

-- `struct iter_ctx`: `hit` has the name and the type.
pub record Iter : Type 0 where
  pub seen : ℕ
  pub hit : Option Shown

unfoldable pub scan_iter_cb : ℕ → List ℕ → Dirent → Iter → Bool × Iter
scan_iter_cb target name e c =
    if is_hidden name
    then (false, c)
    else if c.seen == target
    then (true, record { seen = c.seen + 1; hit = some (shown name e) })
    else (false, record c { seen = c.seen + 1 })

-- The new cookie, and the entry if there is one.
abbrev pub next_cookie : ℕ → Option Shown → ℕ × Option Shown
next_cookie cookie none = (cookie + 1, none)
next_cookie cookie (some x) = ((cookie / 256 + 1) * 256 % 2 ^ 64, some x)

-- Bit 0 of the cookie tells that the end was reached, and the rest is the number of the entry.
unfoldable pub fat_dir_iter :
    ℕ → Volume → (ℕ → List Dirent) → (ℕ → ℕ) → ℕ → ℕ → Option (ℕ × Option Shown)
fat_dir_iter fuel m entries stack dc cookie =
    if cookie % 2 == 1
    then some (cookie, none)
    else elim (fat_scan_dir (scan_iter_cb (cookie / 256)) fuel m entries stack dc
        (record { seen = 0; hit = none })) [
          | none ↦ none
          | some r ↦ some (next_cookie cookie r.1.hit)
        ]

-- The whole listing: a callback that collects what is shown and never stops.
unfoldable pub collect : List ℕ → Dirent → List Shown → Bool × List Shown
collect name e found =
    if is_hidden name then (false, found) else (false, found ++ (shown name e ∷ []))

-- The directory is given by its entry; the cookie is stored back also when nothing is left.
pub fat32_getdent_impl :
    ℕ → Volume → (ℕ → List Dirent) → (ℕ → ℕ) → Dirent → ℕ → Option (ℕ × Option Shown)
fat32_getdent_impl fuel m entries stack node cookie =
    fat_dir_iter fuel m entries stack (first_cluster node) cookie
