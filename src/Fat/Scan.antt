-- ===== src/Fat/Scan.antt =====
-- kernel/fs/fat32/fat32_dir.c: the scan of a directory, with long names put together, and what is built on
-- it. An entry is the list of its 32 bytes; `entries` is what the buffer holds once a cluster is read.
pub mod Assembly
pub mod Search
pub mod Listing
use lnxrm.Base.{
  ℕ, zero, suc, ◌+◌, ◌-◌, ◌*◌, ◌/◌, ◌%◌, ◌^◌, bit_and, max, Bool, true, false, not, ◌&&◌, ◌||◌,
  Option, none, some, List, [], ◌∷◌, ◌++◌, ◌==◌, ltb, leb, if◌then◌else◌, length, take, drop,
  get_or, update,
}
use lnxrm.Fat.{Volume, fat_next_cluster, ends_at, cluster_is_eoc}
use lnxrm.Fat.Names.{fat_short_to_name, fat_name_eq_short}
use lnxrm.Str.{strcasecmp}
use lnxrm.Base.Words.{ℤ, pos, negsuc}

abbrev pub Dirent : Type 0
Dirent = List ℕ

abbrev pub attr : Dirent → ℕ
attr e = get_or e 11 0

-- `e->name[0] == ENT_END`
abbrev pub is_end : Dirent → Bool
is_end e = get_or e 0 0 == 0x05

unfoldable pub entry_used : Dirent → Bool
entry_used e = not (get_or e 0 0 == 0x00) && not (get_or e 0 0 == 0xE5)

-- `(e->attr & ATTR_LFN) == ATTR_LFN`
abbrev pub is_lfn : Dirent → Bool
is_lfn e = attr e % 16 == 15

abbrev pub is_volume : Dirent → Bool
is_volume e = attr e / 8 % 2 == 1

abbrev pub is_dir : Dirent → Bool
is_dir e = attr e / 16 % 2 == 1

abbrev pub first_cluster : Dirent → ℕ
first_cluster e =
    (get_or e 20 0 + 256 * get_or e 21 0) * 2 ^ 16 + (get_or e 26 0 + 256 * get_or e 27 0)

pub record LfnState : Type 0 where
  pub longname : ℕ → ℕ
  pub seq_max : ℕ
  pub name_end : ℕ

abbrev pub lfn_reset : LfnState → LfnState
lfn_reset lf = record { longname = update lf.longname 0 0; seq_max = 0; name_end = 0 }

-- The places of the characters in an entry of a long name.
abbrev pub char_places : List ℕ
char_places = 1 ∷ 3 ∷ 5 ∷ 7 ∷ 9 ∷ 14 ∷ 16 ∷ 18 ∷ 20 ∷ 22 ∷ 24 ∷ 28 ∷ 30 ∷ []

-- The low bytes of the characters up to the padding.
pub piece_of : Dirent → List ℕ → List ℕ
piece_of e [] = []
piece_of e (k ∷ ks) =
    let rest = piece_of e ks in
    let lo = get_or e k 0 in
    let hi = get_or e (k + 1) 0 in
    if lo == 0xFF && hi == 0xFF || lo == 0 && hi == 0 then [] else lo ∷ rest

-- `memcpy(&lf.longname[base], piece, pi)`
pub copy_piece : (ℕ → ℕ) → ℕ → List ℕ → ℕ → ℕ
copy_piece name base [] = name
copy_piece name base (c ∷ cs) = copy_piece (update name base c) (base + 1) cs

pub put_piece : ℕ → List ℕ → LfnState → LfnState
put_piece seq piece lf =
    let base = (seq - 1) * 13 in
    let end_ = base + length piece in
    if ltb end_ 256
    then record lf { longname = copy_piece lf.longname base piece; name_end = max lf.name_end end_ }
    else lf

-- An entry of a long name, with its sequence number.
pub lfn_entry : Dirent → LfnState → LfnState
lfn_entry e lf =
    let seq = get_or e 0 0 % 32 in
    if leb 1 seq && leb seq 20
    then (let q = put_piece seq (piece_of e char_places) lf in
        record q { seq_max = max lf.seq_max seq })
    else lf

-- The bytes from `i` on, `n` of them.
pub name_bytes : ℕ → ℕ → (ℕ → ℕ) → List ℕ
name_bytes zero i f = []
name_bytes (suc n) i f = f i ∷ name_bytes n (i + 1) f

-- A name ends at its first NUL.
unfoldable pub until_nul : List ℕ → List ℕ
until_nul [] = []
until_nul (c ∷ cs) = let rest = until_nul cs in if c == 0 then [] else c ∷ rest

unfoldable pub entry_name : Dirent → LfnState → List ℕ
entry_name e lf =
    if ltb 0 lf.seq_max && ltb 0 lf.name_end
    then until_nul (name_bytes (if leb 256 lf.name_end then 255 else lf.name_end) 0 lf.longname)
    else until_nul (fat_short_to_name (take 11 e))

-- How the scan of some entries ends: the callback stopped it, the end mark was found, or it goes on.
pub data Pass (C : Type 0) : Type 0 where
  stopped : C → Pass C
  ended : C → Pass C
  goes_on : LfnState → C → Pass C

-- The scan with the callback `cb`, on a context of its own.
module _ {C : Type 0} (cb : List ℕ → Dirent → C → Bool × C) where
  unfoldable pub scan_entries : List Dirent → LfnState → C → Pass C
  scan_entries [] lf ctx = goes_on lf ctx
  scan_entries (e ∷ es) lf ctx =
      let skipped = scan_entries es (lfn_reset lf) ctx in
      let assembled = scan_entries es (lfn_entry e lf) ctx in
      let label = scan_entries es lf ctx in
      let answer = cb (entry_name e lf) e ctx in
      let rest = scan_entries es (lfn_reset lf) answer.1 in
      if is_end e
      then ended ctx
      else if not (entry_used e)
      then skipped
      else if is_lfn e
      then assembled
      else if is_volume e
      then label
      else if answer.0
      then stopped answer.1
      else rest

  -- The walk along the clusters; whether the callback stopped it, and the context. `none` is that the fuel
  -- ran out.
  unfoldable pub scan_chain : ℕ → Volume → (ℕ → List Dirent) → ℕ → LfnState → C → Option (Bool × C)
  scan_chain zero m entries c lf ctx = if ends_at c then some (false, ctx) else none
  scan_chain (suc n) m entries c lf ctx =
      if ends_at c then some (false, ctx) else elim (scan_entries (entries c) lf ctx) [
        | stopped q ↦ some (true, q)
        | ended q ↦ some (false, q)
        | goes_on lf' q ↦ scan_chain n m entries (fat_next_cluster m c) lf' q
      ]

  -- `stack` is what the buffer of the long name held before.
  unfoldable pub fat_scan_dir : ℕ → Volume → (ℕ → List Dirent) → (ℕ → ℕ) → ℕ → C → Option (Bool × C)
  fat_scan_dir fuel m entries stack dirclus ctx =
      scan_chain fuel m entries dirclus
        (lfn_reset (record { longname = stack; seq_max = 0; name_end = 0 })) ctx

-- `fat_scan_find_cb`: the context is the entry that was found.
abbrev pub is_match : List ℕ → List ℕ → Dirent → Bool
is_match want name e =
    (elim (strcasecmp name want) [ pos n ↦ n == 0 | negsuc n ↦ false ])
    || fat_name_eq_short want (take 11 e)

unfoldable pub fat_scan_find_cb : List ℕ → List ℕ → Dirent → Option Dirent → Bool × Option Dirent
fat_scan_find_cb want name e found = if is_match want name e then (true, some e) else (false, found)

-- `fat_resolve_path`: `missing` is false, and the root has no entry of its own.
pub data Resolved : Type 0 where
  the_root : Resolved
  missing : Resolved
  resolved : ℕ → List ℕ → Dirent → Resolved

-- The component in front of the first slash, and what follows the slash, if there is one.
pub split_slash : List ℕ → List ℕ × Option (List ℕ)
split_slash [] = ([], none)
split_slash (c ∷ cs) =
    let rest = split_slash cs in if c == b'/' then ([], some cs) else (c ∷ rest.0, rest.1)

pub skip_slash : List ℕ → List ℕ
skip_slash [] = []
skip_slash (c ∷ cs) = let rest = skip_slash cs in if c == b'/' then rest else c ∷ cs

abbrev pub found_entry : Option (Bool × Option Dirent) → Option Dirent
found_entry none = none
found_entry (some (false, found)) = none
found_entry (some (true, found)) = found

module _ (fuel : ℕ) (m : Volume) (entries : ℕ → List Dirent) (stack : ℕ → ℕ) where
  -- The loop over the components, at most `n` of them, in the directory `cur`. A directory that is named with a
  -- slash at the end is found with its own cluster.
  pub resolve_from : ℕ → ℕ → List ℕ → Resolved
  resolve_from zero cur path = missing
  resolve_from (suc n) cur path =
      let split = split_slash path in
      if leb 56 (length split.0)
      then missing
      else elim (found_entry
          (fat_scan_dir (fat_scan_find_cb split.0) fuel m entries stack cur none)) [
            | none ↦ missing
            | some e ↦ elim split.1 [
              | none ↦ resolved cur split.0 e
              | some tail ↦ if not (is_dir e) then missing else elim (skip_slash tail) [
                | [] ↦ resolved (first_cluster e) split.0 e
                | c ∷ cs ↦ resolve_from n (first_cluster e) (c ∷ cs)
              ]
            ]
          ]

  pub fat_resolve_path : ℕ → List ℕ → Resolved
  fat_resolve_path root path = elim (skip_slash path) [
    | [] ↦ the_root
    | c ∷ cs ↦ resolve_from (length path) root (c ∷ cs)
  ]
