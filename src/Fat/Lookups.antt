-- ===== src/Fat/Lookups.antt =====
-- Checks of the names and the scan of a directory with one file.
use lnxrm.Base.{ℕ, ◌≤◌, ◌≡◌, refl, false, some, List, [], ◌∷◌, ◌++◌, replicate, arith}
use lnxrm.Fat.{Volume, cluster_is_eoc, fat_next_cluster}
use lnxrm.Fat.Names.{name_to_short, fat_short_to_name, until_space}
use lnxrm.Fat.Names.Trip.{fat_short_to_name-trip}
use lnxrm.Fat.Scan.{
  Dirent, LfnState, lfn_entry, scan_entries, scan_chain, fat_scan_dir, entry_used, entry_name,
  until_nul,
}
use lnxrm.Fat.Scan.Assembly.{InBuffer, lfn_entry-InBuffer}
use lnxrm.Fat.Scan.Listing.{fat_dir_iter, collect}
use lnxrm.Fat.Scan.Listing.Cookies.{fat_dir_iter-lists, read_all}

fat_short_to_name-trip_example :
    fat_short_to_name (name_to_short (b'r' ∷ b'u' ∷ b'n' ∷ b'.' ∷ b'c' ∷ []))
    ≡ b'r' ∷ b'u' ∷ b'n' ∷ b'.' ∷ b'c' ∷ []
fat_short_to_name-trip_example =
    fat_short_to_name-trip (b'r' ∷ b'u' ∷ b'n' ∷ []) (b'c' ∷ []) refl refl (omega arith)
      (omega arith)

-- The entry of the file RUN.C.
abbrev run_entry : Dirent
run_entry =
    (b'R' ∷ b'U' ∷ b'N' ∷ 32 ∷ 32 ∷ 32 ∷ 32 ∷ 32 ∷ b'C' ∷ 32 ∷ 32 ∷ 0x20 ∷ []) ++ replicate 20 0

abbrev piece_entry : Dirent
piece_entry = 0x54 ∷ replicate 31 0x41

lfn_entry-InBuffer_example :
    (let start : LfnState = record { longname = λ i. 0; seq_max = 0; name_end = 0 } in
      InBuffer (lfn_entry piece_entry start)
      × ((i : ℕ) → 256 ≤ i → (lfn_entry piece_entry start).longname i ≡ start.longname i))
lfn_entry-InBuffer_example =
    lfn_entry-InBuffer piece_entry (record { longname = λ i. 0; seq_max = 0; name_end = 0 })
      (omega arith)

-- A volume whose clusters all end a chain.
abbrev small_volume : Volume
small_volume = record {
  bytes_per_sector = 512;
  cluster_size = 512;
  max_cluster = 10;
  table = λ k. 0x0fff_ffff;
  on_disk = λ k. 0x0fff_ffff;
}

abbrev run_name : List ℕ
run_name = b'r' ∷ b'u' ∷ b'n' ∷ b'.' ∷ b'c' ∷ []

-- A deleted entry and another file in front of RUN.C.
abbrev run_dir : List Dirent
run_dir =
    (0xE5 ∷ replicate 31 0) ∷ ((b'B' ∷ replicate 10 32) ++ (0x20 ∷ replicate 20 0)) ∷ run_entry ∷ []

listed :
    fat_scan_dir collect 5 small_volume (λ c. run_entry ∷ []) (λ i. 7) 2 []
    ≡ some (false, (run_name, 8) ∷ [])
unfolding fat_scan_dir scan_chain scan_entries collect entry_used entry_name until_nul
    fat_short_to_name until_space cluster_is_eoc fat_next_cluster
listed = refl

fat_dir_iter-lists_example :
    (fat_dir_iter 5 small_volume (λ c. run_entry ∷ []) (λ i. 7) 2 0
      ≡ some (256, some (run_name, 8)))
    × (read_all 5 small_volume (λ c. run_entry ∷ []) (λ i. 7) 2 2 0 ≡ some ((run_name, 8) ∷ []))
fat_dir_iter-lists_example =
    fat_dir_iter-lists 5 small_volume (λ c. run_entry ∷ []) (λ i. 7) 2 0 false ((run_name, 8) ∷ [])
      listed (omega arith)
