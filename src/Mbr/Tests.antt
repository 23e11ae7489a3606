-- ===== src/Mbr/Tests.antt =====
-- Checks of the partition table code on a small disk.
use lnxrm.Base.{
  ℕ, ◌+◌, ◌≡◌, inl, inr, refl, some, true, false, [], ◌∷◌, ◌++◌, ◌&&◌, leb, ltb, if◌then◌else◌,
  replicate, arith,
}
use lnxrm.Disk.{Sector}
use lnxrm.Mbr.{PartDev, mbr_parse, part_write, part_name}
use lnxrm.Mbr.Table.{mbr_parse_lem, boot_from, parts_from}
use lnxrm.Mbr.Isolation.{part_write-Apart}

-- An active FAT32 partition at sector 0x04030201, behind an empty entry, and an extended one.
abbrev boot_sector : Sector
boot_sector =
    replicate 446 0
    ++ replicate 16 0
    ++ (0x80 ∷ 17 ∷ 18 ∷ 19 ∷ 0x0C ∷ 20 ∷ 21 ∷ 22 ∷ 1 ∷ 2 ∷ 3 ∷ 4 ∷ 5 ∷ 6 ∷ 7 ∷ 8 ∷ [])
    ++ (0 ∷ 23 ∷ 24 ∷ 25 ∷ 15 ∷ 26 ∷ 27 ∷ 28 ∷ 9 ∷ 10 ∷ 11 ∷ 12 ∷ 13 ∷ 14 ∷ 15 ∷ 16 ∷ [])
    ++ replicate 16 0
    ++ (0x55 ∷ 0xAA ∷ [])

mbr_parse_lem_example :
    mbr_parse 4096 (0, boot_sector)
    ≡ some (record {
      total_sectors = 4096;
      boot_ind = 0;
      parts =
          record {
            type = 12;
            lba_first = 0x04030201;
            sectors_count = 0x08070605;
            is_extended = false;
          }
          ∷ record {
            type = 15;
            lba_first = 0x0C0B0A09;
            sectors_count = 0x100F0E0D;
            is_extended = true;
          }
          ∷ [];
    })
unfolding boot_from parts_from
mbr_parse_lem_example = mbr_parse_lem 4096 0 boot_sector

named : part_name (b's' ∷ b'd' ∷ []) 0 ≡ b's' ∷ b'd' ∷ b'1' ∷ []
unfolding part_name
named = refl

-- A disk of numbers, where a write fills sectors with one number.
abbrev put : ℕ → ℕ → ℕ → (ℕ → ℕ) → ℕ × (ℕ → ℕ)
put lba count v d = (0, λ m. if leb lba m && ltb m (lba + count) then v else d m)

abbrev first_part : PartDev
first_part = record { start_lba = 100; size_sectors = 50 }

abbrev second_part : PartDev
second_part = record { start_lba = 150; size_sectors = 50 }

part_write-Apart_example : (part_write put first_part 49 1 7 (λ m. m)).1 (150 + 0) ≡ 150
part_write-Apart_example =
    part_write-Apart (λ d m. d m) put
      (λ lba count v d m h. elim h [ inl e ↦ ground arith | inr e ↦ ground arith ]) first_part
      second_part 49 1 0 7 (λ m. m) (omega arith) (omega arith) (omega arith) (inl (omega arith))
      (omega arith)
