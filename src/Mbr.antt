-- ===== src/Mbr.antt =====
-- kernel/fs/mbr.c: the partition table of a disk and the partitions as block devices. Integers on the
-- disk are little-endian; a status of 0 is success.
pub mod Table
pub mod Isolation
mod Tests
use Prim.Native.String.{String}
use lnxrm.Base.{
  ℕ, zero, suc, ◌+◌, ◌*◌, ◌/◌, ◌%◌, ◌^◌, Bool, true, false, not, ◌||◌, Option, none, some, List, [],
  ◌∷◌, ◌++◌, ◌==◌, ltb, if◌then◌else◌, length, get_elem?, get_or, take,
}
use lnxrm.Base.Words.{ℤ, pos, negsuc, add64}
use lnxrm.Disk.{Sector}

abbrev pub efail : ℕ
efail = 0xffff_ffff

abbrev pub mbr_signature : ℕ
mbr_signature = 0xAA55

abbrev pub mbr_max_partitions : ℕ
mbr_max_partitions = 4

-- The fields of `struct mbr_entry` that are read.
pub record Entry : Type 0 where
  pub status : ℕ
  pub type : ℕ
  pub lba_first : ℕ
  pub sectors_count : ℕ

pub record Part : Type 0 where
  pub type : ℕ
  pub lba_first : ℕ
  pub sectors_count : ℕ
  pub is_extended : Bool

-- `parts` has the first `part_count` elements of the array.
pub record MbrInfo : Type 0 where
  pub total_sectors : ℕ
  pub boot_ind : ℕ
  pub parts : List Part

abbrev pub le16 : Sector → ℕ → ℕ
le16 b i = get_or b i 0 + 256 * get_or b (i + 1) 0

abbrev pub le32 : Sector → ℕ → ℕ
le32 b i = le16 b i + 65536 * le16 b (i + 2)

-- The `i`-th element of the table in the sector.
abbrev pub entry_at : Sector → ℕ → Entry
entry_at b i = record {
  status = get_or b (446 + i * 16) 0;
  type = get_or b (446 + i * 16 + 4) 0;
  lba_first = le32 b (446 + i * 16 + 8);
  sectors_count = le32 b (446 + i * 16 + 12);
}

abbrev pub is_active : Entry → Bool
is_active e = e.status / 128 % 2 == 1

abbrev pub part_of : Entry → Part
part_of e = record {
  type = e.type;
  lba_first = e.lba_first;
  sectors_count = e.sectors_count;
  is_extended = e.type == 5 || e.type == 15;
}

-- The body of the loop: `out->parts[out->part_count++]` is an append.
pub add_entry : Entry → MbrInfo → MbrInfo
add_entry e out = if e.type == 0 then out else record out {
  parts = out.parts ++ (part_of e ∷ []);
  boot_ind = if is_active e then length out.parts else out.boot_ind;
}

-- The loop from entry `i` on, with `n` entries left.
pub parse_from : Sector → ℕ → ℕ → MbrInfo → MbrInfo
parse_from b zero i out = out
parse_from b (suc n) i out = parse_from b n (i + 1) (add_entry (entry_at b i) out)

-- `result` is what reading sector 0 answered, with the buffer. `boot_ind` is a byte, and -1 is 255.
pub mbr_parse : ℕ → ℕ × Sector → Option MbrInfo
mbr_parse num_sectors result =
    let start : MbrInfo = record {
      total_sectors = num_sectors % 2 ^ 32;
      boot_ind = 255;
      parts = [];
    } in
    if not (result.0 == 0)
    then none
    else if le16 result.1 510 == mbr_signature
    then some (parse_from result.1 mbr_max_partitions 0 start)
    else none

-- `struct part_dev`, without the parent.
pub record PartDev : Type 0 where
  pub start_lba : ℕ
  pub size_sectors : ℕ

-- The fields that `mbr_get_partition` sets in the device.
pub record PartBlk : Type 0 where
  pub name : List ℕ
  pub sector_size : ℕ
  pub num_sectors : ℕ
  pub drv : PartDev

-- The name of the parent is cut after 12 characters, and the digit follows.
pub part_name : List ℕ → ℕ → List ℕ
part_name src index = take 12 src ++ ((b'0' + index + 1) ∷ [])

-- `have_memory` is whether `kmalloc` finds room for the `struct part_dev`.
pub mbr_get_partition : MbrInfo → ℤ → Bool → List ℕ → ℕ → Option PartBlk
mbr_get_partition mbr (negsuc n) have_memory src sector_size = none
mbr_get_partition mbr (pos index) have_memory src sector_size = elim (get_elem? mbr.parts index) [
  | none ↦ none
  | some p ↦
      if have_memory
      then some (record {
        name = part_name src index;
        sector_size = sector_size;
        num_sectors = p.sectors_count;
        drv = record { start_lba = p.lba_first; size_sectors = p.sectors_count };
      })
      else none
]

-- Reading and writing through a partition. `read` and `write` are the parent's; a buffer or a disk is
-- what they change.
module _ {A : Type 0} where
  pub part_read : (ℕ → ℕ → A → ℕ × A) → PartDev → ℕ → ℕ → A → ℕ × A
  part_read read pd lba count buf =
      if ltb pd.size_sectors (add64 lba count)
      then (efail, buf)
      else read (add64 pd.start_lba lba) count buf

module _ {A B : Type 0} where
  pub part_write : (ℕ → ℕ → B → A → ℕ × A) → PartDev → ℕ → ℕ → B → A → ℕ × A
  part_write write pd lba count buf disk =
      if ltb pd.size_sectors (add64 lba count)
      then (efail, disk)
      else write (add64 pd.start_lba lba) count buf disk

pub mbr_type_name : ℕ → String
mbr_type_name type =
    if type == 0x00
    then "Empty"
    else if type == 0x01
    then "FAT12"
    else if type == 0x04
    then "FAT16 (<32MB)"
    else if type == 0x05
    then "Extended"
    else if type == 0x06
    then "FAT16"
    else if type == 0x0B
    then "FAT32"
    else if type == 0x0C
    then "FAT32 LBA"
    else if type == 0x0E
    then "FAT16 LBA"
    else if type == 0x0F
    then "Extended LBA"
    else if type == 0x83
    then "Linux (ext2/3/4)"
    else if type == 0x82
    then "Linux Swap"
    else "Unknown"
