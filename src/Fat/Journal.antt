-- ===== src/Fat/Journal.antt =====
-- kernel/fs/fat32/fat32_journal.c: the buffer of sectors that a transaction writes, and its commit to the
-- device, around the sector cache. Only the entries below `count` are looked at, and all of them are
-- valid, so they are a list.
pub mod Commit
mod Tests
use lnxrm.Base.{
  ℕ, zero, suc, Bool, true, false, not, List, [], ◌∷◌, ◌++◌, ◌==◌, leb, if◌then◌else◌, length,
}
use lnxrm.Base.Words.{ℤ, pos, neg}
use lnxrm.Disk.{Driver, Sector}
use lnxrm.BlkCache.{Cache, blk_cache_flush, blk_cache_write}

pub record Pending : Type 0 where
  pub lba : ℕ
  pub bytes : Sector

pub record Journal : Type 0 where
  pub entries : List Pending
  pub active : Bool
  pub dev : ℕ

abbrev pub max_journal_entries : ℕ
max_journal_entries = 32

abbrev pub fat32_journal_init : ℕ → Journal
fat32_journal_init dev = record { entries = []; active = false; dev = dev }

-- Statuses: 0, LNXRM_EFAIL (-1) and LNXRM_ENOENT (-2).
pub fat32_journal_begin : Journal → ℤ × Journal
fat32_journal_begin j =
    if j.active then (neg 1, j) else (pos 0, record j { entries = []; active = true })

pub fat32_journal_add : ℕ → Sector → Journal → ℤ × Journal
fat32_journal_add lba v j =
    if not j.active
    then (neg 1, j)
    else if leb max_journal_entries (length j.entries)
    then (neg 2, j)
    else (pos 0, record j { entries = j.entries ++ (record { lba = lba; bytes = v } ∷ []) })

abbrev pub fat32_journal_abort : Journal → Journal
fat32_journal_abort j = record j { entries = []; active = false }

-- How a commit ends: without a transaction, at a failed write, or with every write done.
pub data Ending : Type 0 where
  inactive committed : Ending
  stopped : ℕ → Ending

module _ (drv : Driver) where
  open drv use {Disks, write}

  -- The loop over the entries: the first status that is not 0 ends it.
  pub write_all : List Pending → ℕ → Disks → ℕ × Disks
  write_all [] dev d = (0, d)
  write_all (p ∷ ps) dev d =
      let (status, d') = write d dev p.lba p.bytes in
      let rest = write_all ps dev d' in if status == 0 then rest else (status, d')

  -- The status of the flush is dropped.
  pub fat32_journal_commit : Journal → Cache Disks → Ending × Journal × Cache Disks
  fat32_journal_commit j s =
      let (status, d) = write_all j.entries j.dev s.disks in
      let written : Cache Disks = record s { disks = d } in
      let (dropped, s') = blk_cache_flush drv j.dev written in
      if not j.active
      then (inactive, j, s)
      else if status == 0
      then (committed, fat32_journal_abort j, s')
      else (stopped status, fat32_journal_abort j, written)

  -- How `fat_write_impl` of fat32_file.c writes a sector in a transaction: neither status is looked at.
  pub journaled_write : ℕ → Sector → Journal × Cache Disks → Journal × Cache Disks
  journaled_write lba v (j, s) =
      ((fat32_journal_add lba v j).1, (blk_cache_write drv j.dev lba v s).1)
