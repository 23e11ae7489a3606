-- ===== src/BlkCache/Tests.antt =====
-- The sector cache on a small disk, for the calls of kernel/fs/blk_cache.c.
use lnxrm.Base.{ℕ, ◌≡◌, refl, true, false, [], ◌∷◌, arith}
use lnxrm.Disk.Memory.{Table, table_driver, disks}
use lnxrm.BlkCache.{Cache, blk_cache_init, blk_cache_read, blk_cache_write, blk_cache_flush}
use lnxrm.BlkCache.View.{IsCoherent, view, Keeps}
use lnxrm.BlkCache.Calls.{Reads, Writes, blk_cache_read-Reads}
use lnxrm.BlkCache.Writes.{blk_cache_write-Writes}
use lnxrm.BlkCache.Flush.{blk_cache_flush_lem, blk_cache_init_lem}

abbrev empty_cache : Cache Table
empty_cache = blk_cache_init table_driver disks

empty_cache-IsCoherent : IsCoherent table_driver empty_cache
empty_cache-IsCoherent = (blk_cache_init_lem table_driver disks).0

-- Every entry holds a clean sector of device 0.
abbrev full_cache : Cache Table
full_cache = record {
  entries =
      λ i. record { lba = i; bytes = disks 0 i; valid = true; dirty = false; used = true; dev = 0 };
  disks = disks;
}

full_cache-IsCoherent : IsCoherent table_driver full_cache
full_cache-IsCoherent = record {
  unique = λ i j dev lba a b p q. ground arith;
  clean = λ i a p q. refl;
}

blk_cache_read-Reads_example :
    Reads table_driver empty_cache 0 7 (blk_cache_read table_driver 0 7 empty_cache)
blk_cache_read-Reads_example =
    blk_cache_read-Reads table_driver 0 7 empty_cache empty_cache-IsCoherent

blk_cache_write-Writes_example :
    Writes table_driver full_cache 2 7
      (1 ∷ [])
      (blk_cache_write table_driver 2 7 (1 ∷ []) full_cache)
blk_cache_write-Writes_example =
    blk_cache_write-Writes table_driver 2 7 (1 ∷ []) full_cache full_cache-IsCoherent

blk_cache_flush_lem_example :
    Keeps table_driver full_cache (blk_cache_flush table_driver 0 full_cache).1
    × ((blk_cache_flush table_driver 0 full_cache).0 ≡ 0
        → (lba : ℕ)
        → (blk_cache_flush table_driver 0 full_cache).1.disks 0 lba
          ≡ view table_driver full_cache 0 lba)
blk_cache_flush_lem_example = blk_cache_flush_lem table_driver 0 full_cache full_cache-IsCoherent
