-- ===== src/Fat/Journal/Tests.antt =====
-- A transaction of one sector on a disk kept in memory.
use lnxrm.Base.{ℕ, ◌≡◌, refl, true, [], ◌∷◌}
use lnxrm.Base.Words.{pos}
use lnxrm.Disk.Memory.{Table, table_driver, disks}
use lnxrm.BlkCache.{Cache, blk_cache_init, blk_cache_flush}
use lnxrm.BlkCache.View.{IsCoherent, view, Keeps}
use lnxrm.BlkCache.Flush.{blk_cache_init_lem}
use lnxrm.BlkCache.Writes.{blk_cache_write_status}
use lnxrm.Fat.Journal.{
  Journal, committed, write_all, fat32_journal_add, fat32_journal_commit, fat32_journal_abort,
  journaled_write,
}
use lnxrm.Fat.Journal.Commit.{latest, Agrees, fat32_journal_commit_lem, journaled_write-Agrees}

abbrev empty_cache : Cache Table
empty_cache = blk_cache_init table_driver disks

empty_cache-IsCoherent : IsCoherent table_driver empty_cache
empty_cache-IsCoherent = (blk_cache_init_lem table_driver disks).0

-- A transaction has just begun.
abbrev begun : Journal
begun = record { entries = []; active = true; dev = 0 }

begun-Agrees : Agrees table_driver begun empty_cache
unfolding latest
begun-Agrees l v e = cc

added : (fat32_journal_add 7 (1 ∷ []) begun).0 ≡ pos 0
unfolding fat32_journal_add
added = refl

-- The sector is in the cache and in the journal.
abbrev pending : Journal × Cache Table
pending = journaled_write table_driver 7 (1 ∷ []) (begun, empty_cache)

ready : IsCoherent table_driver pending.1 × Agrees table_driver pending.0 pending.1
ready =
    (journaled_write-Agrees table_driver begun empty_cache 7 (1 ∷ []) empty_cache-IsCoherent
      begun-Agrees added
      (blk_cache_write_status table_driver 0 7 (1 ∷ []) empty_cache (λ d e l w. refl)))

one_entry : (write_all table_driver pending.0.entries pending.0.dev pending.1.disks).0 ≡ 0
unfolding write_all journaled_write fat32_journal_add
one_entry = refl

is_live : pending.0.active ≡ true
unfolding journaled_write fat32_journal_add
is_live = refl

fat32_journal_commit_lem_example :
    let written : Cache Table = record pending.1 {
      disks = (write_all table_driver pending.0.entries pending.0.dev pending.1.disks).1;
    } in
    let flushed = blk_cache_flush table_driver pending.0.dev written in
    (fat32_journal_commit table_driver pending.0 pending.1
      ≡ (committed, fat32_journal_abort pending.0, flushed.1))
    × Keeps table_driver pending.1 flushed.1
    × (flushed.0 ≡ 0
        → (l : ℕ) → flushed.1.disks pending.0.dev l ≡ view table_driver pending.1 pending.0.dev l)
fat32_journal_commit_lem_example =
    fat32_journal_commit_lem table_driver pending.0 pending.1 ready.0 is_live ready.1 one_entry
