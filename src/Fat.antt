-- ===== src/Fat.antt =====
-- kernel/fs/fat32/fat32.c and the cluster chains of fat32_file.c and fat32_meta.c: the cached FAT, and
-- how chains are walked, grown and freed. All of it runs under `fat_fs_lock`.
pub mod Chains
pub mod Extend
pub mod Grow
pub mod Mount
pub mod Journal
pub mod Names
pub mod Scan
mod Lookups
mod Tests
use lnxrm.Base.{
  ℕ, zero, suc, ◌+◌, ◌-◌, ◌*◌, ◌/◌, ◌%◌, ◌^◌, Bool, true, false, not, ◌&&◌, ◌||◌, Option, none,
  some, List, [], ◌∷◌, ◌==◌, ltb, leb, if◌then◌else◌, update,
}

-- The part of `struct fat_mount` that the table needs. `table` holds the 32-bit entries in memory and
-- `on_disk` those of the first FAT on the device.
pub record Volume : Type 0 where
  pub bytes_per_sector : ℕ
  pub cluster_size : ℕ
  pub max_cluster : ℕ
  pub table : ℕ → ℕ
  pub on_disk : ℕ → ℕ

abbrev pub eoc_mark : ℕ
eoc_mark = 0x0fff_ffff

pub cluster_is_eoc : ℕ → Bool
cluster_is_eoc c = leb 0x0fff_fff8 c

pub fat_next_cluster : Volume → ℕ → ℕ
fat_next_cluster m clus = if leb m.max_cluster clus then eoc_mark else m.table clus % 2 ^ 28

-- `(old & 0xF0000000) | (val & 0x0FFFFFFF)` of two 32-bit words.
abbrev pub merge_entry : ℕ → ℕ → ℕ
merge_entry old val = old / 2 ^ 28 * 2 ^ 28 + val % 2 ^ 28

-- The write of one sector of the table, when the device takes it: its entries reach the disk. Sectors have a
-- power of two of bytes, so the code's mask finds the sector of the entry.
abbrev pub write_back : Volume → ℕ → Volume
write_back m clus = record m {
  on_disk = λ k.
      if k * 4 / m.bytes_per_sector == clus * 4 / m.bytes_per_sector
      then m.table k
      else m.on_disk k;
}

-- `taken` is whether the device takes the write; the code does not look.
pub fat_set_entry : Bool → Volume → ℕ → ℕ → Volume
fat_set_entry taken m clus val =
    if leb m.max_cluster clus
    then m
    else (let m' = record m { table = update m.table clus (merge_entry (m.table clus) val) } in
        if taken then write_back m' clus else m')

abbrev pub is_free : Volume → ℕ → Bool
is_free m i = m.table i % 2 ^ 28 == 0

-- The loop from cluster `i` on, with `n` clusters left; 0 when none is free.
pub free_from : ℕ → ℕ → Volume → ℕ
free_from zero i m = 0
free_from (suc n) i m = let rest = free_from n (i + 1) m in if is_free m i then i else rest

pub fat_find_free_cluster : Volume → ℕ
fat_find_free_cluster m = free_from (m.max_cluster - 2) 2 m

pub count_free : ℕ → ℕ → Volume → ℕ
count_free zero i m = 0
count_free (suc n) i m = (if is_free m i then 1 else 0) + count_free n (i + 1) m

pub fat_freespace : Volume → ℕ
fat_freespace m = count_free (m.max_cluster - 2) 2 m * m.cluster_size

-- Does a walk end at `c`?
abbrev pub ends_at : ℕ → Bool
ends_at c = cluster_is_eoc c || ltb c 2

-- The loop that frees a chain in `fat_unlink_impl` and `fat_rmdir_impl`. `none` is that the fuel ran out.
pub free_chain : Bool → ℕ → Volume → ℕ → Option Volume
free_chain taken zero m clus = if ends_at clus then some m else none
free_chain taken (suc n) m clus =
    let rest = free_chain taken n (fat_set_entry taken m clus 0) (fat_next_cluster m clus) in
    if ends_at clus then some m else rest

-- The walk of `alloc_chain` to the end of the chain: the last cluster and the number of clusters.
pub walk_chain : ℕ → Volume → ℕ → ℕ → ℕ → Option (ℕ × ℕ)
walk_chain zero m c prev cnt = if ends_at c then some (prev, cnt) else none
walk_chain (suc n) m c prev cnt =
    let rest = walk_chain n m (fat_next_cluster m c) c (cnt + 1) in
    if ends_at c then some (prev, cnt) else rest

-- The loop that appends `n` clusters behind `prev` (0 for an empty chain). The result is the head, or
-- 0 when the disk is full, with the volume as it is then.
pub grow : Bool → ℕ → Volume → ℕ → ℕ → ℕ × Volume
grow taken zero m head prev = (head, m)
grow taken (suc n) m head prev =
    let nc = fat_find_free_cluster m in
    let m1 = fat_set_entry taken m nc eoc_mark in
    let linked = if prev == 0 then m1 else fat_set_entry taken m1 prev nc in
    let rest = grow taken n linked (if prev == 0 then nc else head) nc in
    if nc == 0 then (0, m) else rest

-- A 32-bit number of clusters that cover `need` bytes.
abbrev pub clusters_for : Volume → ℕ → ℕ
clusters_for m need = (need + m.cluster_size - 1) / m.cluster_size % 2 ^ 32

-- `alloc_chain`: a `first` that is an end mark counts as a chain without clusters.
pub alloc_chain : Bool → ℕ → Volume → ℕ → ℕ → Option (ℕ × Volume)
unfolding walk_chain grow
alloc_chain taken fuel m first need =
    if first == 0 || cluster_is_eoc first
    then some (grow taken (clusters_for m need) m first 0)
    else elim (walk_chain fuel m first 0 0) [
      | none ↦ none
      | some (prev, cnt) ↦ some (grow taken (clusters_for m need - cnt) m first prev)
    ]
