-- ===== src/Fat/Tests.antt =====
-- A small volume, for the cluster chains and the mount of kernel/fs/fat32.
use lnxrm.Base.{ℕ, ◌+◌, ◌*◌, ◌<◌, ◌≤◌, ◌≡◌, refl, true, some, [], ◌∷◌, ◌==◌, if◌then◌else◌, arith}
use lnxrm.Base.Links.{has}
use lnxrm.Fat.{Volume, free_chain, cluster_is_eoc, fat_next_cluster, eoc_mark}
use lnxrm.Fat.Chains.{Chain, stop, link, entry, free_chain_lem}
use lnxrm.Fat.Mount.{
  Bpb, FitsWidths, Geometry, geometry, fat_mount, fat_mount_bounds, cluster_lba, bad_geometry,
  sectors_in_use, data_start,
}

-- Eight clusters: a file in 2, 4 and 3, and nothing else.
abbrev small : Volume
small = record {
  bytes_per_sector = 512;
  cluster_size = 1024;
  max_cluster = 8;
  table = λ k. if k == 2 then 4 else if k == 4 then 3 else if k == 3 then eoc_mark else 0;
  on_disk = λ k. 0;
}

small-Chain : Chain small 2 (2 ∷ 4 ∷ 3 ∷ [])
unfolding cluster_is_eoc fat_next_cluster
small-Chain =
    link refl (omega arith) refl
      (link refl (omega arith) refl (link refl (omega arith) refl (stop refl)))

free_chain_lem_example :
    (m' : Volume) × (free_chain true 3 small 2 ≡ some m')
    × ((k : ℕ) → entry m' k ≡ (if has k (2 ∷ 4 ∷ 3 ∷ []) then 0 else entry small k))
free_chain_lem_example = free_chain_lem true 3 small 2 (2 ∷ 4 ∷ 3 ∷ []) small-Chain (omega arith)

-- A volume of 40,000 sectors.
abbrev block : Bpb
block = record {
  bytes_per_sector = 512;
  sectors_per_cluster = 8;
  reserved_sectors = 32;
  num_fats = 2;
  rootents = 0;
  totsec16 = 0;
  fatsz16 = 0;
  totsec32 = 40000;
  fatsz32 = 300;
  root_cluster = 2;
}

abbrev mounted : Geometry
mounted = geometry block 40000

accepted : fat_mount block 512 50000 true ≡ some mounted
unfolding fat_mount bad_geometry sectors_in_use data_start
accepted = refl

block-FitsWidths : FitsWidths block
block-FitsWidths = record {
  bytes_per_sector = omega arith;
  sectors_per_cluster = omega arith;
  reserved_sectors = omega arith;
  num_fats = omega arith;
  rootents = omega arith;
  totsec16 = omega arith;
  fatsz16 = omega arith;
  totsec32 = omega arith;
  fatsz32 = omega arith;
}

fat_mount_bounds_example :
    (mounted.max_cluster * 4 ≤ mounted.fat_bytes)
    × ((clus : ℕ)
        → 2 ≤ clus
        → clus < mounted.max_cluster
        → cluster_lba mounted clus + mounted.sectors_per_cluster ≤ 50000)
    × (2 ≤ mounted.root_cluster)
    × (512 ≤ mounted.cluster_size)
    × (mounted.cluster_size ≤ 4096 * 255)
fat_mount_bounds_example =
    fat_mount_bounds block 512 50000 true mounted block-FitsWidths (omega arith) (λ e. ground arith)
      accepted
