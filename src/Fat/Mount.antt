-- ===== src/Fat/Mount.antt =====
-- `fat_mount` of kernel/fs/fat32/fat32.c: the geometry that it accepts, and the bounds that keep later
-- table and sector accesses inside the buffer and the device.
use lnxrm.Base.{
  ℕ, ◌+◌, ◌-◌, ◌*◌, ◌/◌, ◌%◌, ◌^◌, ◌≤◌, ◌<◌, ◌≡◌, ◌≢◌, ◌⊎◌, Bool, false, not, ◌&&◌, ◌||◌, Option,
  none, some, ◌==◌, ltb, leb, if◌then◌else◌, arith,
}
use native.Mathlib.Nat.{le_trans, mul-le-mul, mul-le-mul_right, div-add-mod}

-- The fields of the BIOS parameter block that are read, by their widths: `sectors_per_cluster` and
-- `num_fats` are bytes, `fatsz32`, `totsec32` and `root_cluster` 32-bit, the others 16-bit words.
pub record Bpb : Type 0 where
  pub bytes_per_sector : ℕ
  pub sectors_per_cluster : ℕ
  pub reserved_sectors : ℕ
  pub num_fats : ℕ
  pub rootents : ℕ
  pub totsec16 : ℕ
  pub fatsz16 : ℕ
  pub totsec32 : ℕ
  pub fatsz32 : ℕ
  pub root_cluster : ℕ

pub record FitsWidths (b : Bpb) : Type 0 where
  pub bytes_per_sector : b.bytes_per_sector < 2 ^ 16
  pub sectors_per_cluster : b.sectors_per_cluster < 2 ^ 8
  pub reserved_sectors : b.reserved_sectors < 2 ^ 16
  pub num_fats : b.num_fats < 2 ^ 8
  pub rootents : b.rootents < 2 ^ 16
  pub totsec16 : b.totsec16 < 2 ^ 16
  pub fatsz16 : b.fatsz16 < 2 ^ 16
  pub totsec32 : b.totsec32 < 2 ^ 32
  pub fatsz32 : b.fatsz32 < 2 ^ 32

-- `struct fat_mount` without its buffers.
pub record Geometry : Type 0 where
  pub bytes_per_sector : ℕ
  pub sectors_per_cluster : ℕ
  pub cluster_size : ℕ
  pub reserved_sectors : ℕ
  pub fatsz : ℕ
  pub root_cluster : ℕ
  pub data_start_lba : ℕ
  pub max_cluster : ℕ
  pub fat_bytes : ℕ

abbrev pub or_else : ℕ → ℕ → ℕ
or_else a b = if a == 0 then b else a

unfoldable pub bad_geometry : Bpb → ℕ → Bool
bad_geometry b sector_size =
    not (b.bytes_per_sector == sector_size)
    || ltb 4096 b.bytes_per_sector
    || b.sectors_per_cluster == 0
    || or_else b.fatsz16 b.fatsz32 == 0
    || b.reserved_sectors == 0
    || not (b.num_fats == 1 || b.num_fats == 2)
    || ltb b.root_cluster 2
    || not (b.fatsz16 == 0) && not (b.sectors_per_cluster == 0)

-- The number of sectors, clamped to the device's where both are known.
unfoldable pub sectors_in_use : Bpb → ℕ → ℕ
sectors_in_use b num_sectors =
    let totsec = or_else b.totsec16 b.totsec32 in
    if not (totsec == 0) && not (num_sectors == 0) && ltb num_sectors totsec
    then num_sectors % 2 ^ 32
    else totsec

unfoldable pub data_start : Bpb → ℕ
data_start b =
    b.reserved_sectors
    + b.num_fats * or_else b.fatsz16 b.fatsz32
    + (b.rootents * 32 + b.bytes_per_sector - 1) / b.bytes_per_sector

-- The clamp of the cluster range to what the table can hold; the product is a 32-bit one.
pub clamp_clusters : ℕ → ℕ → ℕ → ℕ
clamp_clusters clusters fatsz bytes_per_sector =
    let entries = fatsz * bytes_per_sector % 2 ^ 32 / 4 in
    if leb entries clusters then (if entries == 0 then 2 else entries - 1) else clusters

pub geometry : Bpb → ℕ → Geometry
geometry b totsec = record {
  bytes_per_sector = b.bytes_per_sector;
  sectors_per_cluster = b.sectors_per_cluster;
  cluster_size = b.bytes_per_sector * b.sectors_per_cluster;
  reserved_sectors = b.reserved_sectors;
  fatsz = or_else b.fatsz16 b.fatsz32;
  root_cluster = b.root_cluster;
  data_start_lba = data_start b;
  max_cluster =
      clamp_clusters ((totsec - data_start b) / b.sectors_per_cluster + 2)
        (or_else b.fatsz16 b.fatsz32) b.bytes_per_sector;
  fat_bytes = or_else b.fatsz16 b.fatsz32 * b.bytes_per_sector;
}

-- `loads` is whether the table's buffer was allocated and read.
unfoldable pub fat_mount : Bpb → ℕ → ℕ → Bool → Option Geometry
fat_mount b sector_size num_sectors loads =
    if bad_geometry b sector_size
    then none
    else if leb (sectors_in_use b num_sectors) (data_start b)
    then none
    else if loads
    then some (geometry b (sectors_in_use b num_sectors))
    else none

-- `cluster_lba` of include/fat32_priv.h, for a cluster from 2 on.
pub cluster_lba : Geometry → ℕ → ℕ
cluster_lba m clus = m.data_start_lba + (clus - 2) * m.sectors_per_cluster

product_bound : (f b : ℕ) → 512 ≤ b → 0 < f → 512 ≤ f * b
product_bound f b lo pos = grind arith

clamp_bounds :
    (c f b : ℕ)
    → 512 ≤ b
    → 0 < f
    → (clamp_clusters c f b * 4 ≤ f * b) × ((clamp_clusters c f b ≤ c) ⊎ (clamp_clusters c f b ≤ 2))
unfolding clamp_clusters
clamp_bounds c f b lo pos =
    (ground (arith, product_bound f b lo pos), ground (arith, product_bound f b lo pos))

size_low : (b c : ℕ) → 512 ≤ b → 0 < c → 512 ≤ b * c
size_low b c lo pos = grind arith

-- Whole clusters fit in front of the end of the sectors.
cluster_fits : (k room spc : ℕ) → 0 < spc → k < room / spc → k * spc + spc ≤ room
cluster_fits k room spc pos h =
    let whole : (k + 1) * spc ≤ room / spc * spc = mul-le-mul_right spc h' in
    omega (arith, div-add-mod room spc)
  where
    h' : k + 1 ≤ room / spc
    h' = omega arith

in_use_bound : (b : Bpb) (n : ℕ) → FitsWidths b → n ≢ 0 → sectors_in_use b n ≤ n
unfolding sectors_in_use
in_use_bound b n w ne = ground (arith, w.totsec32, w.totsec16)

fat_mount_accepts :
    (b : Bpb) (ss ns : ℕ) (loads : Bool) (m : Geometry)
    → fat_mount b ss ns loads ≡ some m
    → (bad_geometry b ss ≡ false)
      × (data_start b < sectors_in_use b ns)
      × (m ≡ geometry b (sectors_in_use b ns))
unfolding fat_mount
fat_mount_accepts b ss ns loads m e = (ground arith, ground arith, ground arith)

good_fields :
    (b : Bpb) (ss : ℕ)
    → bad_geometry b ss ≡ false
    → (b.bytes_per_sector ≡ ss)
      × (ss ≤ 4096)
      × (0 < b.sectors_per_cluster)
      × (0 < or_else b.fatsz16 b.fatsz32)
      × (2 ≤ b.root_cluster)
unfolding bad_geometry
good_fields b ss e = (ground arith, ground arith, ground arith, ground arith, ground arith)

cluster_in_room :
    (b : Bpb) (tot clus : ℕ)
    → 0 < b.sectors_per_cluster
    → 512 ≤ b.bytes_per_sector
    → 0 < or_else b.fatsz16 b.fatsz32
    → data_start b < tot
    → 2 ≤ clus
    → clus < (geometry b tot).max_cluster
    → cluster_lba (geometry b tot) clus + b.sectors_per_cluster ≤ tot
unfolding geometry cluster_lba
cluster_in_room b tot clus spc lo fs room two h =
    let bounds =
      clamp_bounds ((tot - data_start b) / b.sectors_per_cluster + 2) (or_else b.fatsz16 b.fatsz32)
        b.bytes_per_sector lo fs in
    let fits =
      cluster_fits (clus - 2) (tot - data_start b) b.sectors_per_cluster spc
        (omega (arith, bounds.1)) in
    omega (arith, fits)

-- On a device that tells its number of sectors, each of 512 bytes or more, and for a parameter block whose fields
-- have their widths, a volume that is mounted has all table entries below `max_cluster` inside the buffer of
-- the FAT and all clusters below it inside the device. Its root cluster is at least 2, and a cluster has from
-- 512 bytes to 4096 * 255.
pub fat_mount_bounds :
    (b : Bpb) (sector_size num_sectors : ℕ) (loads : Bool) (m : Geometry)
    → FitsWidths b
    → 512 ≤ sector_size
    → num_sectors ≢ 0
    → fat_mount b sector_size num_sectors loads ≡ some m
    → (m.max_cluster * 4 ≤ m.fat_bytes)
      × ((clus : ℕ)
          → 2 ≤ clus
          → clus < m.max_cluster
          → cluster_lba m clus + m.sectors_per_cluster ≤ num_sectors)
      × (2 ≤ m.root_cluster)
      × (512 ≤ m.cluster_size)
      × (m.cluster_size ≤ 4096 * 255)
unfolding geometry
fat_mount_bounds b ss ns loads m w lo ne e =
    let (good, room, same) = fat_mount_accepts b ss ns loads m e in
    let (bps, hi, spc, fs, root) = good_fields b ss good in
    let tot : ℕ = sectors_in_use b ns in
    rw same (
      (clamp_bounds ((tot - data_start b) / b.sectors_per_cluster + 2) (or_else b.fatsz16 b.fatsz32)
          b.bytes_per_sector (omega arith) fs).0,
      λ clus two h.
          le_trans (cluster_in_room b tot clus spc (omega arith) fs room two h)
            (in_use_bound b ns w ne),
      root,
      size_low b.bytes_per_sector b.sectors_per_cluster (omega arith) spc,
      mul-le-mul {n₂ = 4096} {m₂ = 255} (omega arith) (omega (arith, w.sectors_per_cluster)),
    )
