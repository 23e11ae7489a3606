-- ===== src/Disk.antt =====
-- include/sys/vfs.h: block devices. A device's driver is a parameter: its `read` and `write` take a
-- sector at a time and answer a status, 0 for success. The laws are what the callers rely on.
pub mod Memory
use lnxrm.Base.{ℕ, ◌≡◌, ◌≢◌, ◌⊎◌, List}

abbrev pub Sector : Type 0
Sector = List ℕ

-- All block devices together, named by numbers. `read d dev lba buf` is the status and what the
-- buffer holds afterwards, `buf` being what it held before.
pub record Driver : Type 1 where
  pub Disks : Type 0
  pub contents : Disks → ℕ → ℕ → Sector
  pub read : Disks → ℕ → ℕ → Sector → ℕ × Sector
  pub write : Disks → ℕ → ℕ → Sector → ℕ × Disks
  pub read_good :
      (d : Disks) (dev lba : ℕ) (buf : Sector)
      → (read d dev lba buf).0 ≡ 0
      → (read d dev lba buf).1 ≡ contents d dev lba
  pub write_good :
      (d : Disks) (dev lba : ℕ) (v : Sector)
      → (write d dev lba v).0 ≡ 0
      → contents (write d dev lba v).1 dev lba ≡ v
  pub write_elsewhere :
      (d : Disks) (dev lba : ℕ) (v : Sector) (e m : ℕ)
      → (e ≢ dev) ⊎ (m ≢ lba)
      → contents (write d dev lba v).1 e m ≡ contents d e m
