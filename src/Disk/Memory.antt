-- ===== src/Disk/Memory.antt =====
-- Block devices kept in memory, to run the code that uses a driver.
use lnxrm.Base.{ℕ, inl, inr, ◌&&◌, [], ◌∷◌, ◌==◌, if◌then◌else◌, arith}
use lnxrm.Disk.{Driver, Sector}

abbrev pub Table : Type 0
Table = ℕ → ℕ → Sector

-- A device 1 that cannot be read, beside devices that always work.
abbrev pub table_read : Table → ℕ → ℕ → Sector → ℕ × Sector
table_read d dev lba buf = if dev == 1 then (5, 9 ∷ []) else (0, d dev lba)

abbrev pub table_write : Table → ℕ → ℕ → Sector → ℕ × Table
table_write d dev lba v = (0, λ e m. if e == dev && m == lba then v else d e m)

abbrev pub table_driver : Driver
table_driver = record {
  Disks = Table;
  contents = λ d dev lba. d dev lba;
  read = table_read;
  write = table_write;
  read_good = λ d dev lba buf e. ground arith;
  write_good = λ d dev lba v e. ground arith;
  write_elsewhere = λ d dev lba v e m ne. elim ne [ inl a ↦ ground arith | inr b ↦ ground arith ];
}

abbrev pub disks : Table
disks dev lba = dev ∷ lba ∷ []
