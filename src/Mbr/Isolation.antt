-- ===== src/Mbr/Isolation.antt =====
-- What one partition writes and another one reads, over the disk that both are on.
use lnxrm.Base.{ℕ, ◌+◌, ◌^◌, ◌≤◌, ◌<◌, ◌≡◌, ◌⊎◌, inl, inr, refl, false, ltb, arith, Bool-cases}
use lnxrm.Base.Words.{add64}
use lnxrm.Mbr.{PartDev, part_write}

-- No sector lies in both.
abbrev pub Apart : PartDev → PartDev → Type 0
Apart p q =
    (p.start_lba + p.size_sectors ≤ q.start_lba) ⊎ (q.start_lba + q.size_sectors ≤ p.start_lba)

outside :
    (start lba count size m : ℕ)
    → start < 2 ^ 32
    → lba + count < 2 ^ 64
    → ltb size (add64 lba count) ≡ false
    → size < 2 ^ 32
    → (m < start) ⊎ (start + size ≤ m)
    → (m < add64 start lba) ⊎ (add64 start lba + count ≤ m)
outside start lba count size m hs hw e hz (inl h) = ground arith
outside start lba count size m hs hw e hz (inr h) = ground arith

-- The parent disk: its sectors are values of `V`, and a write of `count` sectors leaves the others.
module _ {Disk Data V : Type 0} (contents : Disk → ℕ → V) (write : ℕ → ℕ → Data → Disk → ℕ × Disk)
    (elsewhere : (lba count : ℕ) (v : Data) (d : Disk) (m : ℕ)
      → (m < lba) ⊎ (lba + count ≤ m)
      → contents (write lba count v d).1 m ≡ contents d m) where
  -- Partitions with no sector in common cannot write to each other: a write through `p` of any size
  -- and at any place leaves every sector of `q`, provided that the request's end does not wrap around.
  pub part_write-Apart :
      (p q : PartDev) (lba count m : ℕ) (v : Data) (d : Disk)
      → p.start_lba < 2 ^ 32
      → p.size_sectors < 2 ^ 32
      → lba + count < 2 ^ 64
      → Apart p q
      → m < q.size_sectors
      → contents (part_write write p lba count v d).1 (q.start_lba + m)
        ≡ contents d (q.start_lba + m)
  unfolding part_write
  part_write-Apart p q lba count m v d hs hz hw apart hm =
      let out : (q.start_lba + m < p.start_lba) ⊎ (p.start_lba + p.size_sectors ≤ q.start_lba + m) =
        ground arith in
      elim (Bool-cases (ltb p.size_sectors (add64 lba count))) [
        | inl e ↦ rw e refl
        | inr e ↦ rw e (
            elsewhere (add64 p.start_lba lba) count v d (q.start_lba + m)
              (outside p.start_lba lba count p.size_sectors (q.start_lba + m) hs hw e hz out))
      ]
