-- ===== src/Fat/Grow.antt =====
-- How `alloc_chain` of kernel/fs/fat32/fat32_file.c makes a cluster chain longer.
use lnxrm.Base.{ℕ, ◌≡◌, true, false, List, ◌++◌, length}
use lnxrm.Base.Links.{has}
use lnxrm.Fat.{Volume, fat_find_free_cluster}
use lnxrm.Fat.Chains.{Chain, entry}

-- `m'` is `m` with the chain `xs` from `c` made longer by the `n` clusters `ys`, all free in `m`.
pub record Grown (m m' : Volume) (c : ℕ) (xs ys : List ℕ) (n : ℕ) : Type 0 where
  pub reaches : Chain m' c (xs ++ ys)
  pub size : length ys ≡ n
  pub fresh : (k : ℕ) → has k ys ≡ true → entry m k ≡ 0
  pub others : (k : ℕ) → has k (xs ++ ys) ≡ false → entry m' k ≡ entry m k

-- What a request for `n` more clusters behind the chain `xs` from `c` ends in: no free cluster is left, or the
-- chain has them.
pub data Growth (m : Volume) (c : ℕ) (xs : List ℕ) (n : ℕ) : ℕ × Volume → Type 0 where
  full : {m' : Volume} → fat_find_free_cluster m' ≡ 0 → Growth m c xs n (0, m')
  grown : {m' : Volume} {ys : List ℕ} → Grown m m' c xs ys n → Growth m c xs n (c, m')
