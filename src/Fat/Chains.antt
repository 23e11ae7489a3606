-- ===== src/Fat/Chains.antt =====
-- Cluster chains: what the walks see, and what freeing one does.
use lnxrm.Base.{
  ℕ, zero, suc, ◌%◌, ◌^◌, ◌≤◌, ◌<◌, ◌≡◌, refl, Bool, true, false, ◌&&◌, some, List, [], ◌∷◌, ◌==◌,
  ltb, if◌then◌else◌, arith, length,
}
use lnxrm.Base.Links.{has}
use lnxrm.Fat.{Volume, fat_next_cluster, fat_set_entry, ends_at, free_chain}

-- From `c` the table leads through the distinct clusters `xs` to an end mark.
pub data Chain (m : Volume) : ℕ → List ℕ → Type 0 where
  stop : {c : ℕ} → ends_at c ≡ true → Chain m c []
  link :
      {c : ℕ} {xs : List ℕ}
      → ends_at c ≡ false
      → c < m.max_cluster
      → has c xs ≡ false
      → Chain m (fat_next_cluster m c) xs
      → Chain m c (c ∷ xs)

-- What writing one entry does to the others.
pub set_next :
    (taken : Bool) (m : Volume) (c v k : ℕ)
    → fat_next_cluster (fat_set_entry taken m c v) k
      ≡ (if c == k && ltb c m.max_cluster then v % 2 ^ 28 else fat_next_cluster m k)
unfolding fat_next_cluster fat_set_entry
set_next taken m c v k = ground arith

pub set_max :
    (taken : Bool) (m : Volume) (c v : ℕ) → (fat_set_entry taken m c v).max_cluster ≡ m.max_cluster
unfolding fat_set_entry
set_max taken m c v = ground arith

-- A chain survives a write outside it.
pub Chain-frame :
    (m m' : Volume) {c : ℕ} {xs : List ℕ}
    → m'.max_cluster ≡ m.max_cluster
    → ((k : ℕ) → has k xs ≡ true → fat_next_cluster m' k ≡ fat_next_cluster m k)
    → Chain m c xs
    → Chain m' c xs
Chain-frame m m' e h (stop z) = stop z
Chain-frame m m' e h (link {c} {xs} go b out t) =
    link go (omega arith) out
      (rw (h c (ground arith)) (Chain-frame m m' e (λ k i. h k (ground arith)) t))

-- The entry of cluster `k`, all 28 bits that count.
abbrev pub entry : Volume → ℕ → ℕ
entry m k = m.table k % 2 ^ 28

pub set_entry :
    (taken : Bool) (m : Volume) (c v k : ℕ)
    → entry (fat_set_entry taken m c v) k
      ≡ (if c == k && ltb c m.max_cluster then v % 2 ^ 28 else entry m k)
unfolding fat_set_entry
set_entry taken m c v k = ground arith

-- Freeing a chain ends within as many rounds as it has clusters. Exactly its clusters become free; every other
-- entry of the table is as it was.
pub free_chain_lem :
    (taken : Bool) (n : ℕ) (m : Volume) (c : ℕ) (xs : List ℕ)
    → Chain m c xs
    → length xs ≤ n
    → (m' : Volume) × (free_chain taken n m c ≡ some m')
      × ((k : ℕ) → entry m' k ≡ (if has k xs then 0 else entry m k))
unfolding free_chain
free_chain_lem taken zero m c [] (stop z) h = (m, ground arith, λ k. refl)
free_chain_lem taken zero m c (x ∷ xs) t h = absurd (omega arith)
free_chain_lem taken (suc n) m c [] (stop z) h = (m, ground arith, λ k. refl)
free_chain_lem taken (suc n) m c (x ∷ xs) (link go b out t) h =
    let m1 = fat_set_entry taken m c 0 in
    let rest =
      free_chain_lem taken n m1 (fat_next_cluster m c) xs
        (Chain-frame m m1 (set_max taken m c 0) (λ k i. ground (arith, set_next taken m c 0 k)) t)
        (omega arith) in
    (rest.0, rw go rest.1, λ k. ground (arith, rest.2 k, set_entry taken m c 0 k))
