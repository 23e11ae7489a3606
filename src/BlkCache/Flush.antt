-- ===== src/BlkCache/Flush.antt =====
-- A flush that reports success has put every cached write of its device on the disk.
use lnxrm.Base.{
  ℕ, zero, suc, ◌+◌, ◌<◌, ◌≤◌, ◌≡◌, refl, sym, ◌∙◌, ◌⊎◌, inl, inr, Bool, true, not, ◌&&◌, ◌==◌,
  arith, Bool-cases,
}
use lnxrm.Disk.{Driver}
use lnxrm.BlkCache.{
  Cache, cache_entries, cache_writeback, flush_entry, flush_from, blk_cache_flush, blk_cache_init,
}
use lnxrm.BlkCache.View.{IsCoherent, view, view_hit, view_miss, view_cases, Keeps, Keeps-trans}
use lnxrm.BlkCache.Steps.{cache_writeback-Keeps}

module _ (drv : Driver) where
  open drv use {Disks, contents}

  -- Has entry `k` nothing to write to device `dev`?
  abbrev is_saved : Cache Disks → ℕ → ℕ → Bool
  is_saved s dev k = not ((s.entries k).valid && (s.entries k).dirty && (s.entries k).dev == dev)

  flush_entry-Keeps :
      (dev i ret : ℕ) (s : Cache Disks)
      → IsCoherent drv s
      → i < cache_entries
      → Keeps drv s (flush_entry drv dev i (ret, s)).1
  unfolding flush_entry
  flush_entry-Keeps dev i ret s v b =
      elim (Bool-cases ((s.entries i).valid && (s.entries i).dirty && (s.entries i).dev == dev)) [
        | inl e ↦ rw (e, flush_entry) (cache_writeback-Keeps drv i s v b)
        | inr e ↦ rw (e, flush_entry) (record { coherent = v; same = λ d l. refl })
      ]

  -- A round whose status is 0 began with status 0 and leaves its entry saved; it unsaves no other.
  flush_entry_saves :
      (dev i ret k : ℕ) (s : Cache Disks)
      → (flush_entry drv dev i (ret, s)).0 ≡ 0
      → (ret ≡ 0)
        × (is_saved (flush_entry drv dev i (ret, s)).1 dev i ≡ true)
        × (is_saved s dev k ≡ true → is_saved (flush_entry drv dev i (ret, s)).1 dev k ≡ true)
  unfolding flush_entry cache_writeback
  flush_entry_saves dev i ret k s e = (ground arith, ground arith, λ h. ground arith)

  flush_from-Keeps :
      (n dev i ret : ℕ) (s : Cache Disks)
      → IsCoherent drv s
      → i + n ≡ cache_entries
      → Keeps drv s (flush_from drv n dev i (ret, s)).1
  unfolding flush_from
  flush_from-Keeps zero dev i ret s v e = record { coherent = v; same = λ d l. refl }
  flush_from-Keeps (suc n) dev i ret s v e =
      let r = flush_entry drv dev i (ret, s) in
      let kept = flush_entry-Keeps dev i ret s v (omega arith) in
      Keeps-trans drv kept (flush_from-Keeps n dev (i + 1) r.0 r.1 kept.coherent (omega arith))

  flush_from_saves :
      (n dev i ret : ℕ) (s : Cache Disks)
      → (flush_from drv n dev i (ret, s)).0 ≡ 0
      → (ret ≡ 0)
        × ((k : ℕ)
            → (i ≤ k) ⊎ (is_saved s dev k ≡ true)
            → k < i + n
            → is_saved (flush_from drv n dev i (ret, s)).1 dev k ≡ true)
  unfolding flush_from
  flush_from_saves zero dev i ret s e =
      (e, λ k h b. elim h [ inl a ↦ absurd (omega arith) | inr a ↦ a ])
  flush_from_saves (suc n) dev i ret s e =
      let r = flush_entry drv dev i (ret, s) in
      let rest = flush_from_saves n dev (i + 1) r.0 r.1 e in
      ((flush_entry_saves dev i ret i s rest.0).0, λ k h b. rest.1 k (go k h rest.0) (omega arith))
    where
      go :
          (k : ℕ)
          → (i ≤ k) ⊎ (is_saved s dev k ≡ true)
          → (flush_entry drv dev i (ret, s)).0 ≡ 0
          → (i + 1 ≤ k) ⊎ (is_saved (flush_entry drv dev i (ret, s)).1 dev k ≡ true)
      go k (inr a) z = inr ((flush_entry_saves dev i ret k s z).2 a)
      go k (inl a) z = elim (Bool-cases (i == k)) [
        | inl f ↦ inr (ground (arith, flush_entry_saves dev i ret k s z))
        | inr f ↦ inl (ground arith)
      ]

  -- A flush keeps coherence and what clients see. When it reports success, the disk itself holds what clients see
  -- at every sector of the device.
  pub blk_cache_flush_lem :
      (dev : ℕ) (s : Cache Disks)
      → IsCoherent drv s
      → Keeps drv s (blk_cache_flush drv dev s).1
        × ((blk_cache_flush drv dev s).0 ≡ 0
            → (lba : ℕ) → contents (blk_cache_flush drv dev s).1.disks dev lba ≡ view drv s dev lba)
  unfolding blk_cache_flush
  blk_cache_flush_lem dev s v = (kept, durable)
    where
      kept : Keeps drv s (flush_from drv cache_entries dev 0 (0, s)).1
      kept = flush_from-Keeps cache_entries dev 0 0 s v refl

      durable :
          (flush_from drv cache_entries dev 0 (0, s)).0 ≡ 0
          → (lba : ℕ)
          → contents (flush_from drv cache_entries dev 0 (0, s)).1.disks dev lba
            ≡ view drv s dev lba
      durable z lba =
          let s' = (flush_from drv cache_entries dev 0 (0, s)).1 in
          let saved = (flush_from_saves cache_entries dev 0 0 s z).1 in
          elim (view_cases drv s' dev lba) [
            | inl (k, a, p) ↦
                ground (arith, saved k (inl (omega arith)) a, kept.coherent.clean k a)
                ∙ sym (view_hit drv s' k dev lba kept.coherent a p)
                ∙ kept.same dev lba
            | inr miss ↦ sym (view_miss drv s' dev lba miss) ∙ kept.same dev lba
          ]

  -- An initialised cache is coherent and shows the disk.
  pub blk_cache_init_lem :
      (d : Disks)
      → IsCoherent drv (blk_cache_init drv d)
        × ((dev lba : ℕ) → view drv (blk_cache_init drv d) dev lba ≡ contents d dev lba)
  unfolding blk_cache_init
  blk_cache_init_lem d = (
    record { unique = λ i j dev lba a b p q. cc; clean = λ i a p q. cc },
    λ dev lba. view_miss drv (blk_cache_init drv d) dev lba (λ i a. refl),
  )
