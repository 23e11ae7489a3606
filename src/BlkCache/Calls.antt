-- ===== src/BlkCache/Calls.antt =====
-- Reads and writes through the cache against the view of its clients.
use lnxrm.Base.{
  ℕ, ◌<◌, ◌≡◌, ◌≢◌, sym, ◌∙◌, ◌⊎◌, inl, inr, true, false, ◌&&◌, ◌==◌, arith, Bool-cases,
  Option-cases,
}
use lnxrm.Disk.{Driver, Sector}
use lnxrm.BlkCache.{
  Cache, Fetched, got, failed, holds, find_index, cache_entries, cache_find_victim, loaded,
  cache_writeback, fill, replace, blk_cache_read,
}
use lnxrm.BlkCache.View.{
  IsCoherent, view, view_hit, view_miss, Keeps, Keeps-trans, touch-Keeps, find_index-some,
  find_index-none, victim_bound, victim_keeps,
}
use lnxrm.BlkCache.Steps.{
  key_cases, cache_writeback-Keeps, cache_writeback_clean, cache_writeback_fields,
  placed-IsCoherent, placed_here, placed_elsewhere,
}

module _ (drv : Driver) where
  open drv use {Disks, contents, read, write, read_good}

  -- The contract of a read of sector `lba` of device `dev`.
  abbrev pub Reads : Cache Disks → ℕ → ℕ → Fetched Disks → Type 0
  Reads s dev lba (got buf s') = (buf ≡ view drv s dev lba) × Keeps drv s s'
  Reads s dev lba (failed status s') = status ≢ 0

  -- The contract of a write.
  abbrev pub Writes : Cache Disks → ℕ → ℕ → Sector → ℕ × Cache Disks → Type 0
  Writes s dev lba v (status, s') =
      ((status ≡ 0)
        × IsCoherent drv s'
        × (view drv s' dev lba ≡ v)
        × ((d l : ℕ) → (d ≢ dev) ⊎ (l ≢ lba) → view drv s' d l ≡ view drv s d l))
      ⊎ ((status ≢ 0) × Keeps drv s s')

  abbrev pub Misses : Cache Disks → ℕ → ℕ → Type 0
  Misses s dev lba = (k : ℕ) → k < cache_entries → holds (s.entries k) dev lba ≡ false

  Reads-after :
      (s s' : Cache Disks) (dev lba : ℕ)
      → Keeps drv s s'
      → (r : Fetched Disks) → Reads s' dev lba r
      → Reads s dev lba r
  Reads-after s s' dev lba k (got buf s'') h = (h.0 ∙ k.same dev lba, Keeps-trans drv k h.1)
  Reads-after s s' dev lba k (failed status s'') h = h

  fill-Reads :
      (i dev lba : ℕ) (s : Cache Disks)
      → IsCoherent drv s
      → i < cache_entries
      → ((s.entries i).valid && (s.entries i).dirty) ≡ false
      → Misses s dev lba
      → Reads s dev lba (fill drv i dev lba s)
  unfolding fill
  fill-Reads i dev lba s v b c miss =
      let out = read s.disks dev lba (s.entries i).bytes in
      elim (Bool-cases (out.0 == 0)) [
        | inr e ↦ rw e (λ z. ground arith)
        | inl e ↦
            let good = read_good s.disks dev lba (s.entries i).bytes (ground arith) in
            let new = loaded dev lba out.1 in
            let only : (k : ℕ) → k < cache_entries → holds (s.entries k) dev lba ≡ true → k ≡ i =
              λ k a h. absurd (ground (arith, miss k a)) in
            let key : holds new dev lba ≡ true = ground arith in
            let seen = view_miss drv s dev lba miss in
            rw e (
              good ∙ sym seen,
              record {
                coherent = placed-IsCoherent drv s i dev lba new v b only (inl c) key (λ z. good);
                same = λ d l. elim (key_cases drv new d l) [
                  | inl k ↦ cc (
                    k.0,
                    k.1,
                    good,
                    seen,
                    placed_here drv s i dev lba new v b only (inl c) key (λ z. good),
                  )
                  | inr ne ↦
                      placed_elsewhere drv s i dev lba new v b only (inl c) key (λ z. good) d l ne
                ];
              },
            )
      ]

  -- A miss in a cache that is coherent again after its victim was written back.
  replace-Reads :
      (i dev lba : ℕ) (s : Cache Disks)
      → IsCoherent drv s
      → i < cache_entries
      → Misses s dev lba
      → Reads s dev lba (replace drv i dev lba s)
  unfolding replace
  replace-Reads i dev lba s v b miss = elim (Bool-cases ((cache_writeback drv i s).0 == 0)) [
    | inr e ↦ rw (e, replace) (λ z. ground arith)
    | inl e ↦
        let s' = (cache_writeback drv i s).1 in
        let kept = cache_writeback-Keeps drv i s v b in
        let read_it =
          fill-Reads i dev lba s' kept.coherent b (cache_writeback_clean drv i s (ground arith))
            (λ k a. ground (arith, cache_writeback_fields drv i k s, miss k a)) in
        rw (e, replace) (Reads-after s s' dev lba kept (fill drv i dev lba s') read_it)
  ]

  -- The victim search touches only flags.
  pub victim-Keeps :
      (s : Cache Disks)
      → IsCoherent drv s
      → Keeps drv s (record s { entries = (cache_find_victim s.entries).1 })
  victim-Keeps s v = touch-Keeps drv s _ v (record { at_index = victim_keeps s.entries })

  -- A read that succeeds yields what the client sees at that sector, and changes what no client sees at
  -- any sector; a read that fails says so by a status that is not 0.
  pub blk_cache_read-Reads :
      (dev lba : ℕ) (s : Cache Disks)
      → IsCoherent drv s
      → Reads s dev lba (blk_cache_read drv dev lba s)
  unfolding blk_cache_read
  blk_cache_read-Reads dev lba s v =
      elim (Option-cases (find_index cache_entries 0 dev lba s.entries)) [
        | inl e ↦
            let c = cache_find_victim s.entries in
            let s' = record s { entries = c.1 } in
            let kept = victim-Keeps s v in
            rw (e, blk_cache_read)
              (Reads-after s s' dev lba kept (replace drv c.0 dev lba s') (
                replace-Reads c.0 dev lba s' kept.coherent (victim_bound s.entries) (λ k a. ground (
                  arith,
                  victim_keeps s.entries k,
                  find_index-none cache_entries 0 dev lba k s.entries e (omega arith) a,
                ))))
        | inr (i, e) ↦
            let f = find_index-some cache_entries 0 dev lba i s.entries e in
            rw (e, blk_cache_read)
              (
                sym (view_hit drv s i dev lba v f.0 f.1),
                touch-Keeps drv s _ v (record { at_index = λ k. ground arith }),
              )
      ]
