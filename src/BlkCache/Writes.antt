-- ===== src/BlkCache/Writes.antt =====
-- Writes through the cache, and what a failed read does to it.
use lnxrm.Base.{
  ℕ, fun_ext, ◌<◌, ◌≡◌, ◌≢◌, refl, ap, ◌∙◌, ◌⊎◌, inl, inr, true, false, ◌&&◌, ◌==◌, update, arith,
  Bool-cases, Option-cases,
}
use lnxrm.Disk.{Driver, Sector}
use lnxrm.BlkCache.{
  Entry, Cache, failed, holds, find_index, mark_used, cache_entries, cache_find_victim,
  cache_writeback, replace, overwrite, put_bytes, claim, blk_cache_read, blk_cache_write,
}
use lnxrm.BlkCache.View.{
  IsCoherent, view, view_found, Keeps, Keeps-trans, touch-Keeps, find_index-some, find_index-none,
  victim_bound, victim_keeps,
}
use lnxrm.BlkCache.Steps.{
  cache_writeback-Keeps, cache_writeback_clean, cache_writeback_fields, placed-IsCoherent,
  placed_here, placed_elsewhere,
}
use lnxrm.BlkCache.Calls.{Writes, Misses, victim-Keeps}

module _ (drv : Driver) where
  open drv use {Disks, contents, read, write, read_good}

  Writes-after :
      (s s' : Cache Disks) (dev lba : ℕ) (v : Sector)
      → Keeps drv s s'
      → (r : ℕ × Cache Disks) → Writes drv s' dev lba v r
      → Writes drv s dev lba v r
  Writes-after s s' dev lba v k (status, q) (inl h) =
      inl (h.0, h.1, h.2, λ d l ne. h.3 d l ne ∙ k.same d l)
  Writes-after s s' dev lba v k (status, q) (inr h) = inr (h.0, Keeps-trans drv k h.1)

  -- Entry `i` is given the bytes, as a hit or as a claimed victim.
  placed-Writes :
      (s : Cache Disks) (i dev lba : ℕ) (e : Entry) (v : Sector)
      → IsCoherent drv s
      → i < cache_entries
      → ((k : ℕ) → k < cache_entries → holds (s.entries k) dev lba ≡ true → k ≡ i)
      → (((s.entries i).valid && (s.entries i).dirty) ≡ false)
        ⊎ (holds (s.entries i) dev lba ≡ true)
      → holds e dev lba ≡ true
      → e.dirty ≡ true
      → e.bytes ≡ v
      → Writes drv s dev lba v (0, record s { entries = update s.entries i e })
  placed-Writes s i dev lba e v c b only safe key d bytes =
      let clean : e.dirty ≡ false → e.bytes ≡ contents s.disks dev lba =
        λ f. absurd (ground arith) in
      inl (
        refl,
        placed-IsCoherent drv s i dev lba e c b only safe key clean,
        placed_here drv s i dev lba e c b only safe key clean ∙ bytes,
        placed_elsewhere drv s i dev lba e c b only safe key clean,
      )

  abbrev dirty_entry : ℕ → ℕ → Sector → Entry
  dirty_entry dev lba v = record {
    lba = lba;
    bytes = v;
    valid = true;
    dirty = true;
    used = true;
    dev = dev;
  }

  put_bytes-claim :
      (i dev lba : ℕ) (v : Sector) (s : Cache Disks)
      → put_bytes drv i v (claim drv i dev lba s)
        ≡ record s { entries = update s.entries i (dirty_entry dev lba v) }
  put_bytes-claim i dev lba v s =
      ap (λ c. record { entries = c; disks = s.disks }) (fun_ext λ k. ground arith)

  overwrite-Writes :
      (i dev lba : ℕ) (v : Sector) (s : Cache Disks)
      → IsCoherent drv s
      → i < cache_entries
      → Misses drv s dev lba
      → Writes drv s dev lba v (overwrite drv i dev lba v s)
  unfolding overwrite
  overwrite-Writes i dev lba v s c b miss =
      let kept = cache_writeback-Keeps drv i s c b in
      let s' = (cache_writeback drv i s).1 in
      elim (Bool-cases ((cache_writeback drv i s).0 == 0)) [
        | inr e ↦ rw (e, overwrite) (inr (λ z. ground arith, kept))
        | inl e ↦
            let new = dirty_entry dev lba v in
            let placed_it =
              placed-Writes s' i dev lba new v kept.coherent b
                (λ k a h. absurd (ground (arith, cache_writeback_fields drv i k s, miss k a)))
                (inl (cache_writeback_clean drv i s (ground arith))) (ground arith) refl refl in
            rw (e, overwrite)
              (Writes-after s s' dev lba v kept (0, put_bytes drv i v (claim drv i dev lba s'))
                (rw (put_bytes-claim i dev lba v s') placed_it))
      ]

  -- A write that succeeds makes its bytes what clients see at that sector and changes no other sector;
  -- one that fails (because the victim could not be written back) changes no sector. Either way the
  -- cache stays coherent.
  pub blk_cache_write-Writes :
      (dev lba : ℕ) (v : Sector) (s : Cache Disks)
      → IsCoherent drv s
      → Writes drv s dev lba v (blk_cache_write drv dev lba v s)
  unfolding blk_cache_write
  blk_cache_write-Writes dev lba v s c =
      elim (Option-cases (find_index cache_entries 0 dev lba s.entries)) [
        | inl e ↦
            let w = cache_find_victim s.entries in
            let s' = record s { entries = w.1 } in
            let kept = victim-Keeps drv s c in
            rw (e, blk_cache_write)
              (Writes-after s s' dev lba v kept (overwrite drv w.0 dev lba v s') (
                overwrite-Writes w.0 dev lba v s' kept.coherent (victim_bound s.entries) (λ k a.
                  ground (
                    arith,
                    victim_keeps s.entries k,
                    find_index-none cache_entries 0 dev lba k s.entries e (omega arith) a,
                  ))))
        | inr (i, e) ↦
            let f = find_index-some cache_entries 0 dev lba i s.entries e in
            let s' = record s { entries = mark_used i s.entries } in
            let kept =
              touch-Keeps drv s (mark_used i s.entries) c
                (record { at_index = λ k. ground arith }) in
            rw (e, blk_cache_write)
              (Writes-after s s' dev lba v kept (0, put_bytes drv i v s')
                (placed-Writes s' i dev lba (record (s'.entries i) { bytes = v; dirty = true }) v
                  kept.coherent f.0
                  (λ k a h. kept.coherent.unique k i dev lba a f.0 h (ground arith))
                  (inr (ground arith)) (ground arith) refl refl))
      ]

  blk_cache_read_miss :
      (dev lba : ℕ) (s : Cache Disks)
      → Misses drv s dev lba
      → blk_cache_read drv dev lba s ≡ (
          let w = cache_find_victim s.entries in
          replace drv w.0 dev lba (record s { entries = w.1 }))
  unfolding blk_cache_read
  blk_cache_read_miss dev lba s miss =
      elim (Option-cases (find_index cache_entries 0 dev lba s.entries)) [
        | inl e ↦ rw (e, blk_cache_read)
        | inr (i, e) ↦
            let f = find_index-some cache_entries 0 dev lba i s.entries e in
            absurd (ground (arith, miss i f.0))
      ]

  -- A failed read leaves the victim with the device's buffer.
  abbrev clobbered : Cache Disks → ℕ → Sector → Cache Disks
  clobbered s i buf = record s {
    entries = update s.entries i (record (s.entries i) { bytes = buf });
  }

  replace_failed :
      (i dev lba : ℕ) (s : Cache Disks)
      → ((s.entries i).valid && (s.entries i).dirty) ≡ false
      → (read s.disks dev lba (s.entries i).bytes).0 ≢ 0
      → replace drv i dev lba s
        ≡ failed
            (read s.disks dev lba (s.entries i).bytes).0
            (clobbered s i (read s.disks dev lba (s.entries i).bytes).1)
  unfolding replace
  replace_failed i dev lba s clean bad = ground arith

  -- A read that fails on the device clobbers its victim: a clean sector that was cached there is from then on
  -- seen as whatever the device left in the buffer.
  pub failed_read_clobbers :
      (dev lba d l : ℕ) (s : Cache Disks)
      → IsCoherent drv s
      → ((k : ℕ) → k < cache_entries → holds (s.entries k) dev lba ≡ false)
      → let i = (cache_find_victim s.entries).0 in
        let out = read s.disks dev lba (s.entries i).bytes in
        holds (s.entries i) d l ≡ true
        → (s.entries i).dirty ≡ false
        → out.0 ≢ 0
        → (s' : Cache Disks) × (blk_cache_read drv dev lba s ≡ failed out.0 s')
          × (view drv s' d l ≡ out.1)
  unfolding blk_cache_read
  failed_read_clobbers dev lba d l s c miss h clean bad =
      let w = cache_find_victim s.entries in
      let i = w.0 in
      let t = record s { entries = w.1 } in
      let out = read s.disks dev lba (s.entries i).bytes in
      let bytes : (w.1 i).bytes ≡ (s.entries i).bytes = (victim_keeps s.entries i).1 in
      let same : read s.disks dev lba (w.1 i).bytes ≡ out = ap (read s.disks dev lba) bytes in
      let kept = victim-Keeps drv s c in
      let failing =
        replace_failed i dev lba t (ground (arith, victim_keeps s.entries i)) (rw same bad) in
      (
        clobbered t i out.1,
        blk_cache_read_miss dev lba s miss ∙ rw same at failing,
        view_found drv (clobbered t i out.1) i d l
              (λ j a p.
                kept.coherent.unique j i d l a (victim_bound s.entries) (ground arith)
                  (ground (arith, victim_keeps s.entries i)))
              (victim_bound s.entries) (ground (arith, victim_keeps s.entries i))
            ∙ ground arith,
      )

  -- On a device that takes every write, the cache takes every write too.
  pub blk_cache_write_status :
      (dev lba : ℕ) (v : Sector) (s : Cache Disks)
      → ((d : Disks) (e l : ℕ) (w : Sector) → (write d e l w).0 ≡ 0)
      → (blk_cache_write drv dev lba v s).0 ≡ 0
  unfolding blk_cache_write overwrite cache_writeback
  blk_cache_write_status dev lba v s takes =
      elim (Option-cases (find_index cache_entries 0 dev lba s.entries)) [
        | inr (i, e) ↦ rw (e, blk_cache_write)
        | inl e ↦
            let w = cache_find_victim s.entries in
            let x = w.1 w.0 in
            rw (e, blk_cache_write) (ground (arith, takes s.disks x.dev x.lba x.bytes))
      ]
