-- ===== src/BlkCache/Steps.antt =====
-- The steps that the cache's calls are made of keep coherence and what clients see.
use lnxrm.Base.{
  ℕ, ◌<◌, ◌≡◌, ◌≢◌, refl, sym, ◌∙◌, ◌⊎◌, inl, inr, Bool, true, false, ◌&&◌, ◌==◌, if◌then◌else◌,
  update, arith, Bool-cases,
}
use lnxrm.Disk.{Driver}
use lnxrm.BlkCache.{Entry, Cache, holds, cache_entries, cache_writeback}
use lnxrm.BlkCache.View.{IsCoherent, view, view_hit, view_miss, view_cases, Keeps}

module _ (drv : Driver) where
  open drv use {Disks, contents, read, write, read_good, write_good, write_elsewhere}

  -- Every key is either that of entry `e` or another.
  pub key_cases :
      (e : Entry) (dev lba : ℕ) → ((e.dev ≡ dev) × (e.lba ≡ lba)) ⊎ ((dev ≢ e.dev) ⊎ (lba ≢ e.lba))
  key_cases e dev lba = elim (Bool-cases (e.dev == dev)) [
    | inl a ↦ elim (Bool-cases (e.lba == lba)) [
      | inl b ↦ inl (ground arith, ground arith)
      | inr b ↦ inr (inr (λ f. ground arith))
    ]
    | inr a ↦ inr (inl (λ f. ground arith))
  ]

  -- The disk may change at the sector of a dirty entry, which may become clean if it was written.
  module _ (s : Cache Disks) (i : ℕ) (v : IsCoherent drv s) (b : i < cache_entries) (cl : Bool)
      (d : Disks) (is_valid : (s.entries i).valid ≡ true)
      (elsewhere : (dev lba : ℕ)
        → (dev ≢ (s.entries i).dev) ⊎ (lba ≢ (s.entries i).lba)
        → contents d dev lba ≡ contents s.disks dev lba)
      (written : cl ≡ true → contents d (s.entries i).dev (s.entries i).lba ≡ (s.entries i).bytes)
      (was_dirty : (s.entries i).dirty ≡ true) where
    flushed : Cache Disks
    flushed = record {
      entries =
          if cl then update s.entries i (record (s.entries i) { dirty = false }) else s.entries;
      disks = d;
    }

    flushed_fields :
        (k : ℕ)
        → ((flushed.entries k).lba ≡ (s.entries k).lba)
          × ((flushed.entries k).bytes ≡ (s.entries k).bytes)
          × ((flushed.entries k).valid ≡ (s.entries k).valid)
          × ((flushed.entries k).dev ≡ (s.entries k).dev)
    unfolding flushed
    flushed_fields k = ground arith

    flushed-IsCoherent : IsCoherent drv flushed
    unfolding flushed
    flushed-IsCoherent = record {
      unique = λ j k dev lba a c p q.
          v.unique j k dev lba a c (ground (arith, flushed_fields j))
            (ground (arith, flushed_fields k));
      clean = λ j a p q. elim (Bool-cases (j == i)) [
        | inl e ↦ ground (arith, written)
        | inr e ↦ elim (key_cases (s.entries i) (s.entries j).dev (s.entries j).lba) [
          | inl k ↦
              let same : i ≡ j =
                v.unique i j (s.entries j).dev (s.entries j).lba b a (ground arith)
                  (ground arith) in
              absurd (ground arith)
          | inr k ↦
              let away = elsewhere (s.entries j).dev (s.entries j).lba k in
              ground (arith, v.clean j a)
        ]
      ];
    }

    flushed-Keeps : Keeps drv s flushed
    unfolding flushed
    flushed-Keeps = record {
      coherent = flushed-IsCoherent;
      same = λ dev lba. elim (view_cases drv s dev lba) [
        | inl (k, a, p) ↦
            view_hit drv flushed k dev lba flushed-IsCoherent a (ground (arith, flushed_fields k))
            ∙ (flushed_fields k).1
            ∙ sym (view_hit drv s k dev lba v a p)
        | inr miss ↦
            view_miss drv flushed dev lba (λ k a. ground (arith, flushed_fields k, miss k a))
            ∙ elsewhere dev lba (other dev lba miss)
            ∙ sym (view_miss drv s dev lba miss)
      ];
    }
      where
        other :
            (dev lba : ℕ)
            → ((k : ℕ) → k < cache_entries → holds (s.entries k) dev lba ≡ false)
            → (dev ≢ (s.entries i).dev) ⊎ (lba ≢ (s.entries i).lba)
        other dev lba miss = elim (key_cases (s.entries i) dev lba) [
          | inl k ↦ absurd (ground (arith, miss i b))
          | inr k ↦ k
        ]

  -- `cache_writeback` keeps coherence and the view, also when the device refuses the write.
  pub cache_writeback-Keeps :
      (i : ℕ) (s : Cache Disks)
      → IsCoherent drv s
      → i < cache_entries
      → Keeps drv s (cache_writeback drv i s).1
  unfolding cache_writeback flushed
  cache_writeback-Keeps i s v b = elim (Bool-cases ((s.entries i).valid && (s.entries i).dirty)) [
    | inr e ↦ rw (e, cache_writeback) (record { coherent = v; same = λ dev lba. refl })
    | inl e ↦
        let x = s.entries i in
        rw (e, cache_writeback)
          (flushed-Keeps s i v b ((write s.disks x.dev x.lba x.bytes).0 == 0)
            (write s.disks x.dev x.lba x.bytes).1 (ground arith)
            (λ dev lba h. write_elsewhere s.disks x.dev x.lba x.bytes dev lba h)
            (λ h. write_good s.disks x.dev x.lba x.bytes (ground arith)) (ground arith))
  ]

  -- After a successful write-back the entry has nothing left to save, and its key is as before.
  pub cache_writeback_clean :
      (i : ℕ) (s : Cache Disks)
      → (cache_writeback drv i s).0 ≡ 0
      → let e = (cache_writeback drv i s).1.entries i in (e.valid && e.dirty) ≡ false
  unfolding cache_writeback
  cache_writeback_clean i s h = ground arith

  pub cache_writeback_fields :
      (i k : ℕ) (s : Cache Disks)
      → let e = (cache_writeback drv i s).1.entries k in
        (e.lba ≡ (s.entries k).lba)
        × (e.valid ≡ (s.entries k).valid)
        × (e.dev ≡ (s.entries k).dev)
        × (e.bytes ≡ (s.entries k).bytes)
  unfolding cache_writeback
  cache_writeback_fields i k s = ground arith

  -- Entry `i` is given sector `lba` of device `dev`.
  module _ (s : Cache Disks) (i dev lba : ℕ) (e : Entry) (v : IsCoherent drv s)
      (b : i < cache_entries)
      (only : (k : ℕ) → k < cache_entries → holds (s.entries k) dev lba ≡ true → k ≡ i)
      (safe : (((s.entries i).valid && (s.entries i).dirty) ≡ false)
        ⊎ (holds (s.entries i) dev lba ≡ true))
      (key : holds e dev lba ≡ true)
      (true_bytes : e.dirty ≡ false → e.bytes ≡ contents s.disks dev lba) where
    abbrev pub placed : Cache Disks
    placed = record s { entries = update s.entries i e }

    -- An entry of the new cache is the new one, or an old one for another sector.
    placed_cases :
        (k d l : ℕ)
        → k < cache_entries
        → holds (placed.entries k) d l ≡ true
        → ((k ≡ i) × (d ≡ dev) × (l ≡ lba))
          ⊎ ((k ≢ i) × (holds (s.entries k) d l ≡ true) × ((d ≢ dev) ⊎ (l ≢ lba)))
    placed_cases k d l a h = elim (Bool-cases (k == i)) [
      | inl f ↦ inl (ground arith, ground arith, ground arith)
      | inr f ↦ elim (key_cases e d l) [
        | inl g ↦ let same : k ≡ i = only k a (ground arith) in absurd (ground arith)
        | inr g ↦ inr (
          ground arith,
          ground arith,
          elim g [ inl x ↦ inl (λ z. ground arith) | inr x ↦ inr (λ z. ground arith) ],
        )
      ]
    ]

    pub placed-IsCoherent : IsCoherent drv placed
    placed-IsCoherent = record {
      unique = λ j k d l a c p q. elim (placed_cases j d l a p) [
        | inl x ↦ elim (placed_cases k d l c q) [
          | inl y ↦ x.0 ∙ sym y.0
          | inr y ↦ absurd (elim y.2 [ inl z ↦ z x.1 | inr z ↦ z x.2 ])
        ]
        | inr x ↦ elim (placed_cases k d l c q) [
          | inl y ↦ absurd (elim x.2 [ inl z ↦ z y.1 | inr z ↦ z y.2 ])
          | inr y ↦ v.unique j k d l a c x.1 y.1
        ]
      ];
      clean = λ j a p q. ground (arith, v.clean j a, true_bytes);
    }

    pub placed_here : view drv placed dev lba ≡ e.bytes
    placed_here = view_hit drv placed i dev lba placed-IsCoherent b (ground arith) ∙ ground arith

    pub placed_elsewhere : (d l : ℕ) → (d ≢ dev) ⊎ (l ≢ lba) → view drv placed d l ≡ view drv s d l
    placed_elsewhere d l ne = elim (view_cases drv s d l) [
      | inl (k, a, p) ↦ elim (Bool-cases (k == i)) [
        | inr f ↦
            view_hit drv placed k d l placed-IsCoherent a (ground arith)
            ∙ ground arith
            ∙ sym (view_hit drv s k d l v a p)
        | inl f ↦
            view_miss drv placed d l (λ j c. evicted j c k f p)
            ∙ ground (arith, v.clean k a)
            ∙ sym (view_hit drv s k d l v a p)
      ]
      | inr miss ↦
          view_miss drv placed d l (λ j c. ground (arith, miss j c, ne))
          ∙ sym (view_miss drv s d l miss)
    ]
      where
        in_range : (k : ℕ) → (k == i) ≡ true → k ≡ i
        in_range k f = ground arith

        evicted :
            (j : ℕ)
            → j < cache_entries
            → (k : ℕ) → (k == i) ≡ true
            → holds (s.entries k) d l ≡ true
            → holds (placed.entries j) d l ≡ false
        evicted j c k f p = elim (Bool-cases (holds (placed.entries j) d l)) [
          | inr h ↦ h
          | inl h ↦ elim (placed_cases j d l c h) [
            | inl x ↦ absurd (elim ne [ inl z ↦ z x.1 | inr z ↦ z x.2 ])
            | inr x ↦
                let same : j ≡ k = v.unique j k d l c (rw (in_range k f) b) x.1 p in
                absurd (x.0 (ground arith))
          ]
        ]
