-- ===== src/BlkCache/View.antt =====
-- What a client sees through the cache, and that no operation loses it.
use lnxrm.Base.{
  ℕ, zero, suc, ◌+◌, ◌<◌, ◌≤◌, ◌≡◌, sym, ap, ◌∙◌, ◌⊎◌, inl, inr, Bool, true, false, not, none, some,
  arith, Option-cases,
}
use lnxrm.Disk.{Driver, Sector}
use lnxrm.BlkCache.{
  Entry, Cache, holds, find_index, first_index, clear_used, cache_entries, cache_find_victim,
}

pub find_index-some :
    (n i dev lba k : ℕ) (c : ℕ → Entry)
    → find_index n i dev lba c ≡ some k
    → (k < i + n) × (holds (c k) dev lba ≡ true)
unfolding find_index
find_index-some zero i dev lba k c e = cc
find_index-some (suc n) i dev lba k c e = ground (arith, find_index-some n (i + 1) dev lba k c)

pub find_index-none :
    (n i dev lba k : ℕ) (c : ℕ → Entry)
    → find_index n i dev lba c ≡ none
    → i ≤ k
    → k < i + n
    → holds (c k) dev lba ≡ false
unfolding find_index
find_index-none zero i dev lba k c e a b = absurd (omega arith)
find_index-none (suc n) i dev lba k c e a b = ground (arith, find_index-none n (i + 1) dev lba k c)

first_index_bound :
    (n i k : ℕ) (test : Entry → Bool) (c : ℕ → Entry) → first_index n i test c ≡ some k → k < i + n
unfolding first_index
first_index_bound zero i k test c e = cc
first_index_bound (suc n) i k test c e = ground (arith, first_index_bound n (i + 1) k test c)

-- The victim is an index of the cache, and looking for one changes nothing but the flags of use.
pub victim_bound : (c : ℕ → Entry) → (cache_find_victim c).0 < cache_entries
unfolding cache_find_victim
victim_bound c = ground (
  arith,
  first_index_bound cache_entries 0 (cache_find_victim c).0 (λ e. not e.valid) c,
  first_index_bound cache_entries 0 (cache_find_victim c).0 (λ e. not e.used) c,
  first_index_bound cache_entries 0 (cache_find_victim c).0 (λ e. not e.used) (clear_used c),
)

pub victim_keeps :
    (c : ℕ → Entry) (i : ℕ)
    → let e = (cache_find_victim c).1 i in
      (e.lba ≡ (c i).lba)
      × (e.bytes ≡ (c i).bytes)
      × (e.valid ≡ (c i).valid)
      × (e.dirty ≡ (c i).dirty)
      × (e.dev ≡ (c i).dev)
unfolding cache_find_victim
victim_keeps c i = ground arith

module _ (drv : Driver) where
  open drv use {Disks, contents, read, write, read_good, write_good, write_elsewhere}

  -- A sector is cached at most once, and a clean entry agrees with the disk.
  pub record IsCoherent (s : Cache Disks) : Type 0 where
    pub unique :
        (i j dev lba : ℕ)
        → i < cache_entries
        → j < cache_entries
        → holds (s.entries i) dev lba ≡ true
        → holds (s.entries j) dev lba ≡ true
        → i ≡ j
    pub clean :
        (i : ℕ)
        → i < cache_entries
        → (s.entries i).valid ≡ true
        → (s.entries i).dirty ≡ false
        → (s.entries i).bytes ≡ contents s.disks (s.entries i).dev (s.entries i).lba

  -- What a client sees at a sector: the cached bytes, or those on the disk.
  pub view : Cache Disks → ℕ → ℕ → Sector
  view s dev lba = elim (find_index cache_entries 0 dev lba s.entries) [
    | some i ↦ (s.entries i).bytes
    | none ↦ contents s.disks dev lba
  ]

  -- A sector that one entry alone holds is seen as that entry's bytes.
  pub view_found :
      (s : Cache Disks) (i dev lba : ℕ)
      → ((j : ℕ) → j < cache_entries → holds (s.entries j) dev lba ≡ true → j ≡ i)
      → i < cache_entries
      → holds (s.entries i) dev lba ≡ true
      → view s dev lba ≡ (s.entries i).bytes
  unfolding view
  view_found s i dev lba only b h =
      elim (Option-cases (find_index cache_entries 0 dev lba s.entries)) [
        | inl e ↦
            absurd
              (ground (arith, find_index-none cache_entries 0 dev lba i s.entries e (omega arith)))
        | inr (j, e) ↦
            let f = find_index-some cache_entries 0 dev lba j s.entries e in
            rw (e, view) (ap (λ k. (s.entries k).bytes) (only j f.0 f.1))
      ]

  pub view_hit :
      (s : Cache Disks) (i dev lba : ℕ)
      → IsCoherent s
      → i < cache_entries
      → holds (s.entries i) dev lba ≡ true
      → view s dev lba ≡ (s.entries i).bytes
  view_hit s i dev lba v b h = view_found s i dev lba (λ j a p. v.unique j i dev lba a b p h) b h

  pub view_miss :
      (s : Cache Disks) (dev lba : ℕ)
      → ((i : ℕ) → i < cache_entries → holds (s.entries i) dev lba ≡ false)
      → view s dev lba ≡ contents s.disks dev lba
  unfolding view
  view_miss s dev lba h = elim (Option-cases (find_index cache_entries 0 dev lba s.entries)) [
    | inl e ↦ rw (e, view)
    | inr (j, e) ↦
        let f = find_index-some cache_entries 0 dev lba j s.entries e in
        absurd (ground (arith, h j f.0))
  ]

  -- Where a sector is: in one entry, or in none.
  pub view_cases :
      (s : Cache Disks) (dev lba : ℕ)
      → ((i : ℕ) × (i < cache_entries) × (holds (s.entries i) dev lba ≡ true))
        ⊎ ((i : ℕ) → i < cache_entries → holds (s.entries i) dev lba ≡ false)
  view_cases s dev lba = elim (Option-cases (find_index cache_entries 0 dev lba s.entries)) [
    | inl e ↦ inr (λ i b. find_index-none cache_entries 0 dev lba i s.entries e (omega arith) b)
    | inr (j, e) ↦
        let f = find_index-some cache_entries 0 dev lba j s.entries e in inl (j, f.0, f.1)
  ]

  -- The two parts that every operation keeps: coherence, and what clients see.
  pub record Keeps (s s' : Cache Disks) : Type 0 where
    pub coherent : IsCoherent s'
    pub same : (dev lba : ℕ) → view s' dev lba ≡ view s dev lba

  pub Keeps-trans : {s t u : Cache Disks} → Keeps s t → Keeps t u → Keeps s u
  Keeps-trans a b = record {
    coherent = b.coherent;
    same = λ dev lba. b.same dev lba ∙ a.same dev lba;
  }

  -- Only the flags of use differ.
  pub record SameButUsed (c c' : ℕ → Entry) : Type 0 where
    pub at_index :
        (i : ℕ)
        → ((c' i).lba ≡ (c i).lba)
          × ((c' i).bytes ≡ (c i).bytes)
          × ((c' i).valid ≡ (c i).valid)
          × ((c' i).dirty ≡ (c i).dirty)
          × ((c' i).dev ≡ (c i).dev)

  pub touch-Keeps :
      (s : Cache Disks) (c : ℕ → Entry)
      → IsCoherent s
      → SameButUsed s.entries c
      → Keeps s (record s { entries = c })
  touch-Keeps s c v h =
      let coh : IsCoherent (record s { entries = c }) = record {
        unique = λ i j dev lba a b p q.
            v.unique i j dev lba a b (ground (arith, h.at_index i)) (ground (arith, h.at_index j));
        clean = λ i a p q. ground (arith, h.at_index i, v.clean i a);
      } in
      record {
        coherent = coh;
        same = λ dev lba. elim (view_cases s dev lba) [
          | inl (i, a, p) ↦
              view_hit (record s { entries = c }) i dev lba coh a (ground (arith, h.at_index i))
              ∙ (h.at_index i).1
              ∙ sym (view_hit s i dev lba v a p)
          | inr miss ↦
              view_miss (record s { entries = c }) dev lba
                (λ i a. ground (arith, h.at_index i, miss i a))
              ∙ sym (view_miss s dev lba miss)
        ];
      }
