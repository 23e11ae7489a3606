-- ===== src/Fat/Journal/Commit.antt =====
-- A commit of a journal against what the clients of the sector cache see.
use lnxrm.Base.{
  ℕ, ◌≡◌, refl, sym, ap, ◌∙◌, inl, inr, true, ◌&&◌, Option, none, some, List, [], ◌∷◌, ◌++◌, ◌==◌,
  if◌then◌else◌, arith, Bool-cases, Option-cases,
}
use lnxrm.Base.Words.{pos}
use lnxrm.Disk.{Driver, Sector}
use lnxrm.BlkCache.{Cache, blk_cache_flush, blk_cache_write}
use lnxrm.BlkCache.View.{IsCoherent, view, view_hit, view_miss, view_cases, Keeps, Keeps-trans}
use lnxrm.BlkCache.Flush.{blk_cache_flush_lem}
use lnxrm.BlkCache.Writes.{blk_cache_write-Writes}
use lnxrm.Fat.Journal.{
  Pending, Journal, committed, write_all, fat32_journal_add, fat32_journal_commit,
  fat32_journal_abort, journaled_write,
}

-- The data that was added last for a sector.
unfoldable pub latest : ℕ → List Pending → Option Sector
latest l [] = none
latest l (p ∷ ps) = elim (latest l ps) [
  | some v ↦ some v
  | none ↦ if p.lba == l then some p.bytes else none
]

abbrev pub or_old : Option Sector → Sector → Sector
or_old none old = old
or_old (some v) old = v

module _ (drv : Driver) where
  open drv use {Disks, contents, write, write_good, write_elsewhere}

  -- The journal holds for each of its sectors what clients of the cache see there.
  abbrev pub Agrees : Journal → Cache Disks → Type 0
  Agrees j s = (l : ℕ) (v : Sector) → latest l j.entries ≡ some v → view drv s j.dev l ≡ v

  one_write :
      (d : Disks) (dev lba : ℕ) (v : Sector) (e l : ℕ)
      → (write d dev lba v).0 ≡ 0
      → contents (write d dev lba v).1 e l ≡ (if e == dev && lba == l then v else contents d e l)
  one_write d dev lba v e l z = elim (Bool-cases (e == dev)) [
    | inr n ↦ rw n (write_elsewhere d dev lba v e l (inl (λ q. ground arith)))
    | inl y ↦ elim (Bool-cases (lba == l)) [
      | inr n ↦ rw (y, n) (write_elsewhere d dev lba v e l (inr (λ q. ground arith)))
      | inl w ↦
          let dev_same : e ≡ dev = ground arith in
          let lba_same : l ≡ lba = ground arith in
          rw (dev_same, lba_same) (write_good d dev lba v z ∙ ground arith)
    ]
  ]

  write_all_lem :
      (ps : List Pending) (dev : ℕ) (d : Disks) (e l : ℕ)
      → (write_all drv ps dev d).0 ≡ 0
      → contents (write_all drv ps dev d).1 e l
        ≡ (if e == dev then or_old (latest l ps) (contents d e l) else contents d e l)
  unfolding write_all latest
  write_all_lem [] dev d e l z = ground arith
  write_all_lem (p ∷ ps) dev d e l z =
      let first = (write d dev p.lba p.bytes).0 in
      elim (Bool-cases (first == 0)) [
        | inr n ↦ absurd (ground arith)
        | inl y ↦
            let d' = (write d dev p.lba p.bytes).1 in
            let rest = write_all_lem ps dev d' e l (ground arith) in
            let here = one_write d dev p.lba p.bytes e l (ground arith) in
            ground (arith, rest, here)
      ]

  -- A sector of the disk that clients see is still theirs after the direct writes of a journal that agrees.
  settled :
      (j : Journal) (s : Cache Disks) (e l : ℕ)
      → Agrees j s
      → (write_all drv j.entries j.dev s.disks).0 ≡ 0
      → contents s.disks e l ≡ view drv s e l
      → contents (write_all drv j.entries j.dev s.disks).1 e l ≡ view drv s e l
  settled j s e l agrees z seen =
      let after = write_all_lem j.entries j.dev s.disks e l z in
      elim (Bool-cases (e == j.dev)) [
        | inr n ↦ ground (arith, after)
        | inl y ↦
            let same : view drv s e l ≡ view drv s j.dev l =
              ap (λ k. view drv s k l) (ground arith) in
            elim (Option-cases (latest l j.entries)) [
              | inl f ↦ ground (arith, after)
              | inr (v, f) ↦ ground (arith, after, agrees l v f)
            ]
      ]

  -- The direct writes of a journal that agrees with the cache change nothing that a client sees.
  written-Keeps :
      (j : Journal) (s : Cache Disks)
      → IsCoherent drv s
      → Agrees j s
      → (write_all drv j.entries j.dev s.disks).0 ≡ 0
      → Keeps drv s (record s { disks = (write_all drv j.entries j.dev s.disks).1 })
  written-Keeps j s v agrees z = record {
    coherent = after;
    same = λ e l. elim (view_cases drv s e l) [
      | inl (k, a, p) ↦ view_hit drv written k e l after a p ∙ sym (view_hit drv s k e l v a p)
      | inr miss ↦
          view_miss drv written e l miss ∙ settled j s e l agrees z (sym (view_miss drv s e l miss))
    ];
  }
    where
      written : Cache Disks
      written = record s { disks = (write_all drv j.entries j.dev s.disks).1 }

      after : IsCoherent drv written
      after = record {
        unique = v.unique;
        clean = λ i a p q.
            let hit = view_hit drv s i (s.entries i).dev (s.entries i).lba v a (ground arith) in
            sym hit
            ∙ sym (
                settled j s (s.entries i).dev (s.entries i).lba agrees z
                  (sym (v.clean i a p q) ∙ sym hit));
      }

  -- When a transaction's sectors are, each with the data added last, what clients of the cache see there, a commit
  -- whose writes to the device all succeed keeps the cache coherent and every sector as clients see it, and leaves no
  -- transaction. If the flush behind it, whose status the commit drops, succeeds too, then the disk holds what clients see.
  pub fat32_journal_commit_lem :
      (j : Journal) (s : Cache Disks)
      → IsCoherent drv s
      → j.active ≡ true
      → Agrees j s
      → (write_all drv j.entries j.dev s.disks).0 ≡ 0
      → let written : Cache Disks = record s {
        disks = (write_all drv j.entries j.dev s.disks).1;
      } in
        let s' = (blk_cache_flush drv j.dev written).1 in
        (fat32_journal_commit drv j s ≡ (committed, fat32_journal_abort j, s'))
        × Keeps drv s s'
        × ((blk_cache_flush drv j.dev written).0 ≡ 0
            → (l : ℕ) → contents s'.disks j.dev l ≡ view drv s j.dev l)
  unfolding fat32_journal_commit
  fat32_journal_commit_lem j s v on agrees z =
      let written : Cache Disks = record s { disks = (write_all drv j.entries j.dev s.disks).1 } in
      let kept = written-Keeps j s v agrees z in
      let flushed = blk_cache_flush_lem drv j.dev written kept.coherent in
      (
        rw on (ground arith),
        Keeps-trans drv kept flushed.0,
        λ f l. flushed.1 f l ∙ kept.same j.dev l,
      )

  latest-append :
      (l lba : ℕ) (v : Sector) (ps : List Pending)
      → latest l (ps ++ (record { lba = lba; bytes = v } ∷ []))
        ≡ (if lba == l then some v else latest l ps)
  unfolding latest
  latest-append l lba v [] = refl
  latest-append l lba v (p ∷ ps) = ground (arith, latest-append l lba v ps)

  journal_add_done :
      (j : Journal) (lba : ℕ) (v : Sector)
      → (fat32_journal_add lba v j).0 ≡ pos 0
      → (fat32_journal_add lba v j).1
        ≡ record j { entries = j.entries ++ (record { lba = lba; bytes = v } ∷ []) }
  unfolding fat32_journal_add
  journal_add_done j lba v e = ground arith

  -- A sector that is written in a transaction, with a status of 0 from the journal and from the cache, keeps the
  -- cache coherent and the journal in agreement with it.
  pub journaled_write-Agrees :
      (j : Journal) (s : Cache Disks) (lba : ℕ) (v : Sector)
      → IsCoherent drv s
      → Agrees j s
      → (fat32_journal_add lba v j).0 ≡ pos 0
      → (blk_cache_write drv j.dev lba v s).0 ≡ 0
      → let after = journaled_write drv lba v (j, s) in
        IsCoherent drv after.1 × Agrees after.0 after.1
  unfolding journaled_write
  journaled_write-Agrees j s lba v c agrees added wrote =
      rw (journal_add_done j lba v added) (elim (blk_cache_write-Writes drv j.dev lba v s c) [
        | inr bad ↦ absurd (bad.0 wrote)
        | inl good ↦ (
          good.1,
          λ l w e. elim (Bool-cases (lba == l)) [
            | inl y ↦
                let here : l ≡ lba = ground arith in
                let same : v ≡ w = ground (arith, latest-append l lba v j.entries) in
                rw here (good.2 ∙ same)
            | inr n ↦
                good.3 j.dev l (inr (λ q. ground arith))
                ∙ agrees l w (ground (arith, latest-append l lba v j.entries))
          ],
        )
      ])
