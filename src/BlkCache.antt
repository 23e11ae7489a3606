-- ===== src/BlkCache.antt =====
-- kernel/fs/blk_cache.c: the sector cache. Every function runs under `cache_lock` and is one step; the
-- callers pass a buffer, never NULL.
pub mod View
mod Steps
pub mod Calls
pub mod Writes
pub mod Flush
mod Tests
use lnxrm.Base.{
  ℕ, zero, suc, ◌+◌, ◌<◌, ◌≡◌, Bool, true, false, not, ◌&&◌, ◌||◌, Option, none, some, [], ◌==◌,
  ltb, if◌then◌else◌, update,
}
use lnxrm.Disk.{Driver, Sector}

abbrev pub cache_entries : ℕ
cache_entries = 64

pub record Entry : Type 0 where
  pub lba : ℕ
  pub bytes : Sector
  pub valid : Bool
  pub dirty : Bool
  pub used : Bool
  pub dev : ℕ

-- Does an entry hold sector `lba` of device `dev`?
abbrev pub holds : Entry → ℕ → ℕ → Bool
holds e dev lba = e.valid && e.dev == dev && e.lba == lba

-- The loop of `cache_find` from index `i` on, with `n` entries left.
pub find_index : ℕ → ℕ → ℕ → ℕ → (ℕ → Entry) → Option ℕ
find_index zero i dev lba c = none
find_index (suc n) i dev lba c =
    let rest = find_index n (i + 1) dev lba c in if holds (c i) dev lba then some i else rest

abbrev pub mark_used : ℕ → (ℕ → Entry) → ℕ → Entry
mark_used i c = update c i (record (c i) { used = true })

-- The first index from `i` on that passes a test.
pub first_index : ℕ → ℕ → (Entry → Bool) → (ℕ → Entry) → Option ℕ
first_index zero i test c = none
first_index (suc n) i test c =
    let rest = first_index n (i + 1) test c in if test (c i) then some i else rest

abbrev pub clear_used : (ℕ → Entry) → ℕ → Entry
clear_used c i = if ltb i cache_entries then record (c i) { used = false } else c i

abbrev pub or_zero : Option ℕ → ℕ
or_zero none = 0
or_zero (some i) = i

-- The victim: an invalid entry, else one that is not used, else the first after all flags are cleared.
pub cache_find_victim : (ℕ → Entry) → ℕ × (ℕ → Entry)
cache_find_victim c = elim (first_index cache_entries 0 (λ e. not e.valid) c) [
  | some i ↦ (i, c)
  | none ↦ elim (first_index cache_entries 0 (λ e. not e.used) c) [
    | some i ↦ (i, c)
    | none ↦ (or_zero (first_index cache_entries 0 (λ e. not e.used) (clear_used c)), clear_used c)
  ]
]

pub record Cache (Disks : Type 0) : Type 0 where
  pub entries : ℕ → Entry
  pub disks : Disks

-- The outcome of a read: the bytes in the caller's buffer, or a status that is not 0.
pub data Fetched (Disks : Type 0) : Type 0 where
  got : Sector → Cache Disks → Fetched Disks
  failed : ℕ → Cache Disks → Fetched Disks

-- The entry of a sector that was just read.
abbrev pub loaded : ℕ → ℕ → Sector → Entry
loaded dev lba buf = record {
  lba = lba;
  bytes = buf;
  valid = true;
  dirty = false;
  used = true;
  dev = dev;
}

module _ (drv : Driver) where
  open drv use {Disks, read, write}

  pub blk_cache_init : Disks → Cache Disks
  blk_cache_init d = record {
    entries =
        λ i. record { lba = 0; bytes = []; valid = false; dirty = false; used = false; dev = 0 };
    disks = d;
  }

  pub cache_writeback : ℕ → Cache Disks → ℕ × Cache Disks
  cache_writeback i s =
      let e = s.entries i in
      if e.valid && e.dirty
      then (let (status, d) = write s.disks e.dev e.lba e.bytes in
          (
            status,
            record {
              entries =
                  if status == 0
                  then update s.entries i (record e { dirty = false })
                  else s.entries;
              disks = d;
            },
          ))
      else (0, s)

  -- Read sector `lba` into entry `i`, whose old contents are not needed any more.
  pub fill : ℕ → ℕ → ℕ → Cache Disks → Fetched Disks
  fill i dev lba s =
      let e = s.entries i in
      let (status, buf) = read s.disks dev lba e.bytes in
      if status == 0
      then got buf (record s { entries = update s.entries i (loaded dev lba buf) })
      else failed status (record s { entries = update s.entries i (record e { bytes = buf }) })

  -- The victim `i` is written back before it is filled.
  pub replace : ℕ → ℕ → ℕ → Cache Disks → Fetched Disks
  unfolding cache_writeback fill
  replace i dev lba s =
      let (status, s') = cache_writeback i s in
      if status == 0 then fill i dev lba s' else failed status s'

  pub blk_cache_read : ℕ → ℕ → Cache Disks → Fetched Disks
  unfolding replace
  blk_cache_read dev lba s = elim (find_index cache_entries 0 dev lba s.entries) [
    | some i ↦ got (s.entries i).bytes (record s { entries = mark_used i s.entries })
    | none ↦
        (let (i, c) = cache_find_victim s.entries in replace i dev lba (record s { entries = c }))
  ]

  -- `memcpy(cache[idx].data, buf, …); cache[idx].dirty = true;`
  abbrev pub put_bytes : ℕ → Sector → Cache Disks → Cache Disks
  put_bytes i v s = record s {
    entries = update s.entries i (record (s.entries i) { bytes = v; dirty = true });
  }

  -- `cache[idx].lba = lba; … cache[idx].used = true;`
  abbrev pub claim : ℕ → ℕ → ℕ → Cache Disks → Cache Disks
  claim i dev lba s = record s {
    entries =
        update s.entries i
          (record (s.entries i) { lba = lba; dev = dev; valid = true; used = true });
  }

  pub overwrite : ℕ → ℕ → ℕ → Sector → Cache Disks → ℕ × Cache Disks
  unfolding cache_writeback
  overwrite i dev lba v s =
      let (status, s') = cache_writeback i s in
      if status == 0 then (0, put_bytes i v (claim i dev lba s')) else (status, s')

  pub blk_cache_write : ℕ → ℕ → Sector → Cache Disks → ℕ × Cache Disks
  unfolding overwrite
  blk_cache_write dev lba v s = elim (find_index cache_entries 0 dev lba s.entries) [
    | some i ↦ (0, put_bytes i v (record s { entries = mark_used i s.entries }))
    | none ↦
        (let (i, c) = cache_find_victim s.entries in
          overwrite i dev lba v (record s { entries = c }))
  ]

  -- One round of the flush of device `dev`, with the status so far.
  pub flush_entry : ℕ → ℕ → ℕ × Cache Disks → ℕ × Cache Disks
  unfolding cache_writeback
  flush_entry dev i (ret, s) =
      let e = s.entries i in
      if e.valid && e.dirty && e.dev == dev
      then (let (r, s') = cache_writeback i s in (if r == 0 then ret else r, s'))
      else (ret, s)

  pub flush_from : ℕ → ℕ → ℕ → ℕ × Cache Disks → ℕ × Cache Disks
  flush_from zero dev i r = r
  flush_from (suc n) dev i r = flush_from n dev (i + 1) (flush_entry dev i r)

  pub blk_cache_flush : ℕ → Cache Disks → ℕ × Cache Disks
  blk_cache_flush dev s = flush_from cache_entries dev 0 (0, s)
