-- ===== src/Kheap.antt =====
-- The kernel heap (kernel/mm/kheap.c): lists of chunks of 16 to 4096 bytes, and whole blocks of the frame
-- allocator for what is larger. A pointer is given by its physical address, which the high alias maps
-- at a fixed distance. The header of a chunk is read through the address before the pointer. The panics
-- are `none`.
pub mod Trip
mod Tests
use lnxrm.Base.{
  ℕ, zero, suc, ◌+◌, ◌-◌, ◌*◌, ◌/◌, ◌%◌, ◌^◌, bit_or, Bool, true, false, not, Option, none, some,
  List, [], ◌∷◌, update, ltb, ◌==◌, if◌then◌else◌,
}
use lnxrm.Base.Words.{align_up, sub64, add64}
use lnxrm.Pmm.{Pmm, pmm_alloc_order, pmm_free_order}

pub record Header : Type 0 where
  pub bin_or_order : ℕ
  pub magic : ℕ

abbrev pub heap_magic : ℕ
heap_magic = 0xecec_0001

pub record Heap : Type 0 where
  pub pmm : Pmm
  pub headers : ℕ → Header
  pub freelist : ℕ → List ℕ
  pub heap_used : ℕ

-- The loop `while ((1UL << b) < n) b++`, for at most 12 rounds.
pub bin_up : ℕ → ℕ → ℕ → ℕ
bin_up zero b n = b
bin_up (suc k) b n = let rest = bin_up k (b + 1) n in if ltb (2 ^ b) n then rest else b

pub bin_of : ℕ → ℕ
bin_of n = bin_up 12 4 n - 4

-- The loop `while ((PAGE_SIZE << order) < need) order++`; 2 ^ 52 pages are all of memory.
pub order_up : ℕ → ℕ → ℕ → ℕ
order_up zero o need = o
order_up (suc k) o need =
    let rest = order_up k (o + 1) need in if ltb (4096 * 2 ^ o) need then rest else o

pub order_of : ℕ → ℕ
order_of need = order_up 52 0 need

-- The bytes that a request takes with its header.
pub total_of : ℕ → ℕ
total_of n = add64 (if n == 0 then 1 else n) 8

pub set_header : ℕ → ℕ → Heap → Heap
set_header h tag s = record s {
  headers = update s.headers h (record { bin_or_order = tag; magic = heap_magic });
}

pub alloc_large : ℕ → Heap → Option (Heap × ℕ)
alloc_large total s =
    let need = align_up total 4096 in
    let (q, pa) = pmm_alloc_order (order_of need) s.pmm in
    let s' = set_header pa (bit_or 0x80 (order_of need)) (record s { pmm = q }) in
    if pa == 0 then none else some (record s' { heap_used = add64 s.heap_used need }, pa + 8)

-- One chunk of a fresh page.
pub add_chunk : ℕ → ℕ → Heap → Heap
add_chunk b h s =
    let s' = set_header h b s in
    record s' { freelist = update s'.freelist b ((h + 8) ∷ s'.freelist b) }

-- `n` chunks, from the one at index `i` of the page on.
pub carve : ℕ → ℕ → ℕ → ℕ → Heap → Heap
carve zero i b base s = s
carve (suc n) i b base s = carve n (i + 1) b base (add_chunk b (base + i * 2 ^ (b + 4)) s)

pub refill : ℕ → Heap → Option Heap
refill b s =
    let (q, pa) = pmm_alloc_order 0 s.pmm in
    if pa == 0 then none else some (carve (4096 / 2 ^ (b + 4)) 0 b pa (record s { pmm = q }))

pub pop_chunk : ℕ → List ℕ → Heap → Heap × ℕ
pop_chunk b [] s = (s, 0)
pop_chunk b (p ∷ rest) s = (
  record s { freelist = update s.freelist b rest; heap_used = add64 s.heap_used (2 ^ (b + 4)) },
  p,
)

pub refilled : ℕ → Option Heap → Option (Heap × ℕ)
refilled b none = none
refilled b (some s) = some (pop_chunk b (s.freelist b) s)

pub take_chunk : ℕ → List ℕ → Heap → Option (Heap × ℕ)
take_chunk b [] s = refilled b (refill b s)
take_chunk b (p ∷ rest) s = some (pop_chunk b (p ∷ rest) s)

unfoldable pub kmalloc : ℕ → Heap → Option (Heap × ℕ)
kmalloc n s =
    if ltb 4096 (total_of n)
    then alloc_large (total_of n) s
    else take_chunk (bin_of (total_of n)) (s.freelist (bin_of (total_of n))) s

pub free_large : ℕ → ℕ → Heap → Heap
free_large h order s = record s {
  heap_used = sub64 s.heap_used (4096 * 2 ^ order);
  pmm = pmm_free_order h order s.pmm;
}

pub push_chunk : ℕ → ℕ → Heap → Heap
push_chunk p b s = record s {
  freelist = update s.freelist b (p ∷ s.freelist b);
  heap_used = sub64 s.heap_used (2 ^ (b + 4));
}

unfoldable pub kfree : ℕ → Heap → Option Heap
kfree p s =
    let h = s.headers (p - 8) in
    if p == 0
    then some s
    else if not (h.magic == heap_magic)
    then none
    else if h.bin_or_order / 128 % 2 == 1
    then some (free_large (p - 8) (h.bin_or_order % 128) s)
    else some (push_chunk p h.bin_or_order s)
