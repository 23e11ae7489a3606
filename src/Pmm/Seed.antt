-- ===== src/Pmm/Seed.antt =====
-- `pmm_init`: the region of the E820 map that is chosen, the managed window in it, and the loop that
-- hands its blocks to the free lists. The end of the kernel image, which the linker provides, is an
-- argument. `kheap_place` (kernel/mm/vmm.c) takes the kernel heap off the top of the region.
pub mod Cover
pub mod Loop
pub mod Region
use lnxrm.Base.{
  ℕ, zero, suc, ◌+◌, ◌-◌, ◌*◌, ◌/◌, ◌%◌, ◌^◌, min, max, Bool, true, false, not, ◌&&◌, ◌||◌, Option,
  none, some, List, [], ◌∷◌, ltb, leb, ◌==◌, if◌then◌else◌,
}
use lnxrm.Base.Words.{align_down, align_up, sub64}
use lnxrm.Pmm.{size, max_order, Range, Pmm, resv_hits, pmm_free_order, blank_window}

abbrev pub page_size : ℕ
page_size = 4096

-- The largest order, from `o` on and with `n` larger ones, at which `cur` is aligned and whose block
-- ends below `top`.
pub fit : ℕ → ℕ → ℕ → ℕ → ℕ
fit zero o cur top = o
fit (suc n) o cur top = elim (cur % size (o + 1) == 0 && leb (cur + size (o + 1)) top) [
  | true ↦ fit n (o + 1) cur top
  | false ↦ o
]

-- The order falls until the block misses every reserved range.
pub shrink : ℕ → ℕ → List Range → ℕ
shrink zero cur rs = 0
shrink (suc o) cur rs = elim (resv_hits cur (size (suc o)) rs) [
  | true ↦ shrink o cur rs
  | false ↦ suc o
]

-- One page is left out.
pub skip_page : ℕ → Pmm → Pmm
skip_page cur s = record s {
  total_pg = if leb page_size (s.top_addr - cur) then sub64 s.total_pg 1 else s.total_pg;
}

pub block_order : ℕ → Pmm → ℕ
block_order cur s = shrink (fit 10 0 cur s.top_addr) cur s.resv

-- The loop from `cur` to the top of the window, `none` if the fuel runs out.
pub seed : ℕ → ℕ → Pmm → Option Pmm
seed zero cur s = if ltb cur s.top_addr then none else some s
seed (suc n) cur s = elim (ltb cur s.top_addr) [
  | true ↦ elim (resv_hits cur page_size s.resv) [
    | true ↦ seed n (cur + page_size) (skip_page cur s)
    | false ↦ seed n (cur + size (block_order cur s)) (pmm_free_order cur (block_order cur s) s)
  ]
  | false ↦ some s
]

-- An entry of the memory map; type 1 is usable_part RAM.
pub record E820Entry : Type 0 where
  pub addr : ℕ
  pub size : ℕ
  pub type : ℕ

abbrev pub e820_ram : ℕ
e820_ram = 1

-- The part of an entry that counts: above 1 MiB and below 4 GiB.
pub usable_part : E820Entry → Option Range
usable_part e =
    let lo = max e.addr 0x100000 in
    let hi = (e.addr + e.size) % 2 ^ 64 in
    if not (e.type == e820_ram) || leb hi lo || ltb 0x100000000 lo
    then none
    else some (record { lo = lo; hi = min hi 0x100000000 })

pub keep_longer : Range → Option Range → Range
keep_longer best none = best
keep_longer best (some r) = if ltb (best.hi - best.lo) (r.hi - r.lo) then r else best

pub find_region : Range → List E820Entry → Range
find_region best [] = best
find_region best (e ∷ es) = find_region (keep_longer best (usable_part e)) es

-- The start of the heap, which is the new top of the region.
pub kheap_place : ℕ → ℕ → ℕ
kheap_place region_top bytes = align_down (sub64 (align_down region_top page_size) bytes) page_size

-- As many rounds as the window has pages.
pub seed_window : ℕ → ℕ → List Range → Option Pmm
seed_window base top rs =
    seed ((top - base) / page_size) base (blank_window base top rs (sub64 top base / page_size))

unfoldable pub pmm_init : List E820Entry → ℕ → List Range → Option Pmm
pmm_init map bss_end rs =
    let best = find_region (record { lo = 0; hi = 0 }) map in
    let kern_end = align_up bss_end page_size in
    let top = kheap_place (align_down best.hi 0x200000) 0x1000000 in
    seed_window (align_up kern_end page_size + 0x200000) top rs
