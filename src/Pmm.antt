-- ===== src/Pmm.antt =====
-- The physical frame allocator (kernel/mm/pmm.c): free lists of blocks of 2 ^ (12 + order) bytes for
-- the orders 0 to 10, and a bitmap for each order. A list is threaded through the first word of its
-- free blocks; here it is the list of their addresses, and `count` is its length. A bitmap is a
-- function from the index of a block to its bit. Addresses stay below 2 ^ 33 (the managed window ends
-- below 4 GiB), so that no sum of an address and a size wraps.
pub mod Blocks
pub mod Amounts
pub mod Valid
pub mod Free
pub mod Alloc
pub mod Frames
pub mod Seed
pub mod Tests
use lnxrm.Base.{
  ℕ, zero, suc, ◌+◌, ◌-◌, ◌*◌, ◌/◌, ◌%◌, ◌^◌, min, max, bit_xor, Bool, true, false, not, ◌&&◌, ◌||◌,
  Option, none, some, List, [], ◌∷◌, ◌++◌, length, update, ltb, leb, ◌==◌, if◌then◌else◌,
}
use lnxrm.Base.Links.{unlink}
use lnxrm.Base.Words.{align_down, align_up}

abbrev pub max_order : ℕ
max_order = 11

-- The bytes of a block of an order.
unfoldable pub size : ℕ → ℕ
size o = 2 ^ (12 + o)

pub record Range : Type 0 where
  pub lo : ℕ
  pub hi : ℕ

pub record Pmm : Type 0 where
  pub free : ℕ → List ℕ
  pub bits : ℕ → ℕ → Bool
  pub base_addr : ℕ
  pub top_addr : ℕ
  pub free_pg : ℕ
  pub total_pg : ℕ
  pub resv : List Range

-- The window before any block is free, with its number of pages.
abbrev pub blank_window : ℕ → ℕ → List Range → ℕ → Pmm
blank_window base top rs n = record {
  free = λ o. [];
  bits = λ o i. false;
  base_addr = base;
  top_addr = top;
  free_pg = 0;
  total_pg = n;
  resv = rs;
}

-- At most four reserved ranges are kept; an empty range and a fifth one are ignored.
unfoldable pub pmm_reserve : ℕ → ℕ → Pmm → Pmm
pmm_reserve lo hi s =
    if leb hi lo || leb 4 (length s.resv)
    then s
    else record s { resv = s.resv ++ record { lo = lo; hi = hi } ∷ [] }

-- Does [pa, pa + size) touch a reserved range?
unfoldable pub resv_hits : ℕ → ℕ → List Range → Bool
resv_hits pa n [] = false
resv_hits pa n (r ∷ rs) = (ltb pa r.hi && ltb r.lo (pa + n)) || resv_hits pa n rs

-- The bytes set aside for the bitmap of an order.
pub bits_bytes : ℕ → Pmm → ℕ
bits_bytes o s = ((s.top_addr - s.base_addr) / size o + 7) / 8 + 1

-- The bit of a block, for an address in the window.
unfoldable pub index : ℕ → ℕ → ℕ → ℕ
index base o pa = (pa - base) / size o

unfoldable pub bit_get : ℕ → ℕ → Pmm → Bool
bit_get o pa s = s.bits o (index s.base_addr o pa)

-- One bit of one bitmap replaced.
unfoldable pub put : (ℕ → ℕ → Bool) → ℕ → ℕ → Bool → ℕ → ℕ → Bool
put bits o i v o' j = if o == o' && i == j then v else bits o' j

unfoldable pub bit_set : ℕ → ℕ → Pmm → Pmm
bit_set o pa s = record s { bits = put s.bits o (index s.base_addr o pa) true }

unfoldable pub bit_clr : ℕ → ℕ → Pmm → Pmm
bit_clr o pa s = record s { bits = put s.bits o (index s.base_addr o pa) false }

unfoldable pub buddy_of : ℕ → ℕ → ℕ
buddy_of pa o = bit_xor pa (size o)

-- A block is pushed on the list of its order, and its bit set.
unfoldable pub push : ℕ → ℕ → Pmm → Pmm
push o pa s = bit_set o pa (record s { free = update s.free o (pa ∷ s.free o) })

-- The list of an order is replaced by `rest`, which misses the block `pa`, and its bit cleared.
unfoldable pub withdraw : ℕ → ℕ → List ℕ → Pmm → Pmm
withdraw o pa rest s = bit_clr o pa (record s { free = update s.free o rest })

-- The first order from `o` on, among `n` of them, with a free block.
unfoldable pub find_order : ℕ → ℕ → (ℕ → List ℕ) → Option ℕ
find_order zero o free = none
find_order (suc n) o free =
    let rest = find_order n (o + 1) free in if length (free o) == 0 then rest else some o

-- The block at `addr` of order `order + n` is split `n` times; the upper halves are freed.
unfoldable pub split : ℕ → ℕ → ℕ → Pmm → Pmm
split zero order addr s = s
split (suc n) order addr s = split n order addr (push (order + n) (addr + size (order + n)) s)

-- The head of the list of order `o` is taken and split down to `order`.
unfoldable pub take_block : ℕ → ℕ → List ℕ → Pmm → Pmm × ℕ
take_block order o [] s = (s, 0)
take_block order o (addr ∷ next) s =
    let s' = split (o - order) order addr (withdraw o addr next s) in
    (record s' { free_pg = s.free_pg - 2 ^ order }, addr)

-- The result 0 is a failure.
unfoldable pub pmm_alloc_order : ℕ → Pmm → Pmm × ℕ
pmm_alloc_order order s = elim (find_order (max_order - order) order s.free) [
  | none ↦ (s, 0)
  | some o ↦ take_block order o (s.free o) s
]

-- Is the buddy in the managed window, and free as a block of order `o`?
unfoldable pub merges : ℕ → ℕ → Pmm → Bool
merges o bud s = not (ltb bud s.base_addr || leb s.top_addr bud) && bit_get o bud s

-- `n` further orders are left for the block to grow to.
unfoldable pub coalesce : ℕ → ℕ → ℕ → Pmm → Pmm
coalesce zero o pa s = push o pa s
coalesce (suc n) o pa s =
    let bud = buddy_of pa o in
    elim (merges o bud s) [
      | true ↦ coalesce n (o + 1) (min pa bud) (withdraw o bud (unlink bud (s.free o)) s)
      | false ↦ push o pa s
    ]

unfoldable pub pmm_free_order : ℕ → ℕ → Pmm → Pmm
pmm_free_order pa order s =
    let s' = coalesce (max_order - 1 - order) order pa s in
    record s' { free_pg = s'.free_pg + 2 ^ order }
