-- ===== src/Pmm/Tests.antt =====
-- The frame allocator on a small window.
use lnxrm.Base.{ℕ, ◌+◌, ◌/◌, ◌≤◌, ◌<◌, ◌≡◌, refl, [], ◌∷◌, arith, map}
use lnxrm.Base.Links.{unlink}
use lnxrm.Pmm.{
  size, Pmm, blank_window, push, bit_set, put, index, pmm_alloc_order, pmm_free_order, bits_bytes,
  take_block, split, withdraw, bit_clr, find_order, coalesce, merges, bit_get, buddy_of,
}
use lnxrm.Pmm.Amounts.{covers, inside, pages, amount-blank_window}
use lnxrm.Pmm.Valid.{IsValid, IsBlock, blank_window-IsValid}
use lnxrm.Pmm.Free.{
  IsCounted, pmm_free_order-IsValid, pmm_free_order-covers, pmm_free_order-IsCounted,
  pmm_free_order_window,
}
use lnxrm.Pmm.Alloc.{Refused}
use lnxrm.Pmm.Frames.{
  World, Steps, IsOwned, owners, alloc, give_back, done, more, pmm_alloc_order-covers,
  pmm_alloc_order-fails, pmm_alloc_order-IsCounted, Steps-IsOwned,
}
use lnxrm.Pmm.Seed.{E820Entry}
use lnxrm.Pmm.Seed.Region.{index-bits_bytes}

-- A window of four pages at 1 MiB.
abbrev window : Pmm
window = blank_window 0x100000 0x104000 [] 4

block : IsBlock 2 0x100000 window
unfolding size
block = ((64, refl), omega arith, omega arith)

fresh : (f : ℕ) → covers f window + inside f 2 0x100000 ≤ 1
fresh f = ground (arith, amount-blank_window (inside f) 0x100000 0x104000 [] 4)

-- The window as one free block of order 2.
abbrev pub whole : Pmm
whole = pmm_free_order 0x100000 2 window

pub whole-IsValid : IsValid whole
whole-IsValid =
    pmm_free_order-IsValid 0x100000 2 window (omega arith) block fresh
      (blank_window-IsValid _ _ _ _)

-- Nothing outside the window is free.
pub covers-whole : (f : ℕ) → covers f whole ≡ inside f 2 0x100000
covers-whole f = omega (
  arith,
  pmm_free_order-covers f 0x100000 2 window (omega arith) block fresh
      (blank_window-IsValid 0x100000 0x104000 [] 4),
  amount-blank_window (inside f) 0x100000 0x104000 [] 4,
)

whole-IsCounted : IsCounted whole
whole-IsCounted =
    pmm_free_order-IsCounted 0x100000 2 window (omega arith) block fresh
      (blank_window-IsValid _ _ _ _) (amount-blank_window pages 0x100000 0x104000 [] 4)

first_page : (pmm_alloc_order 0 whole).1 ≡ 0x100000
unfolding pmm_alloc_order pmm_free_order coalesce merges bit_get put index push bit_set take_block
    split withdraw bit_clr find_order size buddy_of
first_page = refl

-- What is left of the window after one page was taken.
left_over :
    map (pmm_alloc_order 0 whole).0.free (0 ∷ 1 ∷ 2 ∷ [])
    ≡ (0x101000 ∷ []) ∷ (0x102000 ∷ []) ∷ [] ∷ []
unfolding pmm_alloc_order pmm_free_order coalesce merges bit_get put index push bit_set take_block
    split withdraw bit_clr find_order size buddy_of
left_over = refl

-- The page is returned and the halves are joined again.
joined :
    map (pmm_free_order 0x100000 0 (pmm_alloc_order 0 whole).0).free (0 ∷ 1 ∷ 2 ∷ [])
    ≡ [] ∷ [] ∷ (0x100000 ∷ []) ∷ []
unfolding pmm_alloc_order pmm_free_order coalesce merges bit_get put index push bit_set take_block
    split withdraw bit_clr find_order size buddy_of unlink
joined = refl

pmm_alloc_order-covers_example :
    IsBlock 0 (pmm_alloc_order 0 whole).1 whole
    × (covers 0x100010 (pmm_alloc_order 0 whole).0 + inside 0x100010 0 (pmm_alloc_order 0 whole).1
        ≡ covers 0x100010 whole)
pmm_alloc_order-covers_example =
    pmm_alloc_order-covers 0x100010 0 whole whole-IsValid (omega (arith, first_page))

pmm_alloc_order-IsCounted_example : IsCounted (pmm_alloc_order 1 whole).0
pmm_alloc_order-IsCounted_example = pmm_alloc_order-IsCounted 1 whole whole-IsValid whole-IsCounted

-- Three pages are left of the four: no block of eight pages.
too_large : (pmm_alloc_order 3 whole).1 ≡ 0
unfolding pmm_alloc_order pmm_free_order coalesce merges bit_get put index push bit_set find_order
    size buddy_of
too_large = refl

pmm_alloc_order-fails_example : Refused 3 whole
pmm_alloc_order-fails_example =
    pmm_alloc_order-fails 3 whole whole-IsValid
      (omega (arith, pmm_free_order_window 0x100000 2 window)) too_large

abbrev idle_world : World
idle_world = record { pmm = whole; held = [] }

abbrev busy_world : World
busy_world = record {
  pmm = (pmm_alloc_order 0 whole).0;
  held = (0, (pmm_alloc_order 0 whole).1) ∷ [];
}

-- A page is taken and given back.
abbrev last_world : World
last_world = record {
  pmm = pmm_free_order (pmm_alloc_order 0 whole).1 0 (pmm_alloc_order 0 whole).0;
  held = [];
}

one_round : Steps idle_world last_world
one_round =
    more idle_world busy_world last_world
      (alloc whole [] 0 (omega arith) (omega (arith, first_page)))
      (more busy_world last_world last_world
        (give_back (pmm_alloc_order 0 whole).0 [] [] 0 (pmm_alloc_order 0 whole).1)
        (done last_world))

idle-IsOwned : IsOwned idle_world
idle-IsOwned = record {
  valid = whole-IsValid;
  blocks = tt;
  single = λ f. omega (arith, whole-IsValid.once f);
}

Steps-IsOwned_example : IsOwned last_world × ((f : ℕ) → owners f last_world ≡ owners f idle_world)
Steps-IsOwned_example = Steps-IsOwned idle_world last_world one_round idle-IsOwned

abbrev ram : E820Entry
ram = record { addr = 0x100000; size = 0x4000000; type = 1 }

abbrev low_ram : E820Entry
low_ram = record { addr = 0; size = 0x200000; type = 1 }

index-bits_bytes_example : index 0x100000 1 0x103000 / 8 < bits_bytes 1 window
index-bits_bytes_example = index-bits_bytes 1 0x103000 window (omega arith) (omega arith)

pmm_free_order-covers_example :
    covers 0x101000 (pmm_free_order 0x100000 2 window)
    ≡ covers 0x101000 window + inside 0x101000 2 0x100000
pmm_free_order-covers_example =
    pmm_free_order-covers 0x101000 0x100000 2 window (omega arith) block fresh
      (blank_window-IsValid _ _ _ _)
