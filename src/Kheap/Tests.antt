-- ===== src/Kheap/Tests.antt =====
-- A block of four pages for a request of three.
use lnxrm.Base.{ℕ, ◌≡◌, refl, arith, Option, none, some, [], ◌<◌}
use lnxrm.Pmm.{
  size, push, bit_set, put, index, pmm_alloc_order, pmm_free_order, take_block, split, withdraw,
  bit_clr, find_order, coalesce, merges, bit_get, buddy_of,
}
use lnxrm.Pmm.Tests.{whole, whole-IsValid}
use lnxrm.Kheap.{Heap, kmalloc, alloc_large, order_of, order_up, total_of, set_header}
use lnxrm.Kheap.Trip.{kmalloc-kfree, Returned}

abbrev start : Heap
start = record {
  pmm = whole;
  headers = λ a. record { bin_or_order = 0; magic = 0 };
  freelist = λ b. [];
  heap_used = 0;
}

abbrev pointer : Option (Heap × ℕ) → Option ℕ
pointer none = none
pointer (some x) = some x.1

abbrev heap_of : Option (Heap × ℕ) → Heap
heap_of none = start
heap_of (some x) = x.0

from_pointer : (o : Option (Heap × ℕ)) (p : ℕ) → pointer o ≡ some p → o ≡ some (heap_of o, p)
from_pointer none p e = cc
from_pointer (some x) p e = ground arith

handed_out : pointer (kmalloc 9000 start) ≡ some 0x100008
unfolding kmalloc alloc_large order_of order_up total_of set_header pmm_alloc_order pmm_free_order
    coalesce merges bit_get put index push bit_set take_block split withdraw bit_clr find_order size
    buddy_of
handed_out = refl

big_request : 4096 < total_of 9000
unfolding total_of
big_request = omega arith

rounded : order_of 12288 ≡ 2
unfolding order_of order_up
rounded = refl

kmalloc-kfree_example :
    Returned (order_of 12288) 12288 start 0x100008 (heap_of (kmalloc 9000 start))
unfolding total_of
kmalloc-kfree_example =
    kmalloc-kfree 9000 0x100008 start (heap_of (kmalloc 9000 start)) whole-IsValid big_request
      (from_pointer (kmalloc 9000 start) 0x100008 handed_out)
