-- ===== src/Kheap/Trip.antt =====
-- A large block that is allocated and freed.
use lnxrm.Base.{
  ℕ, ◌+◌, ◌-◌, ◌*◌, ◌/◌, ◌%◌, ◌^◌, bit_or, ◌≤◌, ◌<◌, ◌≡◌, ◌≢◌, true, false, none, some, inl, inr,
  ap, sym, subst, arith, ◌∙◌, refl, ltb, ◌==◌, Bool-cases, lt→ltb,
}
use lnxrm.Base.Words.{align_up, sub64, add64}
use lnxrm.Base.Bits.{bit_or_pow}
use lnxrm.Pmm.{pmm_alloc_order}
use lnxrm.Pmm.Amounts.{covers, inside}
use lnxrm.Pmm.Valid.{IsValid, IsBlock}
use lnxrm.Pmm.Free.{pmm_free_order-IsValid, pmm_free_order-covers}
use lnxrm.Pmm.Frames.{pmm_alloc_order-IsValid, pmm_alloc_order-covers, pmm_alloc_order_window}
use lnxrm.Pmm.Alloc.{pmm_alloc_order_small}
use lnxrm.Kheap.{
  Heap, heap_magic, order_of, total_of, set_header, alloc_large, kmalloc, kfree, free_large,
}

none-ne-some : (x : Heap × ℕ) → none ≢ some x
none-ne-some x e = cc

some_pair : (x y : Heap × ℕ) → some x ≡ some y → (x.0 ≡ y.0) × (x.1 ≡ y.1)
some_pair x y e =
    let same : x ≡ y = cc in (ap (λ (k : Heap × ℕ). k.0) same, ap (λ (k : Heap × ℕ). k.1) same)

-- The tag of a large block: the highest bit, and the order below it.
tag_lem : (o : ℕ) → o < 11 → bit_or 0x80 o ≡ 128 + o
tag_lem o h = bit_or_pow 7 1 o (omega arith)

-- The heap after the frame allocator gave a block of order `o`.
given : ℕ → ℕ → Heap → Heap
given o need s =
    let s' =
      set_header (pmm_alloc_order o s.pmm).1 (bit_or 0x80 o)
        (record s { pmm = (pmm_alloc_order o s.pmm).0 }) in
    record s' { heap_used = add64 s.heap_used need }

-- The header that the release of the block reads.
read_header :
    (o need : ℕ) (s : Heap)
    → (given o need s).headers ((pmm_alloc_order o s.pmm).1 + 8 - 8)
      ≡ record { bin_or_order = bit_or 0x80 o; magic = heap_magic }
unfolding given set_header
read_header o need s =
    let back : (pmm_alloc_order o s.pmm).1 + 8 - 8 ≡ (pmm_alloc_order o s.pmm).1 = omega arith in
    rw back (ground arith)

kfree_large :
    (p o : ℕ) (s : Heap)
    → 0 < p
    → o < 11
    → s.headers (p - 8) ≡ record { bin_or_order = bit_or 0x80 o; magic = heap_magic }
    → kfree p s ≡ some (free_large (p - 8) o s)
unfolding kfree
kfree_large p o s h b e =
    let some_pointer : (p == 0) ≡ false = ground arith in
    let high : ((128 + o) / 128 % 2 == 1) ≡ true = ground arith in
    let low : (128 + o) % 128 ≡ o = omega arith in rw (some_pointer, e, tag_lem o b, high, low) refl

-- What the release of the block at `p` leaves.
abbrev pub Returned : ℕ → ℕ → Heap → ℕ → Heap → Type 0
Returned o need s p s' =
    (s'' : Heap) × (kfree p s' ≡ some s'')
    × IsValid s''.pmm
    × ((f : ℕ) → covers f s''.pmm ≡ covers f s.pmm)
    × (s''.heap_used ≡ sub64 (add64 s.heap_used need) (4096 * 2 ^ o))

given-Returned :
    (o need : ℕ) (s : Heap)
    → IsValid s.pmm
    → (pmm_alloc_order o s.pmm).1 ≢ 0
    → Returned o need s ((pmm_alloc_order o s.pmm).1 + 8) (given o need s)
unfolding given set_header kfree free_large
given-Returned o need s v n =
    let pa = (pmm_alloc_order o s.pmm).1 in
    let small = pmm_alloc_order_small o s.pmm n in
    let w = pmm_alloc_order_window o s.pmm v in
    let b = (pmm_alloc_order-covers 0 o s.pmm v n).0 in
    let block : IsBlock o pa (pmm_alloc_order o s.pmm).0 =
      (b.0, omega (arith, b.1, w.0), omega (arith, b.2, w.1)) in
    let moved : (f : ℕ) → covers f (pmm_alloc_order o s.pmm).0 + inside f o pa ≡ covers f s.pmm =
      λ f. (pmm_alloc_order-covers f o s.pmm v n).1 in
    let fresh : (f : ℕ) → covers f (pmm_alloc_order o s.pmm).0 + inside f o pa ≤ 1 =
      λ f. omega (arith, moved f, v.once f) in
    let v' = pmm_alloc_order-IsValid o s.pmm v in
    let back : pa + 8 - 8 ≡ pa = omega arith in
    (
      free_large (pa + 8 - 8) o (given o need s),
      kfree_large (pa + 8) o (given o need s) (omega arith) small (read_header o need s),
      rw back (pmm_free_order-IsValid pa o _ small block fresh v'),
      λ f. rw back (pmm_free_order-covers f pa o _ small block fresh v' ∙ moved f),
      refl,
    )

-- A request of more than a page, with its header, meets a valid frame allocator. If it succeeds, freeing
-- its pointer does not panic; the frame allocator is valid and every address is free again that was free
-- before; but the count of used bytes goes up by the size rounded to pages, and down by the whole block.
pub kmalloc-kfree :
    (n p : ℕ) (s s' : Heap)
    → IsValid s.pmm
    → 4096 < total_of n
    → kmalloc n s ≡ some (s', p)
    → Returned (order_of (align_up (total_of n) 4096)) (align_up (total_of n) 4096) s p s'
unfolding kmalloc alloc_large given
kmalloc-kfree n p s s' v big e =
    let need = align_up (total_of n) 4096 in
    let o = order_of need in
    let large : ltb 4096 (total_of n) ≡ true = lt→ltb 4096 (total_of n) big in
    elim (Bool-cases ((pmm_alloc_order o s.pmm).1 == 0)) [
      | inl z ↦
          let stop : kmalloc n s ≡ none = rw (large, kmalloc, z, alloc_large) refl in
          absurd (none-ne-some _ (sym stop ∙ e))
      | inr z ↦
          let run : kmalloc n s ≡ some (given o need s, (pmm_alloc_order o s.pmm).1 + 8) =
            rw (large, kmalloc, z, alloc_large) refl in
          let (same, at) = some_pair _ (s', p) (sym run ∙ e) in
          subst (λ h. Returned o need s p h) same
            (subst (λ k. Returned o need s k (given o need s)) at
              (given-Returned o need s v (ground arith)))
    ]
