-- ===== src/Pmm/Seed/Region.antt =====
-- The start of the allocator: the memory map, the window and the blocks in it.
use lnxrm.Base.{
  ℕ, zero, suc, ◌+◌, ◌-◌, ◌/◌, ◌%◌, ◌≤◌, ◌<◌, ◌≡◌, ap, arith, ◌∙◌, refl, Option, none, some, List,
  [], ◌∷◌, get_elem?,
}
use lnxrm.Base.Words.{sub64}
use lnxrm.Pmm.{Range, Pmm, blank_window, bits_bytes, index, size}
use native.Mathlib.Nat.{lt_of_mul-lt-mul_right, div-add-mod', mod-lt}
use lnxrm.Pmm.Blocks.{succ_mul, size_pos, index_bounds}
use lnxrm.Pmm.Amounts.{covers, inside, pages, amount-blank_window}
use lnxrm.Pmm.Valid.{IsValid, blank_window-IsValid}
use lnxrm.Pmm.Free.{IsCounted}
use lnxrm.Pmm.Seed.{seed_window, page_size, E820Entry, usable_part, keep_longer, find_region}
use lnxrm.Pmm.Seed.Cover.{available}
use lnxrm.Pmm.Seed.Loop.{seed_lem, Ready}

blank_window-Ready :
    (base top : ℕ) (rs : List Range) (n : ℕ)
    → base % 4096 ≡ 0
    → Ready base top rs (blank_window base top rs n)
blank_window-Ready base top rs n h = record {
  valid = blank_window-IsValid base top rs n;
  counted = amount-blank_window pages base top rs n;
  top_eq = refl;
  resv_eq = refl;
  aligned = h;
  above = omega arith;
  clear = λ f _. amount-blank_window (inside f) base top rs n;
}

-- If the window starts and ends on a page, the loop that hands it out ends, the lists and bitmaps it
-- leaves agree, `free_pg` counts the free pages, and the free addresses are exactly those of the window
-- whose page touches no reserved range.
pub seed_window-available :
    (base top : ℕ) (rs : List Range)
    → base % 4096 ≡ 0
    → top % 4096 ≡ 0
    → (q : Pmm) × (seed_window base top rs ≡ some q)
      × IsValid q
      × IsCounted q
      × ((q.base_addr ≡ base) × (q.top_addr ≡ top))
      × ((f : ℕ) → covers f q ≡ available base top rs f)
unfolding seed_window
seed_window-available base top rs h t =
    let n = sub64 top base / page_size in
    let (q, run, z) =
      seed_lem ((top - base) / page_size) base top rs _ t (omega arith)
        (blank_window-Ready base top rs n h) in
    (
      q,
      run,
      z.valid,
      z.counted,
      z.window,
      λ f. omega (arith, z.free f, amount-blank_window (inside f) base top rs n),
    )

keep_longer_old :
    (best : Range) (o : Option Range)
    → best.hi - best.lo ≤ (keep_longer best o).hi - (keep_longer best o).lo
unfolding keep_longer
keep_longer_old best none = omega arith
keep_longer_old best (some r) = ground arith

keep_longer_new :
    (best r : Range) → r.hi - r.lo ≤ (keep_longer best (some r)).hi - (keep_longer best (some r)).lo
unfolding keep_longer
keep_longer_new best r = ground arith

find_region-grows :
    (es : List E820Entry) (best : Range)
    → best.hi - best.lo ≤ (find_region best es).hi - (find_region best es).lo
unfolding find_region
find_region-grows [] best = omega arith
find_region-grows (e ∷ es) best = omega (
  arith,
  keep_longer_old best (usable_part e),
  find_region-grows es (keep_longer best (usable_part e)),
)

-- The region that is chosen is at least as long as the usable_part part of every entry of the map.
pub find_region_longest :
    (map : List E820Entry) (best r : Range) (i : ℕ) (e : E820Entry)
    → get_elem? map i ≡ some e
    → usable_part e ≡ some r
    → r.hi - r.lo ≤ (find_region best map).hi - (find_region best map).lo
unfolding find_region
find_region_longest [] best r i e h u = cc
find_region_longest (e₀ ∷ es) best r zero e h u =
    let same : e₀ ≡ e = cc in
    let now : usable_part e₀ ≡ some r = ap usable_part same ∙ u in
    let kept : r.hi - r.lo
        ≤ (keep_longer best (usable_part e₀)).hi - (keep_longer best (usable_part e₀)).lo =
      rw now (keep_longer_new best r) in
    let grows = find_region-grows es (keep_longer best (usable_part e₀)) in omega arith
find_region_longest (e₀ ∷ es) best r (suc i) e h u =
    find_region_longest es (keep_longer best (usable_part e₀)) r i e h u

-- The bit of every block that starts in the window lies within the bytes set aside for its order.
pub index-bits_bytes :
    (o x : ℕ) (s : Pmm)
    → s.base_addr ≤ x
    → x < s.top_addr
    → index s.base_addr o x / 8 < bits_bytes o s
unfolding bits_bytes
index-bits_bytes o x s h l =
    let i = index_bounds o s.base_addr x in
    let d = div-add-mod' (s.top_addr - s.base_addr) (size o) in
    let m = mod-lt (s.top_addr - s.base_addr) (size_pos o) in
    let blocks = (s.top_addr - s.base_addr) / size o in
    let below : index s.base_addr o x < blocks + 1 =
      lt_of_mul-lt-mul_right (size o)
        (omega (arith, i.0, d, m, succ_mul ((s.top_addr - s.base_addr) / size o) (size o))) in
    omega arith
