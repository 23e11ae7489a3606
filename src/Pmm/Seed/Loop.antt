-- ===== src/Pmm/Seed/Loop.antt =====
-- The loop that hands the window to the free lists.
use lnxrm.Base.{
  ℕ, zero, suc, ◌+◌, ◌*◌, ◌/◌, ◌%◌, ◌≤◌, ◌<◌, ◌≡◌, inl, inr, ap, sym, arith, ◌∙◌, refl, true, false,
  some, List, ltb, leb, Bool-cases, leb→le, ltb→lt,
}
use lnxrm.Pmm.{size, max_order, Range, Pmm, resv_hits, pmm_free_order}
use lnxrm.Pmm.Blocks.{Aligned, size_next}
use lnxrm.Pmm.Amounts.{inside, covers, pages, amount-retotal}
use lnxrm.Pmm.Valid.{IsValid, IsBlock, retotal-IsValid}
use lnxrm.Pmm.Free.{
  IsCounted, pmm_free_order-IsValid, pmm_free_order-covers, pmm_free_order-IsCounted,
  pmm_free_order_window, pmm_free_order_resv,
}
use lnxrm.Pmm.Seed.Cover.{
  size_zero, Fits, Aligned-page, Aligned-next, fit_lem, shrink_lem, available, available-skip,
  available-block,
}
use lnxrm.Pmm.Seed.{fit, skip_page, block_order, seed}

-- The state of the loop at `cur`: the rest of the window holds no free block.
pub record Ready (cur top : ℕ) (rs : List Range) (s : Pmm) : Type 0 where
  pub valid : IsValid s
  pub counted : IsCounted s
  pub top_eq : s.top_addr ≡ top
  pub resv_eq : s.resv ≡ rs
  pub aligned : cur % 4096 ≡ 0
  pub above : s.base_addr ≤ cur
  pub clear : (f : ℕ) → cur ≤ f → covers f s ≡ 0

-- What the loop ends with.
pub record Seeded (cur top : ℕ) (rs : List Range) (s q : Pmm) : Type 0 where
  pub valid : IsValid q
  pub counted : IsCounted q
  pub window : (q.base_addr ≡ s.base_addr) × (q.top_addr ≡ top)
  pub free : (f : ℕ) → covers f q ≡ covers f s + available cur top rs f

skip_page-Ready :
    (cur top : ℕ) (rs : List Range) (s : Pmm)
    → Ready cur top rs s
    → Ready (cur + 4096) top rs (skip_page cur s)
unfolding skip_page
skip_page-Ready cur top rs s r = record {
  valid = retotal-IsValid _ s r.valid;
  counted = amount-retotal pages _ s ∙ r.counted;
  top_eq = r.top_eq;
  resv_eq = r.resv_eq;
  aligned = omega (arith, r.aligned);
  above = omega (arith, r.above);
  clear = λ f h. amount-retotal (inside f) _ s ∙ r.clear f (omega arith);
}

inside_le : (f o cur : ℕ) → inside f o cur ≤ 1
inside_le f o cur = ground arith

inside_before : (f o cur : ℕ) → f < cur → inside f o cur ≡ 0
inside_before f o cur h = ground arith

inside_end : (f o cur : ℕ) → cur + size o ≤ f → inside f o cur ≡ 0
inside_end f o cur h = ground arith

fresh_from :
    (o cur : ℕ) (s : Pmm)
    → ((f : ℕ) → cur ≤ f → covers f s ≡ 0)
    → (valid : IsValid s) → (f : ℕ) → covers f s + inside f o cur ≤ 1
fresh_from o cur s clear valid f = elim (Bool-cases (leb cur f)) [
  | inl e ↦ omega (arith, clear f (leb→le cur f e), inside_le f o cur)
  | inr e ↦ omega (arith, valid.once f, inside_before f o cur (ground arith))
]

free-Ready :
    (o cur top : ℕ) (rs : List Range) (s : Pmm)
    → o < max_order
    → Fits o cur top
    → Ready cur top rs s
    → Ready (cur + size o) top rs (pmm_free_order cur o s)
      × ((f : ℕ) → covers f (pmm_free_order cur o s) ≡ covers f s + inside f o cur)
free-Ready o cur top rs s l h r =
    let b : IsBlock o cur s = (h.0, r.above, omega (arith, h.1, r.top_eq)) in
    let fresh : (f : ℕ) → covers f s + inside f o cur ≤ 1 =
      λ f. fresh_from o cur s r.clear r.valid f in
    let same : (f : ℕ) → covers f (pmm_free_order cur o s) ≡ covers f s + inside f o cur =
      λ f. pmm_free_order-covers f cur o s l b fresh r.valid in
    let w = pmm_free_order_window cur o s in
    (
      record {
        valid = pmm_free_order-IsValid cur o s l b fresh r.valid;
        counted = pmm_free_order-IsCounted cur o s l b fresh r.valid r.counted;
        top_eq = w.1 ∙ r.top_eq;
        resv_eq = pmm_free_order_resv cur o s ∙ r.resv_eq;
        aligned = Aligned-page o _ (Aligned-next o cur h.0);
        above = omega (arith, w.0, r.above);
        clear = λ f g. omega (arith, same f, r.clear f (omega arith), inside_end f o cur g);
      },
      same,
    )

available_end : (cur top : ℕ) (rs : List Range) (f : ℕ) → top ≤ cur → available cur top rs f ≡ 0
available_end cur top rs f h = ground arith

block_order_lem :
    (cur top : ℕ) (rs : List Range) (s : Pmm)
    → cur < top
    → top % 4096 ≡ 0
    → resv_hits cur 4096 rs ≡ false
    → Ready cur top rs s
    → (block_order cur s < max_order)
      × Fits (block_order cur s) cur top
      × (resv_hits cur (size (block_order cur s)) rs ≡ false)
unfolding block_order
block_order_lem cur top rs s l t m r =
    let page : Aligned 0 cur =
      (cur / 4096, omega (arith, ap (λ n. cur / 4096 * n) size_zero, r.aligned)) in
    let start : Fits 0 cur top = (page, omega (arith, size_zero, r.aligned)) in
    let a = fit_lem 10 0 cur top start in
    let b = shrink_lem (fit 10 0 cur top) cur top rs a.1 in
    rw (r.top_eq, r.resv_eq) (omega (arith, a.0, b.0), b.1, b.2 m)

size_ge : (o : ℕ) → 4096 ≤ size o
size_ge zero = omega (arith, size_zero)
size_ge (suc o) =
    let up : size (suc o) ≡ size (o + 1) = ap size (omega arith) in
    omega (arith, size_next o, size_ge o, up)

ended :
    (cur top : ℕ) (rs : List Range) (s : Pmm)
    → top ≤ cur
    → Ready cur top rs s
    → Seeded cur top rs s s
ended cur top rs s h r = record {
  valid = r.valid;
  counted = r.counted;
  window = (refl, r.top_eq);
  free = λ f. omega (arith, available_end cur top rs f h);
}

skipped :
    (cur top : ℕ) (rs : List Range) (s q : Pmm)
    → cur % 4096 ≡ 0
    → resv_hits cur 4096 rs ≡ true
    → Seeded (cur + 4096) top rs (skip_page cur s) q
    → Seeded cur top rs s q
unfolding skip_page
skipped cur top rs s q a h z = record {
  valid = z.valid;
  counted = z.counted;
  window = z.window;
  free =
      λ f. omega (arith, z.free f, amount-retotal (inside f) _ s, available-skip cur top rs f a h);
}

-- The loop ends within as many rounds as there are pages left.
pub seed_lem :
    (n cur top : ℕ) (rs : List Range) (s : Pmm)
    → top % 4096 ≡ 0
    → top ≤ cur + n * 4096
    → Ready cur top rs s
    → (q : Pmm) × (seed n cur s ≡ some q) × Seeded cur top rs s q
unfolding seed
seed_lem zero cur top rs s t h r =
    let stop : ltb cur s.top_addr ≡ false = ground (arith, r.top_eq, h) in
    (s, rw stop refl, ended cur top rs s (omega arith) r)
seed_lem (suc n) cur top rs s t h r = elim (Bool-cases (ltb cur s.top_addr)) [
  | inl e ↦ elim (Bool-cases (resv_hits cur 4096 s.resv)) [
    | inl k ↦
        let hit : resv_hits cur 4096 rs ≡ true =
          ap (λ l. resv_hits cur 4096 l) (sym r.resv_eq) ∙ k in
        let (q, run, z) =
          seed_lem n (cur + 4096) top rs (skip_page cur s) t (omega arith)
            (skip_page-Ready cur top rs s r) in
        (q, rw (e, seed, k, seed) run, skipped cur top rs s q r.aligned hit z)
    | inr k ↦
        let miss : resv_hits cur 4096 rs ≡ false =
          ap (λ l. resv_hits cur 4096 l) (sym r.resv_eq) ∙ k in
        let (small, fits, clear) =
          block_order_lem cur top rs s (omega (arith, ltb→lt _ _ e, r.top_eq)) t miss r in
        let (r', same) = free-Ready _ cur top rs s small fits r in
        let (q, run, z) =
          seed_lem n (cur + size (block_order cur s)) top rs _ t
            (omega (arith, size_ge (block_order cur s))) r' in
        (
          q,
          rw (e, seed, k, seed) run,
          record {
            valid = z.valid;
            counted = z.counted;
            window =
                let w = pmm_free_order_window cur (block_order cur s) s in
                (z.window.0 ∙ w.0, z.window.1);
            free = λ f. omega (arith, z.free f, same f, available-block _ cur top rs f fits clear);
          },
        )
  ]
  | inr e ↦ (s, rw (e, seed) refl, ended cur top rs s (ground (arith, r.top_eq)) r)
]
