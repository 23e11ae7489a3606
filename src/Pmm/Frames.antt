-- ===== src/Pmm/Frames.antt =====
-- What the allocator promises to those who hold frames.
use lnxrm.Base.{
  ℕ, ◌+◌, ◌≤◌, ◌<◌, ◌≡◌, ◌≢◌, inl, inr, ap, sym, subst, arith, ◌∙◌, refl, List, [], ◌∷◌, ◌++◌,
}
use lnxrm.Pmm.{max_order, Pmm, pmm_alloc_order, pmm_free_order}
use lnxrm.Pmm.Amounts.{inside, covers, pages, inside-Halves, pages-Halves}
use lnxrm.Pmm.Valid.{IsValid, IsBlock}
use lnxrm.Pmm.Free.{IsCounted, pmm_free_order-IsValid, pmm_free_order-covers, pmm_free_order_window}
use lnxrm.Pmm.Alloc.{Refused, pmm_alloc_order-cases}

-- An allocation of any order keeps the allocator's invariant, whether it finds a block or not: every
-- free block is aligned and in the window, the bitmaps agree with the lists, and no address lies in two
-- free blocks.
pub pmm_alloc_order-IsValid :
    (order : ℕ) (s : Pmm) → IsValid s → IsValid (pmm_alloc_order order s).0
pmm_alloc_order-IsValid order s i = elim (pmm_alloc_order-cases order s i) [
  | inl a ↦ a.valid
  | inr r ↦ subst (λ k. IsValid k.0) (sym r.0) i
]

-- A successful allocation hands out an aligned block of the requested order inside the window, and the
-- free addresses afterwards are exactly those that were free without those of the block.
pub pmm_alloc_order-covers :
    (f order : ℕ) (s : Pmm)
    → IsValid s
    → (pmm_alloc_order order s).1 ≢ 0
    → IsBlock order (pmm_alloc_order order s).1 s
      × (covers f (pmm_alloc_order order s).0 + inside f order (pmm_alloc_order order s).1
          ≡ covers f s)
pmm_alloc_order-covers f order s i n = elim (pmm_alloc_order-cases order s i) [
  | inl a ↦ (a.block, a.taken (inside f) (inside-Halves f))
  | inr r ↦ absurd (n (ap (λ k. k.1) r.0))
]

-- If the window does not start at address 0, an allocation fails only when there is no free block of the
-- requested order or a larger one, and then it changes nothing.
pub pmm_alloc_order-fails :
    (order : ℕ) (s : Pmm)
    → IsValid s
    → 0 < s.base_addr
    → (pmm_alloc_order order s).1 ≡ 0
    → Refused order s
pmm_alloc_order-fails order s i b n = elim (pmm_alloc_order-cases order s i) [
  | inl a ↦ absurd (omega (arith, a.block.1))
  | inr r ↦ r
]

-- An allocation keeps `free_pg` equal to the number of pages on the free lists; the subtraction does not
-- go below zero.
pub pmm_alloc_order-IsCounted :
    (order : ℕ) (s : Pmm) → IsValid s → IsCounted s → IsCounted (pmm_alloc_order order s).0
pmm_alloc_order-IsCounted order s i c = elim (pmm_alloc_order-cases order s i) [
  | inl a ↦ omega (arith, a.taken pages pages-Halves, a.counter)
  | inr r ↦ subst (λ k. IsCounted k.0) (sym r.0) c
]

pub pmm_alloc_order_window :
    (order : ℕ) (s : Pmm)
    → IsValid s
    → ((pmm_alloc_order order s).0.base_addr ≡ s.base_addr)
      × ((pmm_alloc_order order s).0.top_addr ≡ s.top_addr)
pmm_alloc_order_window order s i = elim (pmm_alloc_order-cases order s i) [
  | inl a ↦ a.window
  | inr r ↦
      subst (λ k. (k.0.base_addr ≡ s.base_addr) × (k.0.top_addr ≡ s.top_addr)) (sym r.0)
        (refl, refl)
]

-- The allocator with the blocks it has handed out.
pub record World : Type 0 where
  pub pmm : Pmm
  pub held : List (ℕ × ℕ)

-- How many of the blocks handed out cover an address.
abbrev pub holders : ℕ → List (ℕ × ℕ) → ℕ
holders f [] = 0
holders f ((o, x) ∷ held) = inside f o x + holders f held

-- A successful allocation of some order, or the return of a block that was handed out.
pub data Step : World → World → Type 0 where
  alloc :
      (s : Pmm) (held : List (ℕ × ℕ)) (order : ℕ)
      → order < max_order
      → (pmm_alloc_order order s).1 ≢ 0
      → Step
          (record { pmm = s; held = held })
          (record {
            pmm = (pmm_alloc_order order s).0;
            held = (order, (pmm_alloc_order order s).1) ∷ held;
          })
  give_back :
      (s : Pmm) (before after : List (ℕ × ℕ)) (order x : ℕ)
      → Step
          (record { pmm = s; held = before ++ (order, x) ∷ after })
          (record { pmm = pmm_free_order x order s; held = before ++ after })

pub data Steps : World → World → Type 0 where
  done : (w : World) → Steps w w
  more : (w w' w'' : World) → Step w w' → Steps w' w'' → Steps w w''

-- Blocks of an order below 11, aligned and in the window.
abbrev pub AreBlocks : List (ℕ × ℕ) → Pmm → Type 0
AreBlocks [] s = Unit {0}
AreBlocks ((o, x) ∷ held) s = (o < max_order) × IsBlock o x s × AreBlocks held s

pub record IsOwned (w : World) : Type 0 where
  pub valid : IsValid w.pmm
  pub blocks : AreBlocks w.held w.pmm
  pub single : (f : ℕ) → covers f w.pmm + holders f w.held ≤ 1

-- The addresses that are free or handed out.
abbrev pub owners : ℕ → World → ℕ
owners f w = covers f w.pmm + holders f w.held

AreBlocks-moved :
    (held : List (ℕ × ℕ)) (s q : Pmm)
    → (q.base_addr ≡ s.base_addr) × (q.top_addr ≡ s.top_addr)
    → AreBlocks held s
    → AreBlocks held q
AreBlocks-moved [] s q e b = tt
AreBlocks-moved ((o, x) ∷ held) s q e b = (
  b.0,
  (b.1.0, omega (arith, b.1.1, e.0), omega (arith, b.1.2, e.1)),
  AreBlocks-moved held s q e b.2,
)

holders-append :
    (f : ℕ) (before after : List (ℕ × ℕ))
    → holders f (before ++ after) ≡ holders f before + holders f after
holders-append f [] after = omega arith
holders-append f ((o, x) ∷ before) after = omega (arith, holders-append f before after)

AreBlocks-split :
    (before after : List (ℕ × ℕ)) (o x : ℕ) (s : Pmm)
    → AreBlocks (before ++ (o, x) ∷ after) s
    → (o < max_order) × IsBlock o x s × AreBlocks (before ++ after) s
AreBlocks-split [] after o x s b = b
AreBlocks-split (y ∷ before) after o x s b =
    let r = AreBlocks-split before after o x s b.2 in (r.0, r.1, (b.0, b.1, r.2))

Step-IsOwned :
    (w w' : World) → Step w w' → IsOwned w → IsOwned w' × ((f : ℕ) → owners f w' ≡ owners f w)
Step-IsOwned _ _ (alloc s held order h n) i =
    let a = pmm_alloc_order-covers 0 order s i.valid n in
    let w = pmm_alloc_order_window order s i.valid in
    let same : (f : ℕ)
        → covers f (pmm_alloc_order order s).0 + inside f order (pmm_alloc_order order s).1
          ≡ covers f s =
      λ f. (pmm_alloc_order-covers f order s i.valid n).1 in
    (
      record {
        valid = pmm_alloc_order-IsValid order s i.valid;
        blocks = (
          h,
          (a.0.0, omega (arith, a.0.1, w.0), omega (arith, a.0.2, w.1)),
          AreBlocks-moved held s _ w i.blocks,
        );
        single = λ f. omega (arith, same f, i.single f);
      },
      λ f. omega (arith, same f),
    )
Step-IsOwned _ _ (give_back s before after order x) i =
    let b = AreBlocks-split before after order x s i.blocks in
    let fresh : (f : ℕ) → covers f s + inside f order x ≤ 1 =
      λ f. omega (arith, i.single f, holders-append f before ((order, x) ∷ after)) in
    let same : (f : ℕ) → covers f (pmm_free_order x order s) ≡ covers f s + inside f order x =
      λ f. pmm_free_order-covers f x order s b.0 b.1 fresh i.valid in
    (
      record {
        valid = pmm_free_order-IsValid x order s b.0 b.1 fresh i.valid;
        blocks = AreBlocks-moved _ s _ (pmm_free_order_window x order s) b.2;
        single = λ f. omega (
          arith,
          same f,
          i.single f,
          holders-append f before ((order, x) ∷ after),
          holders-append f before after,
        );
      },
      λ f. omega (
        arith,
        same f,
        holders-append f before ((order, x) ∷ after),
        holders-append f before after,
      ),
    )

-- Over any run of allocations and frees of blocks that were handed out, no address lies in two blocks,
-- free or handed out, and the addresses that are free or handed out stay the same: no frame is given to
-- two owners, none is lost and none appears.
pub Steps-IsOwned :
    (w w' : World) → Steps w w' → IsOwned w → IsOwned w' × ((f : ℕ) → owners f w' ≡ owners f w)
Steps-IsOwned _ _ (done w) i = (i, λ f. refl)
Steps-IsOwned _ _ (more w w' w'' p ps) i =
    let first = Step-IsOwned w w' p i in
    let rest = Steps-IsOwned w' w'' ps first.0 in (rest.0, λ f. rest.1 f ∙ first.1 f)
