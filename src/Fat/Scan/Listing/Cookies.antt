-- ===== src/Fat/Scan/Listing/Cookies.antt =====
-- The whole directory by `fat_dir_iter`, beside the listing.
use lnxrm.Base.{
  ℕ, zero, suc, ◌+◌, ◌^◌, length-append, ◌*◌, ◌/◌, ◌%◌, ◌≤◌, ◌<◌, ◌≡◌, refl, sym, ap, subst, ◌∙◌,
  Bool, true, false, Option, none, some, inl, inr, List, [], ◌∷◌, ◌++◌, ◌==◌, leb, length,
  get_elem?, arith, Bool-cases,
}
use lnxrm.Fat.{Volume, ends_at, fat_next_cluster}
use lnxrm.Fat.Scan.{
  Dirent, LfnState, lfn_reset, Pass, stopped, ended, goes_on, scan_entries, scan_chain,
  fat_scan_dir,
}
use lnxrm.Fat.Scan.Listing.{Shown, Iter, scan_iter_cb, next_cookie, fat_dir_iter, collect}
use lnxrm.Fat.Scan.Listing.Passes.{
  mark, halted, seen_as, Extends, append_nil, append_assoc, get-append, collect-Extends,
  entries-seen,
}

-- The same over the clusters of the directory: a listing that ends keeps what it had found.
Kept : List Shown → Option (Bool × List Shown) → Type 0
Kept found none = 0 < 1
Kept found (some r) = (more : List Shown) × (r.1 ≡ found ++ more)

Kept-longer :
    (found more l : List Shown) (r : Option (Bool × List Shown))
    → l ≡ found ++ more
    → Kept l r
    → Kept found r
unfolding Kept
Kept-longer found more l none e h = h
Kept-longer found more l (some r) e (rest, q) =
    (more ++ rest, q ∙ ap (λ w. w ++ rest) e ∙ append_assoc found more rest)

after_pass :
    (found : List Shown) (p : Pass (List Shown))
    (go : LfnState → List Shown → Option (Bool × List Shown))
    → Extends found p
    → ((lf : LfnState) (l : List Shown) → Kept l (go lf l))
    → Kept found
        (elim p [ stopped q ↦ some (true, q) | ended q ↦ some (false, q) | goes_on lf q ↦ go lf q ])
unfolding Kept
after_pass found (stopped l) go x ih = absurd (omega arith)
after_pass found (ended l) go x ih = x
after_pass found (goes_on lf l) go (more, e) ih = Kept-longer found more l (go lf l) e (ih lf l)

chain-Kept :
    (n : ℕ) (m : Volume) (entries : ℕ → List Dirent) (c : ℕ) (lf : LfnState) (found : List Shown)
    → Kept found (scan_chain collect n m entries c lf found)
unfolding scan_chain Kept
chain-Kept zero m entries c lf found = elim (Bool-cases (ends_at c)) [
  | inl e ↦ rw e ([], sym (append_nil found))
  | inr e ↦ rw e (omega arith)
]
chain-Kept (suc n) m entries c lf found = elim (Bool-cases (ends_at c)) [
  | inl e ↦ rw e ([], sym (append_nil found))
  | inr e ↦ rw e (
      after_pass found (scan_entries collect (entries c) lf found)
        (λ lf' l. scan_chain collect n m entries (fat_next_cluster m c) lf' l)
        (collect-Extends (entries c) lf found)
        (λ lf' l. chain-Kept n m entries (fat_next_cluster m c) lf' l))
]

-- The iteration hits entry `k` of the listing, or none if the listing has no such entry.
Agrees : ℕ → Option (Bool × List Shown) → Option (Bool × Iter) → Type 0
Agrees k none r = 0 < 1
Agrees k (some l) none = 1 < 0
Agrees k (some l) (some r) = r.1.hit ≡ get_elem? l.1 k

get-beyond : (l : List Shown) (k : ℕ) → length l ≤ k → get_elem? l k ≡ none
get-beyond [] k h = refl
get-beyond (x ∷ l) zero h = absurd (omega arith)
get-beyond (x ∷ l) (suc k) h = get-beyond l k (omega arith)

halted-Agrees :
    (k : ℕ) (l : List Shown) (r : Option (Bool × List Shown))
    → k < length l
    → Kept l r
    → Agrees k r (some (true, halted k l))
unfolding Kept Agrees
halted-Agrees k l none h x = omega arith
halted-Agrees k l (some r) h (more, e) =
    sym (get-append l more k h) ∙ ap (λ w. get_elem? w k) (sym e)

after_both :
    (k : ℕ) (found : List Shown) (p : Pass (List Shown))
    (go : LfnState → List Shown → Option (Bool × List Shown))
    (go' : LfnState → Iter → Option (Bool × Iter))
    → Extends found p
    → ((lf : LfnState) (l : List Shown) → Kept l (go lf l))
    → ((lf : LfnState) (l : List Shown) → length l ≤ k → Agrees k (go lf l) (go' lf (mark l)))
    → Agrees k
        (elim p [ stopped q ↦ some (true, q) | ended q ↦ some (false, q) | goes_on lf q ↦ go lf q ])
        (elim (seen_as k p) [
          | stopped q ↦ some (true, q)
          | ended q ↦ some (false, q)
          | goes_on lf q ↦ go' lf q
        ])
unfolding Agrees
after_both k found (stopped l) go go' x kept ih = absurd (omega arith)
after_both k found (ended l) go go' x kept ih = elim (Bool-cases (leb (length l) k)) [
  | inl e ↦ rw e (sym (get-beyond l k (ground arith)))
  | inr e ↦ rw e refl
]
after_both k found (goes_on lf l) go go' x kept ih = elim (Bool-cases (leb (length l) k)) [
  | inl e ↦ rw e (ih lf l (ground arith))
  | inr e ↦ rw e (halted-Agrees k l (go lf l) (ground arith) (kept lf l))
]

chain-Agrees :
    (k n : ℕ) (m : Volume) (entries : ℕ → List Dirent) (c : ℕ) (lf : LfnState) (found : List Shown)
    → length found ≤ k
    → Agrees k
        (scan_chain collect n m entries c lf found)
        (scan_chain (scan_iter_cb k) n m entries c lf (mark found))
unfolding scan_chain Agrees
chain-Agrees k zero m entries c lf found le = elim (Bool-cases (ends_at c)) [
  | inl e ↦ rw e (sym (get-beyond found k le))
  | inr e ↦ rw e (omega arith)
]
chain-Agrees k (suc n) m entries c lf found le = elim (Bool-cases (ends_at c)) [
  | inl e ↦ rw e (sym (get-beyond found k le))
  | inr e ↦
      rw (e, entries-seen k (entries c) lf found le)
        (after_both k found (scan_entries collect (entries c) lf found)
          (λ lf' l. scan_chain collect n m entries (fat_next_cluster m c) lf' l)
          (λ lf' q. scan_chain (scan_iter_cb k) n m entries (fat_next_cluster m c) lf' q)
          (collect-Extends (entries c) lf found)
          (λ lf' l. chain-Kept n m entries (fat_next_cluster m c) lf' l)
          (λ lf' l room. chain-Agrees k n m entries (fat_next_cluster m c) lf' l room))
]

hits :
    (k : ℕ) (l : Bool × List Shown) (r : Option (Bool × Iter))
    → Agrees k (some l) r
    → (x : Bool × Iter) × (r ≡ some x) × (x.1.hit ≡ get_elem? l.1 k)
unfolding Agrees
hits k l none h = absurd (omega arith)
hits k l (some x) h = (x, refl, h)

get-next :
    (before : List Shown) (x : Shown) (rest : List Shown)
    → get_elem? (before ++ (x ∷ rest)) (length before) ≡ some x
get-next [] x rest = refl
get-next (y ∷ before) x rest = get-next before x rest

next_at :
    (k : ℕ) (o : Option Shown)
    → next_cookie (k * 256) o
      ≡ elim o [ none ↦ (k * 256 + 1, none) | some x ↦ ((k + 1) * 256 % 2 ^ 64, some x) ]
next_at k none = refl
next_at k (some x) =
    let index : k * 256 / 256 ≡ k = omega arith in ap (λ n. ((n + 1) * 256 % 2 ^ 64, some x)) index

module _ (fuel : ℕ) (m : Volume) (entries : ℕ → List Dirent) (stack : ℕ → ℕ) (dc : ℕ) where
  answers :
      (k : ℕ) (stop : Bool) (l : List Shown)
      → fat_scan_dir collect fuel m entries stack dc [] ≡ some (stop, l)
      → fat_dir_iter fuel m entries stack dc (k * 256)
        ≡ some (next_cookie (k * 256) (get_elem? l k))
  unfolding fat_scan_dir fat_dir_iter
  answers k stop l h =
      let start = lfn_reset (record { longname = stack; seq_max = 0; name_end = 0 }) in
      let even : (k * 256 % 2 == 1) ≡ false = ground arith in
      let index : k * 256 / 256 ≡ k = omega arith in
      let agrees = chain-Agrees k fuel m entries dc start [] (omega arith) in
      let hit =
        hits k (stop, l) (scan_chain (scan_iter_cb k) fuel m entries dc start (mark []))
          (subst (λ r. Agrees k r (scan_chain (scan_iter_cb k) fuel m entries dc start (mark []))) h
            agrees) in
      rw (even, index, hit.1) (ap (λ r. some (next_cookie (k * 256) r)) hit.2)

  -- A reader that calls `fat_dir_iter` until nothing is left, at most `n` times.
  pub read_all : ℕ → ℕ → Option (List Shown)
  read_all zero cookie = none
  read_all (suc n) cookie = elim (fat_dir_iter fuel m entries stack dc cookie) [
    | none ↦ none
    | some (c, none) ↦ some []
    | some (c, some x) ↦ elim (read_all n c) [ none ↦ none | some xs ↦ some (x ∷ xs) ]
  ]

  read_on :
      (rest before : List Shown) (k : ℕ) (stop : Bool) (l : List Shown)
      → fat_scan_dir collect fuel m entries stack dc [] ≡ some (stop, l)
      → length l < 2 ^ 56
      → l ≡ before ++ rest
      → length before ≡ k
      → read_all (suc (length rest)) (k * 256) ≡ some rest
  unfolding read_all
  read_on [] before k stop l h small split at =
      let none_left : get_elem? l k ≡ none =
        get-beyond l k (rw (split, append_nil before, at) (omega arith)) in
      rw (answers k stop l h, none_left, read_all) refl
  read_on (x ∷ rest) before k stop l h small split at =
      let here : get_elem? l k ≡ some x = rw (split, sym at) (get-next before x rest) in
      let room : k + suc (length rest) < 2 ^ 56 =
        subst (λ n. n < 2 ^ 56)
          (ap length split ∙ length-append before (x ∷ rest) ∙ ap (λ n. n + suc (length rest)) at)
          small in
      let advanced : (k * 256 / 256 + 1) * 256 % 2 ^ 64 ≡ (k + 1) * 256 = omega arith in
      let answer : fat_dir_iter fuel m entries stack dc (k * 256) ≡ some ((k + 1) * 256, some x) =
        answers k stop l h
        ∙ ap (λ o. some (next_cookie (k * 256) o)) here
        ∙ ap (λ c. some (c, some x)) advanced in
      let later =
        read_on rest (before ++ (x ∷ [])) (k + 1) stop l h small
          (split ∙ sym (append_assoc before (x ∷ []) rest))
          (length-append before (x ∷ []) ∙ ap (λ n. n + 1) at) in
      rw (answer, later, read_all) refl

-- With cookie `k * 256`, `fat_dir_iter` answers entry `k` of the listing, without the names that begin with a dot,
-- and the cookie `(k + 1) * 256` of 64 bits; behind the last entry it answers that nothing is left and sets bit 0 of the
-- cookie. A reader that starts at cookie 0 and calls it until nothing is left gets exactly the listing, after one call more
-- than it has entries. The listing is that of a directory whose chain ends within the fuel, and it has fewer than 2^56
-- entries.
pub fat_dir_iter-lists :
    (fuel : ℕ) (m : Volume) (entries : ℕ → List Dirent) (stack : ℕ → ℕ) (dc k : ℕ) (stop : Bool)
    (l : List Shown)
    → fat_scan_dir collect fuel m entries stack dc [] ≡ some (stop, l)
    → length l < 2 ^ 56
    → (fat_dir_iter fuel m entries stack dc (k * 256)
        ≡ some (elim (get_elem? l k) [
          | none ↦ (k * 256 + 1, none)
          | some x ↦ ((k + 1) * 256 % 2 ^ 64, some x)
        ]))
      × (read_all fuel m entries stack dc (length l + 1) 0 ≡ some l)
fat_dir_iter-lists fuel m entries stack dc k stop l h small =
    let calls : suc (length l) ≡ length l + 1 = omega arith in
    (
      answers fuel m entries stack dc k stop l h ∙ ap some (next_at k (get_elem? l k)),
      subst (λ n. read_all fuel m entries stack dc n 0 ≡ some l) calls
          (read_on fuel m entries stack dc l [] 0 stop l h small refl refl),
    )
