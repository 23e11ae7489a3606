-- ===== src/Fat/Scan/Listing/Passes.antt =====
-- The scan of one cluster by `fat_dir_iter`, beside that of the listing.
use lnxrm.Base.{
  ℕ, zero, suc, ◌+◌, ◌≤◌, ◌<◌, ◌≡◌, refl, sym, ap, subst, ◌∙◌, true, false, none, some, inl, inr,
  List, [], ◌∷◌, ◌++◌, ◌==◌, leb, if◌then◌else◌, length, get_elem?, arith, Bool-cases,
  length-append,
}
use lnxrm.Fat.Scan.{
  Dirent, LfnState, lfn_reset, lfn_entry, entry_used, is_end, is_lfn, is_volume, entry_name, Pass,
  stopped, ended, goes_on, scan_entries,
}
use lnxrm.Fat.Scan.Listing.{Shown, shown, is_hidden, Iter, scan_iter_cb, collect}

-- The state of the iteration over `k` entries when the listing has come to `found`.
abbrev pub mark : List Shown → Iter
mark found = record { seen = length found; hit = none }

abbrev pub halted : ℕ → List Shown → Iter
halted k found = record { seen = k + 1; hit = get_elem? found k }

-- What the iteration makes of a pass that the listing makes.
abbrev pub seen_as : ℕ → Pass (List Shown) → Pass Iter
seen_as k (stopped l) = stopped (mark l)
seen_as k (ended l) = if leb (length l) k then ended (mark l) else stopped (halted k l)
seen_as k (goes_on lf l) = if leb (length l) k then goes_on lf (mark l) else stopped (halted k l)

-- A listing that has come to more than `k` entries keeps the first of them.
abbrev pub Extends : List Shown → Pass (List Shown) → Type 0
Extends found (stopped l) = 1 < 0
Extends found (ended l) = (more : List Shown) × (l ≡ found ++ more)
Extends found (goes_on lf l) = (more : List Shown) × (l ≡ found ++ more)

pub append_nil : (l : List Shown) → l ++ [] ≡ l
append_nil [] = refl
append_nil (x ∷ l) = ap (λ r. x ∷ r) (append_nil l)

pub append_assoc : (a b c : List Shown) → (a ++ b) ++ c ≡ a ++ (b ++ c)
append_assoc [] b c = refl
append_assoc (x ∷ a) b c = ap (λ r. x ∷ r) (append_assoc a b c)

pub get-append : (a b : List Shown) (k : ℕ) → k < length a → get_elem? (a ++ b) k ≡ get_elem? a k
get-append [] b k h = absurd (omega arith)
get-append (x ∷ a) b zero h = refl
get-append (x ∷ a) b (suc k) h = get-append a b k (omega arith)

get-last : (a : List Shown) (x : Shown) → get_elem? (a ++ (x ∷ [])) (length a) ≡ some x
get-last [] x = refl
get-last (y ∷ a) x = get-last a x

weaken :
    (found : List Shown) (x : Shown) (p : Pass (List Shown))
    → Extends (found ++ (x ∷ [])) p
    → Extends found p
weaken found x (stopped l) h = h
weaken found x (ended l) (more, e) = (x ∷ more, e ∙ append_assoc found (x ∷ []) more)
weaken found x (goes_on lf l) (more, e) = (x ∷ more, e ∙ append_assoc found (x ∷ []) more)

pub collect-Extends :
    (es : List Dirent) (lf : LfnState) (found : List Shown)
    → Extends found (scan_entries collect es lf found)
unfolding scan_entries collect
collect-Extends [] lf found = ([], sym (append_nil found))
collect-Extends (e ∷ es) lf found = elim (Bool-cases (is_end e)) [
  | inl a ↦ rw a ([], sym (append_nil found))
  | inr a ↦ elim (Bool-cases (entry_used e)) [
    | inr b ↦ rw (a, b) (collect-Extends es (lfn_reset lf) found)
    | inl b ↦ elim (Bool-cases (is_lfn e)) [
      | inl c ↦ rw (a, b, c) (collect-Extends es (lfn_entry e lf) found)
      | inr c ↦ elim (Bool-cases (is_volume e)) [
        | inl d ↦ rw (a, b, c, d) (collect-Extends es lf found)
        | inr d ↦ elim (Bool-cases (is_hidden (entry_name e lf))) [
          | inl h ↦ rw (a, b, c, d, h) (collect-Extends es (lfn_reset lf) found)
          | inr h ↦
              let x = shown (entry_name e lf) e in
              rw (a, b, c, d, h)
                (weaken found x _ (collect-Extends es (lfn_reset lf) (found ++ (x ∷ []))))
        ]
      ]
    ]
  ]
]

-- The listing has come past entry `k`: the iteration stopped there.
halted_at :
    (k : ℕ) (found more l : List Shown)
    → k < length found
    → l ≡ found ++ more
    → ((leb (length l) k) ≡ false) × (get_elem? l k ≡ get_elem? found k)
halted_at k found more l h e = rw e (
  (let total = length-append found more in
      not_within (length (found ++ more)) k (omega (arith, total))),
  get-append found more k h,
)
  where
    not_within : (n j : ℕ) → j < n → leb n j ≡ false
    not_within n j b = ground arith

passed :
    (k : ℕ) (found : List Shown) (p : Pass (List Shown))
    → k < length found
    → Extends found p
    → seen_as k p ≡ stopped (halted k found)
passed k found (stopped l) h x = absurd (omega arith)
passed k found (ended l) h (more, e) =
    let q = halted_at k found more l h e in
    rw (q.0) (ap (λ r. stopped (record { seen = k + 1; hit = r })) q.1)
passed k found (goes_on lf l) h (more, e) =
    let q = halted_at k found more l h e in
    rw (q.0) (ap (λ r. stopped (record { seen = k + 1; hit = r })) q.1)

within : (n k : ℕ) → n ≤ k → leb n k ≡ true
within n k h = ground arith

length-snoc : (l : List Shown) (x : Shown) → length (l ++ (x ∷ [])) ≡ length l + 1
length-snoc l x = omega (arith, length-append l (x ∷ []))

-- Over the entries of a cluster the iteration does what the listing does, until it stops.
pub entries-seen :
    (k : ℕ) (es : List Dirent) (lf : LfnState) (found : List Shown)
    → length found ≤ k
    → scan_entries (scan_iter_cb k) es lf (mark found)
      ≡ seen_as k (scan_entries collect es lf found)
unfolding scan_entries collect scan_iter_cb
entries-seen k [] lf found le = rw (within (length found) k le) refl
entries-seen k (e ∷ es) lf found le = elim (Bool-cases (is_end e)) [
  | inl a ↦ rw (a, within (length found) k le) refl
  | inr a ↦ elim (Bool-cases (entry_used e)) [
    | inr b ↦ rw (a, b) (entries-seen k es (lfn_reset lf) found le)
    | inl b ↦ elim (Bool-cases (is_lfn e)) [
      | inl c ↦ rw (a, b, c) (entries-seen k es (lfn_entry e lf) found le)
      | inr c ↦ elim (Bool-cases (is_volume e)) [
        | inl d ↦ rw (a, b, c, d) (entries-seen k es lf found le)
        | inr d ↦ elim (Bool-cases (is_hidden (entry_name e lf))) [
          | inl h ↦ rw (a, b, c, d, h) (entries-seen k es (lfn_reset lf) found le)
          | inr h ↦
              let x = shown (entry_name e lf) e in
              let more = found ++ (x ∷ []) in
              let len = length-snoc found x in
              elim (Bool-cases (length found == k)) [
                | inl s ↦
                    let same : length found ≡ k = ground arith in
                    let stop =
                      passed k more (scan_entries collect es (lfn_reset lf) more)
                        (omega (arith, len, same)) (collect-Extends es (lfn_reset lf) more) in
                    let here : get_elem? more k ≡ some x =
                      subst (λ j. get_elem? more j ≡ some x) same (get-last found x) in
                    rw (a, b, c, d, h, s)
                      (ap (λ r. stopped (record { seen = length found + 1; hit = r })) (sym here)
                        ∙ ap (λ n. stopped (record { seen = n + 1; hit = get_elem? more k })) same
                        ∙ sym stop)
                | inr s ↦
                    let room : length more ≤ k = ground (arith, len) in
                    rw (a, b, c, d, h, s)
                      (ap
                          (λ n.
                            scan_entries (scan_iter_cb k) es (lfn_reset lf)
                              (record { seen = n; hit = none }))
                          (sym len)
                        ∙ entries-seen k es (lfn_reset lf) more room)
              ]
        ]
      ]
    ]
  ]
]
