-- ===== src/Fat/Extend.antt =====
-- A cluster chain made longer by one free cluster: how `alloc_chain` of kernel/fs/fat32/fat32_file.c
-- takes a cluster and links it behind the last one.
use lnxrm.Base.{
  ℕ, zero, suc, ◌+◌, ◌-◌, ◌^◌, ◌≤◌, ◌<◌, ◌≡◌, ◌≢◌, refl, sym, ap, ◌∙◌, inl, inr, Bool, true, false,
  ◌||◌, List, [], ◌∷◌, ◌++◌, ◌==◌, leb, subst, if◌then◌else◌, arith, Bool-cases,
}
use lnxrm.Base.Links.{has}
use lnxrm.Fat.{
  Volume, cluster_is_eoc, fat_next_cluster, fat_set_entry, ends_at, is_free, eoc_mark, free_from,
  fat_find_free_cluster,
}
use lnxrm.Fat.Chains.{Chain, stop, link, entry, set_max, set_entry}

abbrev pub last_of : ℕ → List ℕ → ℕ
last_of x [] = x
last_of x (y ∷ ys) = last_of y ys

pub has-last_of : (x : ℕ) (ys : List ℕ) → has (last_of x ys) (x ∷ ys) ≡ true
has-last_of x [] = ground arith
has-last_of x (y ∷ ys) = ground (arith, has-last_of y ys)

pub has-last_of_not : (k x : ℕ) (ys : List ℕ) → has k (x ∷ ys) ≡ false → (last_of x ys == k) ≡ false
has-last_of_not k x [] h = ground arith
has-last_of_not k x (y ∷ ys) h = has-last_of_not k y ys (ground arith)

pub has-append : (k : ℕ) (xs ys : List ℕ) → has k (xs ++ ys) ≡ (has k xs || has k ys)
has-append k [] ys = refl
has-append k (x ∷ xs) ys = ground (arith, has-append k xs ys)

pub last_of-append : (x : ℕ) (xs : List ℕ) (nc : ℕ) → last_of x (xs ++ (nc ∷ [])) ≡ nc
last_of-append x [] nc = refl
last_of-append x (y ∷ ys) nc = last_of-append y ys nc

pub append_nil : (xs : List ℕ) → xs ++ [] ≡ xs
append_nil [] = refl
append_nil (x ∷ xs) = ap (x ∷◌) (append_nil xs)

pub append_one : (xs : List ℕ) (y : ℕ) (ys : List ℕ) → (xs ++ (y ∷ [])) ++ ys ≡ xs ++ (y ∷ ys)
append_one [] y ys = refl
append_one (x ∷ xs) y ys = ap (x ∷◌) (append_one xs y ys)

-- The chain goes on over the cluster `nc` when its last entry leads there and the entry of `nc` is an end mark.
extend :
    (m m' : Volume) (nc c x : ℕ) (xs : List ℕ)
    → m'.max_cluster ≡ m.max_cluster
    → ends_at nc ≡ false
    → nc < m.max_cluster
    → ends_at (fat_next_cluster m' nc) ≡ true
    → fat_next_cluster m' (last_of x xs) ≡ nc
    → ((k : ℕ)
        → has k (x ∷ xs) ≡ true
        → k ≢ last_of x xs
        → fat_next_cluster m' k ≡ fat_next_cluster m k)
    → has nc (x ∷ xs) ≡ false
    → Chain m c (x ∷ xs)
    → Chain m' c (x ∷ (xs ++ (nc ∷ [])))
extend m m' nc c x [] e go b done to same new (link a l o t) =
    link a (omega arith) (ground arith) (rw to (link go (omega arith) refl (stop done)))
extend m m' nc c x (y ∷ ys) e go b done to same new (link a l o t) =
    let ne : x ≢ last_of y ys = λ q. ground (arith, has-last_of y ys) in
    let tail =
      extend m m' nc (fat_next_cluster m x) y ys e go b done to (λ k i z. same k (ground arith) z)
        (ground arith) t in
    link a (omega arith) (ground (arith, has-append x ys (nc ∷ [])))
      (rw (same x (ground arith) ne) tail)

free_from_found :
    (n i : ℕ) (m : Volume)
    → free_from n i m ≢ 0
    → (i ≤ free_from n i m) × (free_from n i m < i + n) × (entry m (free_from n i m) ≡ 0)
unfolding free_from
free_from_found zero i m h = absurd (h refl)
free_from_found (suc n) i m h = elim (Bool-cases (is_free m i)) [
  | inl y ↦ rw y (omega arith, omega arith, ground arith)
  | inr y ↦
      let r = free_from_found n (i + 1) m (ground (arith, h)) in
      rw y (omega (arith, r.0), omega (arith, r.1), r.2)
]

pub found_free :
    (m : Volume)
    → fat_find_free_cluster m ≢ 0
    → (2 ≤ fat_find_free_cluster m)
      × (fat_find_free_cluster m < m.max_cluster)
      × (entry m (fat_find_free_cluster m) ≡ 0)
unfolding fat_find_free_cluster
found_free m h =
    let r = free_from_found (m.max_cluster - 2) 2 m h in (r.0, omega (arith, r.0, r.1), r.2)

-- The volume after `nc` is taken and linked behind `prev`.
abbrev pub linked : Bool → Volume → ℕ → ℕ → Volume
linked taken m nc prev = fat_set_entry taken (fat_set_entry taken m nc eoc_mark) prev nc

linked_entry :
    (taken : Bool) (m : Volume) (nc prev k : ℕ)
    → nc < m.max_cluster
    → prev < m.max_cluster
    → nc ≢ prev
    → nc < 2 ^ 28
    → entry (linked taken m nc prev) k
      ≡ (if prev == k then nc else if nc == k then eoc_mark else entry m k)
linked_entry taken m nc prev k a b c d = ground (
  arith,
  set_entry taken m nc eoc_mark k,
  set_entry taken (fat_set_entry taken m nc eoc_mark) prev nc k,
  set_max taken m nc eoc_mark,
)

pub linked_max :
    (taken : Bool) (m : Volume) (nc prev : ℕ) → (linked taken m nc prev).max_cluster ≡ m.max_cluster
linked_max taken m nc prev =
    set_max taken (fat_set_entry taken m nc eoc_mark) prev nc ∙ set_max taken m nc eoc_mark

next-entry :
    (m : Volume) (k : ℕ)
    → fat_next_cluster m k ≡ (if leb m.max_cluster k then eoc_mark else entry m k)
unfolding fat_next_cluster
next-entry m k = refl

-- Every cluster of a chain is a cluster of the volume.
pub Chain-bound :
    (m : Volume) {c : ℕ} {xs : List ℕ} (k : ℕ)
    → Chain m c xs
    → has k xs ≡ true
    → (2 ≤ k) × (k < m.max_cluster)
Chain-bound m k (stop z) i = absurd (ground arith)
Chain-bound m k (link {c} {xs} go b out t) i = elim (Bool-cases (c == k)) [
  | inl y ↦ (ground arith, ground arith)
  | inr n ↦ Chain-bound m k t (ground arith)
]

-- No cluster of the chain is marked free.
abbrev pub AllUsed : Volume → List ℕ → Type 0
AllUsed m xs = (k : ℕ) → has k xs ≡ true → entry m k ≢ 0

module _ (taken : Bool) (m : Volume) (c x : ℕ) (xs : List ℕ) (nc : ℕ) (chain : Chain m c (x ∷ xs))
    (used : AllUsed m (x ∷ xs)) (room : m.max_cluster ≤ 0x0fff_fff8) (two : 2 ≤ nc)
    (below : nc < m.max_cluster) (free : entry m nc ≡ 0) where
  abbrev next_volume : Volume
  next_volume = linked taken m nc (last_of x xs)

  fresh_other : (k : ℕ) → has k (x ∷ xs) ≡ true → k ≢ nc
  fresh_other k i e = used k i (subst (λ z. entry m z ≡ 0) (sym e) free)

  fresh_out : has nc (x ∷ xs) ≡ false
  fresh_out = elim (Bool-cases (has nc (x ∷ xs))) [
    | inl y ↦ absurd (fresh_other nc y refl)
    | inr n ↦ n
  ]

  last_other : nc ≢ last_of x xs
  last_other e = fresh_other (last_of x xs) (has-last_of x xs) (sym e)

  last_bound : last_of x xs < m.max_cluster
  last_bound = (Chain-bound m (last_of x xs) chain (has-last_of x xs)).1

  pub next_entry :
      (k : ℕ)
      → entry next_volume k
        ≡ (if last_of x xs == k then nc else if nc == k then eoc_mark else entry m k)
  next_entry k = linked_entry taken m nc (last_of x xs) k below last_bound last_other (omega arith)

  next_max : next_volume.max_cluster ≡ m.max_cluster
  next_max = linked_max taken m nc (last_of x xs)

  next_next :
      (k : ℕ)
      → k < m.max_cluster
      → fat_next_cluster next_volume k
        ≡ (if last_of x xs == k then nc else if nc == k then eoc_mark else entry m k)
  next_next k h = ground (arith, next-entry next_volume k, next_max, next_entry k)

  next_same :
      (k : ℕ)
      → has k (x ∷ xs) ≡ true
      → k ≢ last_of x xs
      → fat_next_cluster next_volume k ≡ fat_next_cluster m k
  next_same k i ne =
      let other = fresh_other k i in
      ground (
        arith,
        next_next k (Chain-bound m k chain i).1,
        next-entry m k,
        (Chain-bound m k chain i).1,
      )

  next_ends : ends_at (fat_next_cluster next_volume nc) ≡ true
  unfolding cluster_is_eoc
  next_ends = ground (arith, next_next nc below, last_other)

  pub next_Chain : Chain next_volume c (x ∷ (xs ++ (nc ∷ [])))
  unfolding cluster_is_eoc
  next_Chain =
      extend m next_volume nc c x xs next_max (ground arith) below next_ends
        (ground (arith, next_next (last_of x xs) last_bound)) next_same fresh_out chain

  pub next_used : AllUsed next_volume (x ∷ (xs ++ (nc ∷ [])))
  next_used k i e = elim (Bool-cases (has k (x ∷ xs))) [
    | inl y ↦ ground (arith, next_entry k, used k y)
    | inr n ↦ ground (arith, next_entry k, has-append k (x ∷ xs) (nc ∷ []))
  ]
