-- ===== src/Files/Counts.antt =====
-- The number of descriptors that refer to a file, and how a change of one entry changes it.
use lnxrm.Base.{
  ℕ, zero, suc, ◌+◌, ◌≤◌, ◌<◌, ◌≡◌, ◌≢◌, refl, ap, inl, inr, Option, none, some, ◌==◌,
  if◌then◌else◌, update, names, arith, Bool-cases,
}
use lnxrm.Task.{nr_tasks}
use lnxrm.Files.{Files, set_fd, nr_fds}

-- The sum of `g` over the `n` indices from `i` on.
unfoldable pub sum : ℕ → ℕ → (ℕ → ℕ) → ℕ
sum zero i g = 0
sum (suc n) i g = g i + sum n (i + 1) g

pub sum_same :
    (n i : ℕ) (g h : ℕ → ℕ) → ((j : ℕ) → i ≤ j → j < i + n → g j ≡ h j) → sum n i g ≡ sum n i h
unfolding sum
sum_same zero i g h e = refl
sum_same (suc n) i g h e = omega (
  arith,
  e i (omega arith) (omega arith),
  sum_same n (i + 1) g h (λ j a b. e j (omega arith) (omega arith)),
)

pub sum_change :
    (n i k : ℕ) (g h : ℕ → ℕ)
    → i ≤ k
    → k < i + n
    → ((j : ℕ) → j ≢ k → g j ≡ h j)
    → sum n i g + h k ≡ sum n i h + g k
unfolding sum
sum_change zero i k g h a b e = absurd (omega arith)
sum_change (suc n) i k g h a b e = elim (Bool-cases (i == k)) [
  | inl y ↦
      let here : i ≡ k = ground arith in
      let first : g i ≡ g k = ap g here in
      let second : h i ≡ h k = ap h here in
      omega (arith, first, second, sum_same n (i + 1) g h (λ j c d. e j (λ z. omega arith)))
  | inr o ↦
      let apart : i ≢ k = λ z. ground arith in
      omega (arith, e i apart, sum_change n (i + 1) k g h (ground arith) (omega arith) e)
]

pub sum_term : (n i k : ℕ) (g : ℕ → ℕ) → i ≤ k → k < i + n → g k ≤ sum n i g
unfolding sum
sum_term zero i k g a b = absurd (omega arith)
sum_term (suc n) i k g a b = elim (Bool-cases (i == k)) [
  | inl y ↦ let same : g i ≡ g k = ap g (ground arith) in omega (arith, same)
  | inr o ↦ omega (arith, sum_term n (i + 1) k g (ground arith) (omega arith))
]

pub sum_zero : (n i : ℕ) (g : ℕ → ℕ) → ((j : ℕ) → i ≤ j → j < i + n → g j ≡ 0) → sum n i g ≡ 0
unfolding sum
sum_zero zero i g e = refl
sum_zero (suc n) i g e = omega (
  arith,
  e i (omega arith) (omega arith),
  sum_zero n (i + 1) g (λ j a b. e j (omega arith) (omega arith)),
)

-- 1 when an entry refers to `f`.
abbrev pub cell : ℕ → Option ℕ → ℕ
cell f o = if names o f then 1 else 0

abbrev pub row : ℕ → (ℕ → Option ℕ) → ℕ
row f r = sum nr_fds 0 (λ i. cell f (r i))

-- The number of descriptors of all tasks that refer to `f`.
pub refs : ℕ → (ℕ → ℕ → Option ℕ) → ℕ
refs f fds = sum nr_tasks 0 (λ t. row f (fds t))

pub refs-row :
    (f t : ℕ) (fds : ℕ → ℕ → Option ℕ) (r : ℕ → Option ℕ)
    → t < nr_tasks
    → refs f (update fds t r) + row f (fds t) ≡ refs f fds + row f r
unfolding refs
refs-row f t fds r b =
    let changed =
      sum_change nr_tasks 0 t (λ u. row f (update fds t r u)) (λ u. row f (fds u)) (omega arith)
        (omega arith) (λ u ne. ap (row f) (ground arith)) in
    let here : row f (update fds t r t) ≡ row f r = ap (row f) (ground arith) in
    omega (arith, changed, here)

pub row-cell :
    (f i : ℕ) (r : ℕ → Option ℕ) (v : Option ℕ)
    → i < nr_fds
    → row f (update r i v) + cell f (r i) ≡ row f r + cell f v
row-cell f i r v b =
    let changed =
      sum_change nr_fds 0 i (λ j. cell f (update r i v j)) (λ j. cell f (r j)) (omega arith)
        (omega arith) (λ u ne. ap (cell f) (ground arith)) in
    let here : cell f (update r i v i) ≡ cell f v = ap (cell f) (ground arith) in
    omega (arith, changed, here)

-- One entry of one table is changed.
pub refs_set :
    (f t i : ℕ) (v : Option ℕ) (s : Files)
    → t < nr_tasks
    → i < nr_fds
    → refs f (set_fd t i v s).fds + cell f (s.fds t i) ≡ refs f s.fds + cell f v
refs_set f t i v s a b =
    omega (arith, refs-row f t s.fds (update (s.fds t) i v) a, row-cell f i (s.fds t) v b)

-- An entry that refers to a file counts.
pub refs_term :
    (f t i : ℕ) (s : Files) → t < nr_tasks → i < nr_fds → s.fds t i ≡ some f → 0 < refs f s.fds
unfolding refs
refs_term f t i s a b e =
    let one : cell f (s.fds t i) ≡ 1 = ground arith in
    omega (
      arith,
      one,
      sum_term nr_fds 0 i (λ j. cell f (s.fds t j)) (omega arith) (omega arith),
      sum_term nr_tasks 0 t (λ u. row f (s.fds u)) (omega arith) (omega arith),
    )

pub row_le : (f t : ℕ) (fds : ℕ → ℕ → Option ℕ) → t < nr_tasks → row f (fds t) ≤ refs f fds
unfolding refs
row_le f t fds b = sum_term nr_tasks 0 t (λ u. row f (fds u)) (omega arith) (omega arith)

pub refs-none : (f : ℕ) → refs f (λ t i. none) ≡ 0
unfolding refs
refs-none f =
    sum_zero nr_tasks 0 (λ t. row f (λ i. none))
      (λ t a b. sum_zero nr_fds 0 (λ i. 0) (λ i c d. refl))
