-- ===== src/Vfs/Moves.antt =====
-- Moving a file into a directory.
use lnxrm.Base.{
  ℕ, zero, suc, ◌+◌, ◌≤◌, ◌≡◌, refl, ap, ◌∙◌, Bool, true, false, not, ◌&&◌, none, some, List, [],
  ◌∷◌, ◌++◌, ◌==◌, ltb, length, take, arith, length-append,
}
use lnxrm.Vfs.{
  Mount, FsOps, sys_move, vfs_rename_path, strip_trailing_slashes, drop_last_slashes,
  after_last_slash, basename, ends_slash, join_path, is_empty,
}

-- A name of a directory entry: not empty, and without a slash.
abbrev pub no_slash : List ℕ → Bool
no_slash [] = true
no_slash (c ∷ cs) = not (c == b'/') && no_slash cs

take_all : (n : ℕ) (l : List ℕ) → length l ≤ n → take n l ≡ l
take_all zero [] h = refl
take_all zero (c ∷ l) h = absurd (omega arith)
take_all (suc n) [] h = refl
take_all (suc n) (c ∷ l) h = ap (λ r. c ∷ r) (take_all n l (omega arith))

drop_nothing : (p : List ℕ) → ends_slash p ≡ false → drop_last_slashes p ≡ p
unfolding ends_slash drop_last_slashes
drop_nothing [] h = refl
drop_nothing (c ∷ []) h = rw h refl
drop_nothing (c ∷ d ∷ cs) h = rw (drop_nothing (d ∷ cs) h) refl

strip_nothing : (p : List ℕ) → ends_slash p ≡ false → strip_trailing_slashes p ≡ p
unfolding ends_slash strip_trailing_slashes drop_last_slashes
strip_nothing [] h = refl
strip_nothing (c ∷ []) h = refl
strip_nothing (c ∷ d ∷ cs) h = ap (λ r. c ∷ r) (drop_nothing (d ∷ cs) h)

no_slash-ends : (name : List ℕ) → no_slash name ≡ true → ends_slash name ≡ false
unfolding ends_slash
no_slash-ends [] h = refl
no_slash-ends (c ∷ []) h = ground arith
no_slash-ends (c ∷ d ∷ cs) h = no_slash-ends (d ∷ cs) (ground arith)

ends-append :
    (dir name : List ℕ)
    → is_empty name ≡ false
    → no_slash name ≡ true
    → ends_slash (dir ++ (b'/' ∷ name)) ≡ false
unfolding ends_slash
ends-append [] [] e h = absurd (ground (arith, e))
ends-append [] (c ∷ cs) e h = no_slash-ends (c ∷ cs) h
ends-append (x ∷ []) name e h = ends-append [] name e h
ends-append (x ∷ y ∷ dir) name e h = ends-append (y ∷ dir) name e h

no_slash-last : (name : List ℕ) → no_slash name ≡ true → after_last_slash name ≡ none
unfolding after_last_slash
no_slash-last [] h = refl
no_slash-last (c ∷ cs) h =
    let rest = no_slash-last cs (ground arith) in
    let other : (c == b'/') ≡ false = ground arith in rw (rest, other) refl

last-append :
    (dir name : List ℕ) → no_slash name ≡ true → after_last_slash (dir ++ (b'/' ∷ name)) ≡ some name
unfolding after_last_slash
last-append [] name h = rw (no_slash-last name h) refl
last-append (x ∷ dir) name h = rw (last-append dir name h) refl

base-append : (dir name : List ℕ) → no_slash name ≡ true → basename (dir ++ (b'/' ∷ name)) ≡ name
unfolding basename
base-append dir name h = rw (basename, last-append dir name h) refl

not_long : (n : ℕ) → n ≤ 256 → ltb 256 n ≡ false
not_long n h = ground arith

-- Moving `dir/name` into the directory `dest` is renaming it to `dest/name`, for a name that is not empty and has no slash,
-- and a destination that does not end with one, if both paths have at most 127 characters: the check of
-- the new path's length does not fail then.
pub sys_move-rename :
    {S : Type 0} (table : ℕ → FsOps S) (mounts : List Mount) (dir name dest : List ℕ) (s : S)
    → is_empty name ≡ false
    → no_slash name ≡ true
    → ends_slash dest ≡ false
    → length (dir ++ (b'/' ∷ name)) ≤ 127
    → length dest ≤ 127
    → sys_move table mounts (dir ++ (b'/' ∷ name)) dest s
      ≡ vfs_rename_path table mounts (dir ++ (b'/' ∷ name)) (dest ++ (b'/' ∷ name)) s
unfolding sys_move join_path
sys_move-rename table mounts dir name dest s e h d a b =
    let src = dir ++ (b'/' ∷ name) in
    let src_kept : strip_trailing_slashes (take 127 src) ≡ src =
      ap strip_trailing_slashes (take_all 127 src a)
      ∙ strip_nothing src (ends-append dir name e h) in
    let dest_kept : strip_trailing_slashes (take 127 dest) ≡ dest =
      ap strip_trailing_slashes (take_all 127 dest b) ∙ strip_nothing dest d in
    let total = length-append dir (b'/' ∷ name) in
    let short = not_long (length dest + length name + 2) (omega (arith, total, a, b)) in
    rw (src_kept, dest_kept, base-append dir name h, e, short, d) refl
