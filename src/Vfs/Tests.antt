-- ===== src/Vfs/Tests.antt =====
-- Checks of the routing of paths on small tables of mounts.
use lnxrm.Base.{
  ℕ, zero, suc, ◌≡◌, refl, ap, subst, true, false, none, some, [], ◌∷◌, arith, get_elem?,
}
use lnxrm.Base.Words.{pos, negsuc}
use lnxrm.Str.{strncmp}
use lnxrm.Str.Order.{IsText}
use lnxrm.Vfs.{
  Mount, FsOps, match_bare, fs_for_path, mount_priv, match_prefix, skip_slashes, reg_lseek,
  seek_cur, ends_slash,
}
use lnxrm.Vfs.Routes.{Routed, fs_for_path-Routed}

-- A volume at "/".
abbrev root_mount : Mount
root_mount = record { ops = 1; priv = 10; prefix = b'/' ∷ []; active = true }

-- Another one, with the same operations, at "/a".
abbrev second_mount : Mount
second_mount = record { ops = 1; priv = 20; prefix = b'/' ∷ b'a' ∷ []; active = true }

routed : fs_for_path (root_mount ∷ []) (b'/' ∷ b'/' ∷ b'x' ∷ []) ≡ some (1, b'x' ∷ [])
unfolding fs_for_path match_prefix skip_slashes strncmp
routed = refl

-- A path below the second volume, and one that only begins like it.
below :
    fs_for_path (second_mount ∷ root_mount ∷ []) (b'/' ∷ b'a' ∷ b'/' ∷ b'x' ∷ [])
    ≡ some (1, b'x' ∷ [])
unfolding fs_for_path match_prefix skip_slashes strncmp
below = refl

beside : fs_for_path (second_mount ∷ []) (b'/' ∷ b'a' ∷ b'x' ∷ []) ≡ none
unfolding fs_for_path match_prefix match_bare strncmp
beside = refl

mount_at {ℓ} : {A : Type ℓ} (d : A) (a b : A) → some a ≡ some b → a ≡ b
mount_at d a b h = ap (λ o. elim o [ none ↦ d | some x ↦ x ]) h

prefix-IsText :
    (i : ℕ) (m : Mount) → get_elem? (second_mount ∷ root_mount ∷ []) i ≡ some m → IsText m.prefix
prefix-IsText zero m h =
    subst (λ x. IsText x.prefix) (mount_at root_mount second_mount m h)
      (omega arith, omega arith, (omega arith, omega arith, omega arith))
prefix-IsText (suc zero) m h =
    subst (λ x. IsText x.prefix) (mount_at root_mount root_mount m h)
      (omega arith, omega arith, omega arith)
prefix-IsText (suc (suc i)) m h = absurd (ground (arith, h))

fs_for_path-Routed_example :
    Routed (second_mount ∷ root_mount ∷ []) (b'/' ∷ b'a' ∷ b'/' ∷ b'x' ∷ []) 1 (b'x' ∷ [])
fs_for_path-Routed_example =
    fs_for_path-Routed (second_mount ∷ root_mount ∷ []) (b'/' ∷ b'a' ∷ b'/' ∷ b'x' ∷ []) 1
      (b'x' ∷ [])
      (
        omega arith,
        omega arith,
        (
          omega arith,
          omega arith,
          (omega arith, omega arith, (omega arith, omega arith, omega arith)),
        ),
      )
      prefix-IsText below

-- Two volumes with the same operations: the second one's path is served with the first one's data.
first_volume : mount_priv (second_mount ∷ root_mount ∷ []) 1 ≡ 20
unfolding mount_priv
first_volume = refl

-- A seek back from position 100 goes to the start.
seek_back : reg_lseek 100 200 (negsuc 4) seek_cur ≡ 0
unfolding reg_lseek
seek_back = refl

-- A file system whose only operation is rename, which leaves the volume's data as the state.
abbrev rename_only : ℕ → FsOps ℕ
rename_only ops = record {
  in_text = true;
  lookup = λ priv path s. (none, s);
  create = λ priv path s. (negsuc 0, s);
  truncate = λ priv node s. s;
  mkdir = none;
  unlink = none;
  rmdir = none;
  rename = some (λ priv old new s. (pos 0, priv));
}

bare_end : ends_slash (b'/' ∷ b'b' ∷ []) ≡ false
unfolding ends_slash
bare_end = refl
