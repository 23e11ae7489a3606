-- ===== src/Vfs.antt =====
-- kernel/fs/vfs.c: the routing of paths to mounted file systems, and the calls on paths. A string is the
-- list of the bytes in front of its NUL, and a table of file system operations is named by a number.
pub mod Routes
pub mod Moves
mod Tests
use lnxrm.Base.{
  ℕ, zero, suc, ◌+◌, ◌-◌, Bool, true, false, not, ◌&&◌, ◌||◌, Option, none, some, List, [], ◌∷◌,
  ◌++◌, ◌==◌, ltb, leb, if◌then◌else◌, length, take, drop, is_some,
}
use lnxrm.Base.Words.{ℤ, pos, negsuc, add64}
use lnxrm.Str.{strncmp, strcmp}

abbrev pub enoent : ℤ
enoent = negsuc 1

abbrev pub eacces : ℤ
eacces = negsuc 12

abbrev pub exdev : ℤ
exdev = negsuc 17

abbrev pub enosys : ℤ
enosys = negsuc 37

abbrev pub invalid : ℤ
invalid = negsuc 21

-- `struct mounted_fs`: `prefix_len` is the length of `prefix`.
pub record Mount : Type 0 where
  pub ops : ℕ
  pub priv : ℕ
  pub prefix : List ℕ
  pub active : Bool

abbrev pub max_mounts : ℕ
max_mounts = 4

abbrev pub is_zero : ℤ → Bool
is_zero (pos n) = n == 0
is_zero (negsuc n) = false

abbrev pub starts_slash : List ℕ → Bool
starts_slash [] = false
starts_slash (c ∷ cs) = c == b'/'

-- `*rest == '/' || *rest == '\0'`
abbrev pub at_boundary : List ℕ → Bool
at_boundary [] = true
at_boundary (c ∷ cs) = c == b'/'

pub skip_slashes : List ℕ → List ℕ
skip_slashes [] = []
skip_slashes (c ∷ cs) = let rest = skip_slashes cs in if c == b'/' then rest else c ∷ cs

abbrev pub is_root : List ℕ → Bool
is_root prefix = length prefix == 1 && starts_slash prefix

-- The match with the whole prefix.
pub match_prefix : List ℕ → Mount → Option (List ℕ)
match_prefix path m =
    let rest = drop (length m.prefix) path in
    if is_zero (strncmp path m.prefix (length m.prefix)) && (is_root m.prefix || at_boundary rest)
    then some (skip_slashes rest)
    else none

-- The match without the slash that the prefix begins with.
pub match_bare : List ℕ → Mount → Option (List ℕ)
match_bare path m =
    let len = length m.prefix - 1 in
    let rest = drop len path in
    if starts_slash m.prefix && is_zero (strncmp path (drop 1 m.prefix) len) && at_boundary rest
    then some (skip_slashes rest)
    else none

-- The operations of the mount that owns a path, with the rest of the path.
pub fs_for_path : List Mount → List ℕ → Option (ℕ × List ℕ)
fs_for_path [] path = none
fs_for_path (m ∷ ms) path =
    let next = fs_for_path ms path in
    if m.active
    then elim (match_prefix path m) [
      | some rest ↦ some (m.ops, rest)
      | none ↦ elim (match_bare path m) [ some rest ↦ some (m.ops, rest) | none ↦ next ]
    ]
    else next

-- The private data of the first mount with these operations; 0 is NULL.
pub mount_priv : List Mount → ℕ → ℕ
mount_priv [] ops = 0
mount_priv (m ∷ ms) ops =
    let next = mount_priv ms ops in if m.active && m.ops == ops then m.priv else next

pub register_mount : ℕ → ℕ → List ℕ → List Mount → Option (List Mount)
register_mount ops priv prefix mounts =
    if leb max_mounts (length mounts)
    then none
    else some
        (mounts ++ (record { ops = ops; priv = priv; prefix = take 31 prefix; active = true } ∷ []))

-- With a buffer of 128 bytes, which takes 125 characters behind the slash.
pub abs_path : List ℕ → List ℕ
abs_path path = if starts_slash path then path else b'/' ∷ take 125 path

pub data VnodeType : Type 0 where
  v_reg v_dir v_chr : VnodeType

abbrev pub is_reg : VnodeType → Bool
is_reg v_reg = true
is_reg _ = false

-- `node` is `fs_data`, 0 for NULL, and `of_dev` tells that the operations are `dev_ops`.
pub record Vnode : Type 0 where
  pub type : VnodeType
  pub size : ℕ
  pub node : ℕ
  pub of_dev : Bool

-- The slashes at the end are dropped, but not the first character.
pub drop_last_slashes : List ℕ → List ℕ
drop_last_slashes [] = []
drop_last_slashes (c ∷ cs) =
    let rest = drop_last_slashes cs in
    elim rest [ [] ↦ (if c == b'/' then [] else c ∷ []) | d ∷ ds ↦ c ∷ d ∷ ds ]

pub strip_trailing_slashes : List ℕ → List ℕ
strip_trailing_slashes [] = []
strip_trailing_slashes (c ∷ cs) = c ∷ drop_last_slashes cs

abbrev pub dev_path : List ℕ
dev_path = b'/' ∷ b'd' ∷ b'e' ∷ b'v' ∷ []

abbrev pub console_path : List ℕ
console_path = dev_path ++ (b'/' ∷ b'c' ∷ b'o' ∷ b'n' ∷ b's' ∷ b'o' ∷ b'l' ∷ b'e' ∷ [])

pub dev_lookup : List ℕ → Option Vnode
dev_lookup path =
    let p = strip_trailing_slashes (take 31 path) in
    if is_zero (strcmp p dev_path)
    then some (record { type = v_dir; size = 0; node = 0; of_dev = true })
    else if is_zero (strcmp p console_path)
    then some (record { type = v_chr; size = 0; node = 0; of_dev = false })
    else none

-- `struct fs_ops` over the state `S` of the file systems. The first argument is the mount's private
-- data; `none` for a pointer that is NULL. `in_text` is what `kern_text_ptr` says of `lookup`.
pub record FsOps (S : Type 0) : Type 0 where
  pub in_text : Bool
  pub lookup : ℕ → List ℕ → S → Option Vnode × S
  pub create : ℕ → List ℕ → S → ℤ × S
  pub truncate : ℕ → ℕ → S → S
  pub mkdir : Option (ℕ → List ℕ → S → ℤ × S)
  pub unlink : Option (ℕ → List ℕ → S → ℤ × S)
  pub rmdir : Option (ℕ → List ℕ → S → ℤ × S)
  pub rename : Option (ℕ → List ℕ → List ℕ → S → ℤ × S)

abbrev pub is_negative : ℤ → Bool
is_negative (pos n) = false
is_negative (negsuc n) = true

module _ {S : Type 0} (table : ℕ → FsOps S) (mounts : List Mount) where
  -- A call on one path; `select` picks the operation.
  pub on_path : (FsOps S → Option (ℕ → List ℕ → S → ℤ × S)) → List ℕ → S → ℤ × S
  on_path select path s = elim (fs_for_path mounts (abs_path path)) [
    | none ↦ (enosys, s)
    | some r ↦ elim (select (table r.0)) [
      | none ↦ (enosys, s)
      | some f ↦ f (mount_priv mounts r.0) r.1 s
    ]
  ]

  pub sys_mkdir : List ℕ → S → ℤ × S
  sys_mkdir path s = on_path (λ o. o.mkdir) path s

  pub sys_unlink : List ℕ → S → ℤ × S
  sys_unlink path s = on_path (λ o. o.unlink) path s

  pub sys_rmdir : List ℕ → S → ℤ × S
  sys_rmdir path s = on_path (λ o. o.rmdir) path s

  pub rename_in : ℕ → List ℕ → List ℕ → S → ℤ × S
  rename_in ops p1 p2 s = elim (table ops).rename [
    | none ↦ (enosys, s)
    | some f ↦ f (mount_priv mounts ops) p1 p2 s
  ]

  pub vfs_rename_path : List ℕ → List ℕ → S → ℤ × S
  vfs_rename_path oldpath newpath s = elim (fs_for_path mounts (abs_path oldpath)) [
    | none ↦ (enoent, s)
    | some r1 ↦ elim (fs_for_path mounts (abs_path newpath)) [
      | none ↦ (enoent, s)
      | some r2 ↦ if r1.0 == r2.0 then rename_in r1.0 r1.1 r2.1 s else (exdev, s)
    ]
  ]

  -- `O_CREAT` and no file, with what creating it answered.
  pub after_create : ℕ → List ℕ → ℤ × S → ℤ × Option Vnode × S
  after_create ops p created =
      if is_negative created.0
      then (eacces, none, created.1)
      else (let found = (table ops).lookup (mount_priv mounts ops) p created.1 in
          elim found.0 [
            | none ↦ (enoent, none, found.1)
            | some vn ↦ (pos 0, some (record vn { size = 0 }), found.1)
          ])

  -- The path did not resolve in its file system: a device node, or a new file.
  pub missing_file : ℕ → List ℕ → List ℕ → Bool → S → ℤ × Option Vnode × S
  missing_file ops path p creat s = elim (dev_lookup path) [
    | some vn ↦ (pos 0, some vn, s)
    | none ↦
        if creat
        then after_create ops p ((table ops).create (mount_priv mounts ops) p s)
        else (enoent, none, s)
  ]

  -- `creat` and `trunc` are O_CREAT and O_TRUNC. The root is served by a mount only.
  pub vfs_lookup : Bool → List ℕ → Bool → Bool → S → ℤ × Option Vnode × S
  vfs_lookup disk_ready path creat trunc s =
      if is_zero (strcmp path (b'/' ∷ []))
      then (if disk_ready
          then elim (fs_for_path mounts path) [
            | none ↦ (enoent, none, s)
            | some r ↦
                let found = (table r.0).lookup (mount_priv mounts r.0) r.1 s in
                elim found.0 [
                  | none ↦ (enoent, none, found.1)
                  | some vn ↦ (pos 0, some vn, found.1)
                ]
          ]
          else (enoent, none, s))
      else elim (fs_for_path mounts path) [
        | none ↦ elim (dev_lookup path) [ none ↦ (enoent, none, s) | some vn ↦ (pos 0, some vn, s) ]
        | some r ↦
            if (table r.0).in_text
            then (let found = (table r.0).lookup (mount_priv mounts r.0) r.1 s in
                elim found.0 [
                  | none ↦ missing_file r.0 path r.1 creat found.1
                  | some vn ↦
                      if trunc && is_reg vn.type
                      then (
                        pos 0,
                        some (record vn { size = 0 }),
                        (table r.0).truncate (mount_priv mounts r.0) vn.node found.1,
                      )
                      else (pos 0, some vn, found.1)
                ])
            else (enoent, none, s)
      ]

-- `strrchr(p, '/') + 1`, if there is a slash.
pub after_last_slash : List ℕ → Option (List ℕ)
after_last_slash [] = none
after_last_slash (c ∷ cs) = elim (after_last_slash cs) [
  | some b ↦ some b
  | none ↦ if c == b'/' then some cs else none
]

pub basename : List ℕ → List ℕ
basename p = elim (after_last_slash p) [ none ↦ p | some b ↦ b ]

-- `out`: the directory, a slash if it does not end with one, and the name.
pub ends_slash : List ℕ → Bool
ends_slash [] = false
ends_slash (c ∷ []) = c == b'/'
ends_slash (c ∷ d ∷ cs) = ends_slash (d ∷ cs)

pub join_path : List ℕ → List ℕ → List ℕ
join_path dir base = dir ++ (if ends_slash dir then base else b'/' ∷ base)

abbrev pub is_empty : List ℕ → Bool
is_empty [] = true
is_empty (c ∷ cs) = false

module _ {S : Type 0} (table : ℕ → FsOps S) (mounts : List Mount) where
  pub sys_move : List ℕ → List ℕ → S → ℤ × S
  sys_move src destdir s =
      let sbuf = strip_trailing_slashes (take 127 src) in
      let dbuf = strip_trailing_slashes (take 127 destdir) in
      let base = basename sbuf in
      if is_empty base
      then (invalid, s)
      else if ltb 256 (length dbuf + length base + 2)
      then (invalid, s)
      else vfs_rename_path table mounts sbuf (join_path dbuf base) s

pub data Whence : Type 0 where
  seek_set seek_cur seek_end : Whence

-- The new position of a regular file. A negative offset goes to its start.
pub reg_lseek : ℕ → ℕ → ℤ → Whence → ℕ
reg_lseek fpos size (negsuc n) whence = 0
reg_lseek fpos size (pos off) seek_set = add64 0 off
reg_lseek fpos size (pos off) seek_cur = add64 fpos off
reg_lseek fpos size (pos off) seek_end = add64 size off

-- `f->pos += r` for what a read or write of the file system returned.
abbrev pub advance : ℕ → ℤ → ℕ
advance fpos (pos r) = add64 fpos r
advance fpos (negsuc n) = fpos
