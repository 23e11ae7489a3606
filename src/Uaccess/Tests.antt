-- ===== src/Uaccess/Tests.antt =====
-- Checks and copies of user memory, for the functions of kernel/task.c.
use lnxrm.Base.{ℕ, ◌≡◌, ◌↔◌, refl, true, some, [], ◌∷◌, ◌==◌, if◌then◌else◌, arith}
use lnxrm.Uaccess.{user_ptr_ok, copy_user_str, copy_str, copy_from_user, page_count, pages_mapped}
use lnxrm.Uaccess.Accepts.{IsUserRange, user_ptr_ok_iff}

-- One page of user memory is mapped.
abbrev one_page : ℕ → ℕ
one_page page = if page == 0x7f80_0000_0000 then 1 else 0

-- The string "hi" at the start of that page.
abbrev hi_there : ℕ → ℕ
hi_there a = if a == 0x7f80_0000_0000 then 104 else if a == 0x7f80_0000_0001 then 105 else 0

user_ptr_ok_iff_example :
    (user_ptr_ok one_page 0x7f80_0000_0fff 2 ≡ true) ↔ IsUserRange one_page 0x7f80_0000_0fff 2
user_ptr_ok_iff_example = user_ptr_ok_iff one_page 0x7f80_0000_0fff 2 (omega arith) (omega arith)

copied : copy_user_str one_page hi_there 0x7f80_0000_0000 5 ≡ some (104 ∷ 105 ∷ [])
unfolding copy_user_str copy_str copy_from_user user_ptr_ok page_count pages_mapped
copied = refl
