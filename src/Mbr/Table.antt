-- ===== src/Mbr/Table.antt =====
-- The table that `mbr_parse` reads, against a description of it.
use lnxrm.Base.{
  ℕ, zero, suc, ◌+◌, ◌%◌, ◌^◌, ◌≡◌, inl, inr, refl, sym, ap, ◌∙◌, ◌&&◌, none, some, List, [], ◌∷◌,
  ◌++◌, map, ◌*◌, ◌/◌, ◌||◌, get_or, arith, ◌==◌, if◌then◌else◌, length, Bool-cases,
}
use lnxrm.Disk.{Sector}
use lnxrm.Mbr.{
  Entry, Part, MbrInfo, entry_at, is_active, part_of, add_entry, parse_from, mbr_parse, le32,
}

-- The entries that the loop reads, and those whose type is not 0.
unfoldable entries : Sector → ℕ → ℕ → List Entry
entries b zero i = []
entries b (suc n) i = entry_at b i ∷ entries b n (i + 1)

unfoldable present : List Entry → List Entry
present [] = []
present (e ∷ es) = let rest = present es in if e.type == 0 then rest else e ∷ rest

-- The number of the last active entry, counted from `i`, or `none_found`.
unfoldable last_active : ℕ → ℕ → List Entry → ℕ
last_active i none_found [] = none_found
last_active i none_found (e ∷ es) = last_active (suc i) (if is_active e then i else none_found) es

append_assoc : (a b c : List Part) → (a ++ b) ++ c ≡ a ++ (b ++ c)
append_assoc [] b c = refl
append_assoc (x ∷ a) b c = ap (λ r. x ∷ r) (append_assoc a b c)

append_nil : (a : List Part) → a ++ [] ≡ a
append_nil [] = refl
append_nil (x ∷ a) = ap (λ r. x ∷ r) (append_nil a)

length_snoc : (a : List Part) (x : Part) → length (a ++ (x ∷ [])) ≡ suc (length a)
length_snoc [] x = refl
length_snoc (y ∷ a) x = ap suc (length_snoc a x)

abbrev extended : MbrInfo → List Entry → MbrInfo
extended out es = record out {
  parts = out.parts ++ map part_of es;
  boot_ind = last_active (length out.parts) out.boot_ind es;
}

extended-add_entry :
    (e : Entry) (out : MbrInfo) (es : List Entry)
    → extended (add_entry e out) es ≡ extended out (if e.type == 0 then es else e ∷ es)
unfolding add_entry last_active
extended-add_entry e out es = elim (Bool-cases (e.type == 0)) [
  | inl h ↦ rw h refl
  | inr h ↦
      rw
        (
          h,
          append_assoc out.parts (part_of e ∷ []) (map part_of es),
          length_snoc out.parts (part_of e),
        )
        refl
]

parse_from_lem :
    (b : Sector) (n i : ℕ) (out : MbrInfo)
    → parse_from b n i out ≡ extended out (present (entries b n i))
unfolding parse_from entries present last_active
parse_from_lem b zero i out = ap (λ q. record out { parts = q }) (sym (append_nil out.parts))
parse_from_lem b (suc n) i out =
    parse_from_lem b n (i + 1) (add_entry (entry_at b i) out)
    ∙ extended-add_entry (entry_at b i) out (present (entries b n (i + 1)))

-- Four bytes from `o` on as a number, the lowest first.
abbrev pub number_at : Sector → ℕ → ℕ
number_at b o =
    get_or b o 0
    + 256 * get_or b (o + 1) 0
    + 65536 * get_or b (o + 2) 0
    + 16777216 * get_or b (o + 3) 0

-- The partitions of `n` entries of 16 bytes from byte `o` of the sector on: the type is byte 4 of an entry,
-- the first sector stands in its bytes 8 to 11 and the number of sectors in 12 to 15; the types 5 and 15
-- are extended, and an entry of type 0 is empty.
unfoldable pub parts_from : Sector → ℕ → ℕ → List Part
parts_from b zero o = []
parts_from b (suc n) o =
    let rest = parts_from b n (o + 16) in
    if get_or b (o + 4) 0 == 0
    then rest
    else record {
      type = get_or b (o + 4) 0;
      lba_first = number_at b (o + 8);
      sectors_count = number_at b (o + 12);
      is_extended = get_or b (o + 4) 0 == 5 || get_or b (o + 4) 0 == 15;
    }
      ∷ rest

-- The place of the last entry with bit 7 of its byte 0 set, among those that are not empty and counted from
-- `i`; `last` if there is none.
unfoldable pub boot_from : Sector → ℕ → ℕ → ℕ → ℕ → ℕ
boot_from b zero o i last = last
boot_from b (suc n) o i last =
    let skipped = boot_from b n (o + 16) i last in
    let counted =
      boot_from b n (o + 16) (suc i) (if get_or b o 0 / 128 % 2 == 1 then i else last) in
    if get_or b (o + 4) 0 == 0 then skipped else counted

le32-number_at : (b : Sector) (o : ℕ) → le32 b o ≡ number_at b o
le32-number_at b o = ground arith

parts_from_lem :
    (b : Sector) (n i : ℕ) → map part_of (present (entries b n i)) ≡ parts_from b n (446 + i * 16)
unfolding present entries parts_from
parts_from_lem b zero i = refl
parts_from_lem b (suc n) i =
    let next : 446 + (i + 1) * 16 ≡ 446 + i * 16 + 16 = omega arith in
    let rest : map part_of (present (entries b n (i + 1))) ≡ parts_from b n (446 + i * 16 + 16) =
      parts_from_lem b n (i + 1) ∙ ap (parts_from b n) next in
    elim (Bool-cases (get_or b (446 + i * 16 + 4) 0 == 0)) [
      | inl e ↦ rw e rest
      | inr e ↦
          rw (e, rest, le32-number_at b (446 + i * 16 + 8), le32-number_at b (446 + i * 16 + 12))
            refl
    ]

boot_from_lem :
    (b : Sector) (n i k last : ℕ)
    → last_active k last (present (entries b n i)) ≡ boot_from b n (446 + i * 16) k last
unfolding present entries last_active boot_from
boot_from_lem b zero i k last = refl
boot_from_lem b (suc n) i k last =
    let next : 446 + (i + 1) * 16 ≡ 446 + i * 16 + 16 = omega arith in
    let rest : (j x : ℕ)
        → last_active j x (present (entries b n (i + 1))) ≡ boot_from b n (446 + i * 16 + 16) j x =
      λ j x. boot_from_lem b n (i + 1) j x ∙ ap (λ o. boot_from b n o j x) next in
    elim (Bool-cases (get_or b (446 + i * 16 + 4) 0 == 0)) [
      | inl e ↦ rw e (rest k last)
      | inr e ↦ rw e (rest (suc k) _)
    ]

-- A disk whose sector 0 is read and ends with the bytes 0x55 and 0xAA gives the partitions of the four entries from byte
-- 446 on, in order and without the empty ones, each with its type, first sector, number of sectors and whether it is
-- extended. The boot index is the place of the last active one among them, or 255. Every other disk is refused.
pub mbr_parse_lem :
    (sectors status : ℕ) (b : Sector)
    → mbr_parse sectors (status, b) ≡ (
        if status == 0 && get_or b 510 0 + 256 * get_or b 511 0 == 0xAA55
        then some (record {
          total_sectors = sectors % 2 ^ 32;
          boot_ind = boot_from b 4 446 0 255;
          parts = parts_from b 4 446;
        })
        else none)
unfolding mbr_parse
mbr_parse_lem sectors status b = elim (Bool-cases (status == 0)) [
  | inl e ↦ rw (e, parse_from_lem b 4 0, parts_from_lem b 4 0, boot_from_lem b 4 0 0 255) refl
  | inr e ↦ rw e refl
]
