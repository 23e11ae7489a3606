-- ===== src/Fat/Scan/Assembly.antt =====
-- The long names that a scan puts together stay in their buffer.
use lnxrm.Base.{
  ℕ, ◌+◌, ◌-◌, ◌*◌, ◌%◌, ◌≤◌, ◌<◌, ◌≡◌, refl, ◌∙◌, ◌&&◌, inl, inr, List, [], ◌∷◌, ltb, leb, length,
  get_or, update, arith, Bool-cases,
}
use lnxrm.Fat.Scan.{Dirent, LfnState, lfn_entry, put_piece, piece_of, copy_piece, char_places}

-- The end of the name is inside of the 256 bytes.
abbrev pub InBuffer : LfnState → Type 0
InBuffer lf = lf.name_end < 256

copy_piece-beyond :
    (name : ℕ → ℕ) (base i : ℕ) (cs : List ℕ)
    → base + length cs ≤ i
    → copy_piece name base cs i ≡ name i
unfolding copy_piece
copy_piece-beyond name base i [] h = refl
copy_piece-beyond name base i (c ∷ cs) h =
    copy_piece-beyond (update name base c) (base + 1) i cs (omega arith) ∙ ground arith

put_piece-InBuffer :
    (seq : ℕ) (piece : List ℕ) (lf : LfnState)
    → InBuffer lf
    → InBuffer (put_piece seq piece lf)
      × ((i : ℕ) → 256 ≤ i → (put_piece seq piece lf).longname i ≡ lf.longname i)
unfolding put_piece
put_piece-InBuffer seq piece lf h = elim (Bool-cases (ltb ((seq - 1) * 13 + length piece) 256)) [
  | inl e ↦
      rw e
        (ground arith, λ i b. copy_piece-beyond lf.longname ((seq - 1) * 13) i piece (ground arith))
  | inr e ↦ rw e (h, λ i b. refl)
]

-- An entry of a long name, whatever its bytes are, leaves the end of the name inside of the buffer and
-- writes no byte behind it.
pub lfn_entry-InBuffer :
    (e : Dirent) (lf : LfnState)
    → InBuffer lf
    → InBuffer (lfn_entry e lf) × ((i : ℕ) → 256 ≤ i → (lfn_entry e lf).longname i ≡ lf.longname i)
unfolding lfn_entry
lfn_entry-InBuffer e lf h =
    elim (Bool-cases (leb 1 (get_or e 0 0 % 32) && leb (get_or e 0 0 % 32) 20)) [
      | inl f ↦ rw f (put_piece-InBuffer (get_or e 0 0 % 32) (piece_of e char_places) lf h)
      | inr f ↦ rw f (h, λ i b. refl)
    ]
