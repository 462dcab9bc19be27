-- ===== src/Response/Page.antt =====
-- What a page shows of the text that a client sent.
use thttpd_rs.Base.{
  ℕ, zero, suc, ◌≡◌, ◌≤◌, refl, false, [], ◌∷◌, Bytes, All, arith, inl, inr, Bool-cases, ◌==◌, ltb,
  length, take,
}
use thttpd_rs.Response.{defang, floor_from, floor_char_boundary, shown}

-- Neither of the brackets that begin and end a tag.
abbrev pub IsPlain : ℕ → Type 0
IsPlain c = ((c == b'<') ≡ false) × ((c == b'>') ≡ false)

defang-IsPlain : (s : Bytes) → All IsPlain (defang s)
unfolding defang
defang-IsPlain [] = tt
defang-IsPlain (c ∷ s) =
    let rest = defang-IsPlain s in
    elim (Bool-cases (c == b'<')) [
      | inl e ↦ rw e ((refl, refl), ((refl, refl), ((refl, refl), ((refl, refl), rest))))
      | inr e ↦ elim (Bool-cases (c == b'>')) [
        | inl f ↦ rw (e, f) ((refl, refl), ((refl, refl), ((refl, refl), ((refl, refl), rest))))
        | inr f ↦ rw (e, f) ((e, f), rest)
      ]
    ]

All-take : (P : ℕ → Type 0) (n : ℕ) (s : Bytes) → All P s → All P (take n s)
All-take P zero s h = tt
All-take P (suc n) [] h = tt
All-take P (suc n) (c ∷ s) (p, h) = (p, All-take P n s h)

length-take : (n : ℕ) (s : Bytes) → length (take n s) ≤ n
length-take zero s = omega arith
length-take (suc n) [] = omega arith
length-take (suc n) (c ∷ s) = omega (arith, length-take n s)

floor_from_le : (s : Bytes) (i : ℕ) → floor_from s i ≤ i
unfolding floor_from
floor_from_le s zero = omega arith
floor_from_le s (suc i) = ground (arith, floor_from_le s i)

floor_char_boundary_le : (s : Bytes) (i : ℕ) → floor_char_boundary s i ≤ i
unfolding floor_char_boundary
floor_char_boundary_le s i = ground (arith, floor_from_le s i)

-- Whatever a client sends, what an error page shows of it has no tag bracket in it and at most 80 bytes.
pub shown-IsPlain : (arg : Bytes) → All IsPlain (shown arg) × (length (shown arg) ≤ 80)
unfolding shown
shown-IsPlain arg = elim (Bool-cases (ltb 80 (length (defang arg)))) [
  | inl e ↦
      let cut = floor_char_boundary_le (defang arg) 80 in
      let short = length-take (floor_char_boundary (defang arg) 80) (defang arg) in
      rw e (All-take IsPlain _ (defang arg) (defang-IsPlain arg), omega arith)
  | inr e ↦ rw e (defang-IsPlain arg, ground arith)
]
