-- ===== src/Forward/Bodies.antt =====
-- The prefix of a body and what is passed on behind it.
use thttpd_rs.Base.{
  ◌≡◌, refl, sym, ap, ◌∙◌, subst, ℕ, zero, suc, ◌+◌, ◌-◌, ◌≤◌, true, false, Bool-cases, inl, inr,
  none, some, List, [], ◌∷◌, ◌++◌, Bytes, arith, leb, length, length-append, take, drop,
}
use mathlib.Core.List.{append_assoc}
use mathlib.Core.Option.{some-injective}
use thttpd_rs.Forward.{
  Frame, chunk, trailers, broken, Capped, read_from, read_capped, filter_full, chunk_frames,
  chained, full_body,
}

-- The data of a body.
unfoldable pub data_of : List Frame → Bytes
data_of [] = []
data_of (chunk s ∷ fs) = s ++ data_of fs
data_of (trailers ∷ fs) = data_of fs
data_of (broken ∷ fs) = data_of fs

joined : List Bytes → Bytes
joined [] = []
joined (c ∷ cs) = c ++ joined cs

append_nil : (s : Bytes) → s ++ [] ≡ s
append_nil [] = refl
append_nil (c ∷ s) = ap (λ t. c ∷ t) (append_nil s)

take-drop : (n : ℕ) (s : Bytes) → take n s ++ drop n s ≡ s
take-drop zero s = refl
take-drop (suc n) [] = refl
take-drop (suc n) (c ∷ s) = ap (λ t. c ∷ t) (take-drop n s)

length-take : (n : ℕ) (s : Bytes) → length (take n s) ≤ n
length-take zero s = omega arith
length-take (suc n) [] = omega arith
length-take (suc n) (c ∷ s) = omega (arith, length-take n s)

data_of-frames :
    (cs : List Bytes) (fs : List Frame) → data_of (chunk_frames cs ++ fs) ≡ joined cs ++ data_of fs
unfolding data_of chunk_frames joined
data_of-frames [] fs = refl
data_of-frames (c ∷ cs) fs =
    ap (λ t. c ++ t) (data_of-frames cs fs) ∙ sym (append_assoc c (joined cs) (data_of fs))

joined-filter_full : (cs : List Bytes) → joined (filter_full cs) ≡ joined cs
unfolding joined filter_full
joined-filter_full [] = refl
joined-filter_full ([] ∷ cs) = joined-filter_full cs
joined-filter_full ((b ∷ c) ∷ cs) = ap (λ t. (b ∷ c) ++ t) (joined-filter_full cs)

data_of-chained :
    (cs : List Bytes) (fs : List Frame) → data_of (chained cs fs) ≡ joined cs ++ data_of fs
unfolding chained
data_of-chained cs fs =
    data_of-frames (filter_full cs) fs ∙ ap (λ t. t ++ data_of fs) (joined-filter_full cs)

-- The body that is passed on is the whole one, the prefix keeps to the cap, and it is the whole body if
-- it is not marked as cut.
abbrev pub Whole : ℕ → Bytes → Capped → Type 0
Whole max_bytes whole (buf, (tail, (cut, rest))) =
    (data_of (full_body (buf, (tail, (cut, rest)))) ≡ whole)
    × (length buf ≤ max_bytes)
    × (cut ≡ false → buf ≡ whole)

joined-two : (a b : Bytes) → joined (a ∷ b ∷ []) ≡ a ++ b
unfolding joined
joined-two a b = ap (λ t. a ++ t) (append_nil b)

ended-Whole :
    (max_bytes : ℕ) (buf : Bytes)
    → length buf ≤ max_bytes
    → Whole max_bytes (buf ++ []) (buf, (none, (false, [])))
unfolding data_of full_body
ended-Whole max_bytes buf h = (refl, h, λ e. sym (append_nil buf))

cut-Whole :
    (max_bytes n : ℕ) (buf s : Bytes) (fs : List Frame)
    → length buf + n ≤ max_bytes
    → Whole max_bytes (buf ++ (s ++ data_of fs)) (buf ++ take n s, (some (drop n s), (true, fs)))
unfolding full_body
cut-Whole max_bytes n buf s fs h = (
  data_of-chained ((buf ++ take n s) ∷ drop n s ∷ []) fs
      ∙ (ap (λ t. t ++ data_of fs)
            (joined-two (buf ++ take n s) (drop n s)
              ∙ (append_assoc buf (take n s) (drop n s) ∙ ap (λ t. buf ++ t) (take-drop n s)))
          ∙ append_assoc buf s (data_of fs)),
  omega (arith, length-append buf (take n s), length-take n s),
  λ e. absurd (cc),
)

read_from-Whole :
    (max_bytes : ℕ) (frames : List Frame) (buf : Bytes) (c : Capped)
    → length buf ≤ max_bytes
    → read_from buf frames max_bytes ≡ some c
    → Whole max_bytes (buf ++ data_of frames) c
unfolding read_from data_of
read_from-Whole max_bytes [] buf c h e =
    subst (Whole max_bytes (buf ++ [])) (some-injective _ _ e) (ended-Whole max_bytes buf h)
read_from-Whole max_bytes (broken ∷ fs) buf c h e = absurd (cc)
read_from-Whole max_bytes (trailers ∷ fs) buf c h e = read_from-Whole max_bytes fs buf c h e
read_from-Whole max_bytes (chunk s ∷ fs) buf c h e =
    let fits = leb (length buf + length s) max_bytes in
    elim (Bool-cases fits) [
      | inl q ↦
          subst (λ w. Whole max_bytes w c) (append_assoc buf s (data_of fs))
            (read_from-Whole max_bytes fs (buf ++ s) c (ground (arith, length-append buf s))
              (rw (q, read_from) at e))
      | inr q ↦
          subst (Whole max_bytes (buf ++ (s ++ data_of fs)))
            (some-injective _ _ (rw (q, read_from) at e))
            (cut-Whole max_bytes (max_bytes - length buf) buf s fs (omega arith))
    ]

-- The body that the proxy passes on behind a read up to a cap, of the prefix, the tail and what is left
-- of the stream, has the data of the whole body; the prefix is no longer than the cap, and without the
-- mark of a cut it is the whole body.
pub read_capped-Whole :
    (frames : List Frame) (max_bytes : ℕ) (c : Capped)
    → read_capped frames max_bytes ≡ some c
    → Whole max_bytes (data_of frames) c
unfolding read_capped
read_capped-Whole frames max_bytes c e = read_from-Whole max_bytes frames [] c (omega arith) e
