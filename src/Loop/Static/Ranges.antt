-- ===== src/Loop/Static/Ranges.antt =====
-- The body of a file and the length that its header announces.
use thttpd_rs.Base.{
  ℕ, zero, suc, ◌+◌, ◌-◌, ◌%◌, ◌^◌, ◌<◌, ◌≤◌, ◌≡◌, subst, subst₂, refl, sym, ap, ◌∙◌, Bool,
  Bool-cases, true, false, none, some, List, [], ◌∷◌, Bytes, codes, arith, ◌⊎◌, inl, inr, Any,
  if◌then◌else◌, ltb, leb, length, take, drop, decimal, decimal_ℤ,
}
use thttpd_rs.Base.Int.{ℤ, pos, negsuc, ◌+ℤ◌, ◌-ℤ◌, ltb_ℤ, +ℤ-pos, -ℤ-pos}
use thttpd_rs.Conn.{HttpConn}
use thttpd_rs.Response.{is_partial, length_headers}
use thttpd_rs.Loop.Static.Content.{filled_last, with_last_byte_filled, body_of, slice}

-- What a client may ask of a file: all of it, or a range that begins at `a` and ends, if it says so, no
-- byte before.
pub data Asks : Bool → ℤ → ℤ → Type 0 where
  whole : (first last : ℤ) → Asks false first last
  from : (a : ℕ) → Asks true (pos a) (negsuc 0)
  between : (a b : ℕ) → a ≤ b → Asks true (pos a) (pos b)

length-take_le : {A : Type 0} (n : ℕ) (xs : List A) → n ≤ length xs → length (take n xs) ≡ n
length-take_le zero xs h = refl
length-take_le (suc n) [] h = elim h [ ]
length-take_le (suc n) (x ∷ xs) h = ap suc (length-take_le n xs (omega arith))

length-drop : {A : Type 0} (n : ℕ) (xs : List A) → length (drop n xs) ≡ length xs - n
length-drop zero xs = omega arith
length-drop (suc n) [] = omega arith
length-drop (suc n) (x ∷ xs) = omega (arith, length-drop n xs)

-- The ranges of a file of `n` bytes once the end is filled in.
data Fits (n : ℕ) : Bool → ℤ → ℤ → Type 0 where
  whole : (first last : ℤ) → Fits n false first last
  within : (a b : ℕ) → a ≤ b → b < n → Fits n true (pos a) (pos b)
  beyond : (a b : ℕ) → n ≤ a → b < n → Fits n true (pos a) (pos b)

last_byte : (n : ℕ) → 0 < n → n < 2 ^ 62 → pos n -ℤ pos 1 ≡ pos (n - 1)
last_byte n h k = -ℤ-pos n 1 (omega arith) (omega arith)

in_order : (n a b : ℕ) → b < n → (a ≤ b) ⊎ (n ≤ a) → Fits n true (pos a) (pos b)
in_order n a b lt (inl le) = within a b le lt
in_order n a b lt (inr le) = beyond a b le lt

filled_pos :
    (n b : ℕ) → filled_last true (pos n) (pos b) ≡ (if ltb b n then pos b else pos n -ℤ pos 1)
unfolding filled_last
filled_pos n b = ground arith

filled-Fits :
    (n : ℕ) {got_range : Bool} {first last : ℤ}
    → 0 < n
    → n < 2 ^ 62
    → Asks got_range first last
    → Fits n got_range first (filled_last got_range (pos n) last)
unfolding filled_last
filled-Fits n h k (whole first last) = whole first last
filled-Fits n h k (from a) = rw (last_byte n h k) (in_order n a (n - 1) (omega arith) (grind arith))
filled-Fits n h k (between a b le) = elim (Bool-cases (ltb b n)) [
  | inl lt ↦
      subst (Fits n true (pos a)) (sym (filled_pos n b ∙ rw lt refl)) (within a b le (ground arith))
  | inr ge ↦
      subst (Fits n true (pos a)) (sym (filled_pos n b ∙ rw ge (last_byte n h k)))
        (in_order n a (n - 1) (omega arith) (grind arith))
]

-- The header announces a length.
abbrev pub Says : HttpConn → Bool → ℕ → ℕ → Type 0
Says http partial n k =
    Any (λ h. h ≡ (codes "Content-Length", decimal k)) (length_headers http partial (pos n))

-- The body that a request is served, and the length that the header announces for it.
abbrev pub Announced : ℤ → HttpConn → Bytes → Type 0
Announced t http content =
    (body : Bytes) × (body_of http.got_range http.first_byte_index http.last_byte_index content
      ≡ some body)
    × Says http (is_partial http 200 (pos (length content)) t) (length content) (length body)

within-body :
    (a b : ℕ) (content : Bytes)
    → a ≤ b
    → b < length content
    → length content < 2 ^ 62
    → body_of true (pos a) (pos b) content ≡ some (take (b + 1 - a) (drop a content))
unfolding body_of slice
within-body a b content le lt small =
    let end : (b + 1) % 2 ^ 64 ≡ b + 1 = omega arith in
    let starts : ltb a (length content) ≡ true = ground arith in
    let ends : leb (b + 1) (length content) ≡ true = ground arith in
    let ordered : ltb (b + 1) a ≡ false = ground arith in rw (end, starts, ends, ordered) refl

beyond-body :
    (a b : ℕ) (content : Bytes)
    → length content ≤ a
    → body_of true (pos a) (pos b) content ≡ some content
unfolding body_of
beyond-body a b content le =
    let starts : ltb a (length content) ≡ false = ground arith in rw starts refl

length-slice :
    (a b : ℕ) (content : Bytes)
    → a ≤ b
    → b < length content
    → length (take (b + 1 - a) (drop a content)) ≡ b + 1 - a
length-slice a b content le lt =
    length-take_le (b + 1 - a) (drop a content) (omega (arith, length-drop a content))

whole-length :
    (http : HttpConn) (t : ℤ) (n : ℕ)
    → is_partial http 200 (pos n) t ≡ false
    → Says http (is_partial http 200 (pos n) t) n n
unfolding length_headers decimal_ℤ
whole-length http t n e =
    let counted : ltb_ℤ (pos n) (pos 0) ≡ false = ground arith in rw (e, counted) (inl refl)

whole-partial :
    (http : HttpConn) (t : ℤ) (n : ℕ)
    → http.got_range ≡ false
    → is_partial http 200 (pos n) t ≡ false
unfolding is_partial
whole-partial http t n g = ground arith

beyond-partial :
    (http : HttpConn) (t : ℤ) (n a b : ℕ)
    → http.first_byte_index ≡ pos a
    → http.last_byte_index ≡ pos b
    → b < a
    → is_partial http 200 (pos n) t ≡ false
unfolding is_partial
beyond-partial http t n a b f l lt =
    let reversed : ltb_ℤ http.last_byte_index http.first_byte_index ≡ true =
      rw (f, l) (ground arith) in
    ground arith

-- A range that is not announced as one is the whole file.
within-partial :
    (http : HttpConn) (t : ℤ) (n a b : ℕ)
    → http.got_range ≡ true
    → http.first_byte_index ≡ pos a
    → http.last_byte_index ≡ pos b
    → http.range_if ≡ none
    → a ≤ b
    → b < n
    → n < 2 ^ 62
    → is_partial http 200 (pos n) t ≡ false
    → n ≡ b + 1 - a
unfolding is_partial
within-partial http t n a b g f l r le lt small e =
    let last = last_byte n (omega arith) small in ground (arith, last)

within-length :
    (http : HttpConn) (a b n : ℕ)
    → http.first_byte_index ≡ pos a
    → http.last_byte_index ≡ pos b
    → a ≤ b
    → b < 2 ^ 62
    → Says http true n (b + 1 - a)
unfolding length_headers decimal_ℤ
within-length http a b n f l le small =
    let spread : pos b -ℤ pos a +ℤ pos 1 ≡ pos (b + 1 - a) =
      rw (-ℤ-pos b a le (omega arith)) (+ℤ-pos (b - a) 1 (omega arith) ∙ ap pos (omega arith)) in
    let counted : http.last_byte_index -ℤ http.first_byte_index +ℤ pos 1 ≡ pos (b + 1 - a) =
      rw (f, l) spread in
    inr (inl (rw counted refl))

body_at :
    (got_range : Bool) (first last : ℤ) (http : HttpConn) (content body : Bytes)
    → got_range ≡ http.got_range
    → first ≡ http.first_byte_index
    → last ≡ http.last_byte_index
    → body_of got_range first last content ≡ some body
    → body_of http.got_range http.first_byte_index http.last_byte_index content ≡ some body
body_at got_range first last http content body g f l e = rw (← g, ← f, ← l) e

Fits-Announced :
    (t : ℤ) (http : HttpConn) (content : Bytes) {got_range : Bool} {first last : ℤ}
    → got_range ≡ http.got_range
    → first ≡ http.first_byte_index
    → last ≡ http.last_byte_index
    → http.range_if ≡ none
    → length content < 2 ^ 62
    → Fits (length content) got_range first last
    → Announced t http content
Fits-Announced t http content g f l r small (whole first last) = (
  content,
  body_at false first last http content content g f l (unfold body_of in refl),
  whole-length http t (length content) (whole-partial http t (length content) (sym g)),
)
Fits-Announced t http content g f l r small (beyond a b le lt) = (
  content,
  body_at true (pos a) (pos b) http content content g f l (beyond-body a b content le),
  whole-length http t (length content)
      (beyond-partial http t (length content) a b (sym f) (sym l) (omega arith)),
)
Fits-Announced t http content g f l r small (within a b le lt) =
    let n = length content in
    let body = take (b + 1 - a) (drop a content) in
    let cut = length-slice a b content le lt in
    let found =
      body_at true (pos a) (pos b) http content body g f l (within-body a b content le lt small) in
    let partial = is_partial http 200 (pos n) t in
    let said = λ (e : partial ≡ true).
      subst₂ (λ p k. Says http p n k) (sym e) (sym cut)
        (within-length http a b n (sym f) (sym l) le (omega arith)) in
    let whole_said = λ (e : partial ≡ false).
      subst (Says http partial n)
        (within-partial http t n a b (sym g) (sym f) (sym l) r le lt small e ∙ sym cut)
        (whole-length http t n e) in
    elim (Bool-cases partial) [
      | inl e ↦ (body, found, said e)
      | inr e ↦ (body, found, whole_said e)
    ]

-- A file whose bytes are the mapped ones, not empty and of less than 2 ^ 62 bytes, asked for as a whole
-- or by a range that does not end before it begins, with no condition on the range: once the end is
-- filled in, the request is served without a panic, and the header announces the length of its body.
pub served-Announced :
    (t : ℤ) (http : HttpConn) (content : Bytes)
    → Asks http.got_range http.first_byte_index http.last_byte_index
    → http.range_if ≡ none
    → 0 < length content
    → length content < 2 ^ 62
    → Announced t (with_last_byte_filled (pos (length content)) http) content
unfolding with_last_byte_filled
served-Announced t http content asks r some_byte small =
    let size = pos (length content) in
    let filled = filled_last http.got_range size http.last_byte_index in
    Fits-Announced t (record http { last_byte_index = filled }) content refl refl refl r small
      (filled-Fits (length content) some_byte small asks)
