-- ===== src/Url.antt =====
-- rust/crates/thttpd-http/src/url.rs: percent_decode and normalize_path; and url_encode of
-- rust/crates/thttpd-http/src/dirlist.rs.
pub mod Escapes
pub mod Paths
use thttpd_rs.Base.{
  ℕ, ◌+◌, ◌-◌, ◌*◌, ◌/◌, ◌%◌, ◌≡◌, Bool, true, false, ◌&&◌, ◌||◌, List, [], ◌∷◌, ◌++◌, Option, none,
  some, Bytes, ◌==◌, leb, if◌then◌else◌, split, join,
}

abbrev pub between : ℕ → ℕ → ℕ → Bool
between lo hi b = leb lo b && leb b hi

unfoldable pub from_hex : ℕ → Option ℕ
from_hex b =
    if between b'0' b'9' b
    then some (b - b'0')
    else if between b'a' b'f' b
    then some (b - b'a' + 10)
    else if between b'A' b'F' b
    then some (b - b'A' + 10)
    else none

-- `+` is a space, any other byte itself.
abbrev pub plain : ℕ → ℕ
plain b = if b == b'+' then b' ' else b

-- Both digits of an escape, as a byte.
unfoldable pub escape : Option ℕ → Option ℕ → Option ℕ
escape (some hi) (some lo) = some (hi * 16 + lo)
escape _ _ = none

-- The loop; the guard `i + 2 < bytes.len()` is the third clause.
unfoldable pub decode : Bytes → Bytes
unfolding from_hex escape
decode [] = []
decode (b ∷ []) = plain b ∷ []
decode (b ∷ h ∷ []) = plain b ∷ decode (h ∷ [])
decode (b ∷ h ∷ l ∷ s) =
    let behind = decode s in
    let onward = decode (h ∷ l ∷ s) in
    if b == b'%'
    then elim (escape (from_hex h) (from_hex l)) [ none ↦ b ∷ onward | some c ↦ c ∷ behind ]
    else plain b ∷ onward

-- `lossy` is `String::from_utf8_lossy`.
unfoldable pub percent_decode : (Bytes → Bytes) → Bytes → Bytes
unfolding decode
percent_decode lossy input = lossy (decode input)

-- `{:X}` of a number below 16
unfoldable pub hex_digit : ℕ → ℕ
hex_digit n = if leb n 9 then b'0' + n else b'A' + (n - 10)

abbrev pub is_unreserved : ℕ → Bool
is_unreserved b =
    between b'A' b'Z' b
    || between b'a' b'z' b
    || between b'0' b'9' b
    || b == b'.'
    || b == b'-'
    || b == b'_'
    || b == b'~'

unfoldable pub encode_byte : ℕ → Bytes
unfolding hex_digit
encode_byte b =
    if is_unreserved b then b ∷ [] else b'%' ∷ hex_digit (b / 16) ∷ hex_digit (b % 16) ∷ []

unfoldable pub url_encode : Bytes → Bytes
unfolding encode_byte
url_encode [] = []
url_encode (b ∷ s) = encode_byte b ++ url_encode s

-- `path.contains("//")`
unfoldable pub has_double_slash : Bytes → Bool
has_double_slash [] = false
has_double_slash (a ∷ []) = false
has_double_slash (a ∷ b ∷ s) = (a == b'/' && b == b'/') || has_double_slash (b ∷ s)

-- The three cases of the match on a part.
pub data Part : Type 0 where
  here up named : Part

unfoldable pub part_of : Bytes → Part
part_of [] = here
part_of (a ∷ []) = if a == b'.' then here else named
part_of (a ∷ b ∷ []) = if a == b'.' && b == b'.' then up else named
part_of (a ∷ b ∷ c ∷ s) = named

-- The loop over the parts; the vector of components is a list with its end first.
unfoldable pub resolve : List Bytes → List Bytes → Option (List Bytes)
unfolding part_of
resolve [] components = some components
resolve (part ∷ parts) components = elim (part_of part) [
  | here ↦ resolve parts components
  | up ↦ elim components [ [] ↦ none | _ ∷ rest ↦ resolve parts rest ]
  | named ↦ resolve parts (part ∷ components)
]

unfoldable pub reverse_onto : List Bytes → List Bytes → List Bytes
reverse_onto [] acc = acc
reverse_onto (w ∷ ws) acc = reverse_onto ws (w ∷ acc)

-- The empty join makes `/` of no components, as the code's special case does.
unfoldable pub normalized : List Bytes → Bytes
unfolding reverse_onto join
normalized components = b'/' ∷ join b'/' (reverse_onto components [])

unfoldable pub normalize_path : Bytes → Option Bytes
unfolding has_double_slash resolve normalized split
normalize_path path = if has_double_slash path then none else elim (resolve (split b'/' path) []) [
  | none ↦ none
  | some components ↦ some (normalized components)
]
