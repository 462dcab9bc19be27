-- ===== src/Match/Spec.antt =====
-- What a glob pattern means, with no search order in it: the doc comment of
-- rust/crates/thttpd-match/src/lib.rs read as an inductive relation.
use thttpd_rs.Base.{ℕ, ◌&&◌, ◌≡◌, refl, ◌≢◌, List, [], ◌∷◌, Bytes, ◌==◌, if◌then◌else◌}

pub data Item : Type 0 where
  lit : ℕ → Item
  one_byte star globstar : Item

unfoldable pub item_of : ℕ → Item
item_of c = if c == b'?' then one_byte else if c == b'*' then star else lit c

pub item_of-star : item_of b'*' ≡ star
unfolding item_of
item_of-star = refl

-- The items of an alternative: `**` is read before `*`.
unfoldable pub items : Bytes → List Item
items [] = []
items (c ∷ []) = item_of c ∷ []
items (c ∷ d ∷ p) =
    let two = globstar ∷ items p in
    let rest = items (d ∷ p) in if c == b'*' && d == b'*' then two else item_of c ∷ rest

-- A star takes any run of bytes but a slash, a double star any run at all.
pub data Matches : List Item → Bytes → Type 0 where
  nothing : Matches [] []
  same : {c x : ℕ} {p : List Item} {s : Bytes} → x ≡ c → Matches p s → Matches (lit c ∷ p) (x ∷ s)
  any_one : {x : ℕ} {p : List Item} {s : Bytes} → Matches p s → Matches (one_byte ∷ p) (x ∷ s)
  leave : {p : List Item} {s : Bytes} → Matches p s → Matches (star ∷ p) s
  take :
      {x : ℕ} {p : List Item} {s : Bytes}
      → x ≢ b'/'
      → Matches (star ∷ p) s
      → Matches (star ∷ p) (x ∷ s)
  leave_all : {p : List Item} {s : Bytes} → Matches p s → Matches (globstar ∷ p) s
  take_all :
      {x : ℕ} {p : List Item} {s : Bytes}
      → Matches (globstar ∷ p) s
      → Matches (globstar ∷ p) (x ∷ s)
