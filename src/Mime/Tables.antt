-- ===== src/Mime/Tables.antt =====
-- What a table of texts has for a text.
use thttpd_rs.Base.{
  ◌≡◌, ◌≢◌, refl, sym, inl, inr, false, Bool-cases, none, some, List, [], ◌∷◌, Bytes, All, eq_bytes,
  eq_bytes-eq, eq_bytes_refl, subst₂,
}
use mathlib.Core.Option.{some-injective}
use thttpd_rs.Mime.{look_up}

-- The first entry of the table with the key has the value.
pub data Listed (key value : Bytes) : List (Bytes × Bytes) → Type 0 where
  here : (rest : List (Bytes × Bytes)) → Listed key value ((key, value) ∷ rest)
  later :
      (k v : Bytes) (rest : List (Bytes × Bytes))
      → key ≢ k
      → Listed key value rest
      → Listed key value ((k, v) ∷ rest)

-- No entry of the table has the key.
abbrev pub Unlisted : Bytes → List (Bytes × Bytes) → Type 0
Unlisted key table = All (λ entry. key ≢ entry.0) table

differs : (s t : Bytes) → s ≢ t → eq_bytes s t ≡ false
differs s t d = elim (Bool-cases (eq_bytes s t)) [
  | inl e ↦ absurd (d (eq_bytes-eq s t e))
  | inr e ↦ e
]

same : (s t : Bytes) → eq_bytes s t ≡ false → s ≢ t
same s t e q = absurd (cc (eq_bytes_refl t, rw q at e))

pub Listed-look_up :
    (key value : Bytes) {table : List (Bytes × Bytes)}
    → Listed key value table
    → look_up key table ≡ some value
unfolding look_up
Listed-look_up key value (here rest) = rw (eq_bytes_refl key, look_up) refl
Listed-look_up key value (later k v rest d h) =
    rw (differs key k d, look_up) (Listed-look_up key value h)

pub look_up-Listed :
    (key value : Bytes) (table : List (Bytes × Bytes))
    → look_up key table ≡ some value
    → Listed key value table
unfolding look_up
look_up-Listed key value [] e = absurd (cc)
look_up-Listed key value ((k, v) ∷ table) e = elim (Bool-cases (eq_bytes key k)) [
  | inl q ↦
      subst₂ (λ x y. Listed key value ((x, y) ∷ table)) (eq_bytes-eq key k q)
        (sym (some-injective _ _ (rw (q, look_up) at e))) (here table)
  | inr q ↦ later k v table (same key k q) (look_up-Listed key value table (rw (q, look_up) at e))
]

pub Unlisted-look_up :
    (key : Bytes) (table : List (Bytes × Bytes)) → Unlisted key table → look_up key table ≡ none
unfolding look_up
Unlisted-look_up key [] h = refl
Unlisted-look_up key ((k, v) ∷ table) (d, h) =
    rw (differs key k d, look_up) (Unlisted-look_up key table h)

pub look_up-Unlisted :
    (key : Bytes) (table : List (Bytes × Bytes)) → look_up key table ≡ none → Unlisted key table
unfolding look_up
look_up-Unlisted key [] e = tt
look_up-Unlisted key ((k, v) ∷ table) e = elim (Bool-cases (eq_bytes key k)) [
  | inl q ↦ absurd (cc (rw (q, look_up) at e))
  | inr q ↦ (same key k q, look_up-Unlisted key table (rw (q, look_up) at e))
]
