-- ===== src/Diff/Keys.antt =====
-- The keys of two groups of headers, and a group compared with itself.
use thttpd_rs.Base.{
  ◌≡◌, refl, ◌∙◌, true, false, Bool-cases, inl, inr, some, List, [], ◌∷◌, Bytes, All, arith,
  eq_bytes, eq_bytes-eq, eq_bytes_refl,
}
use thttpd_rs.Diff.{before, Grouped, get, remove, insert_key, keys_into, eq_values, mismatches}

eq_values_refl : (vs : List Bytes) → eq_values vs vs ≡ true
unfolding eq_values
eq_values_refl [] = refl
eq_values_refl (v ∷ vs) = rw (eq_bytes_refl v) (eq_values_refl vs)

before-eq : (s t : Bytes) → before s t ≡ true → eq_bytes s t ≡ false
unfolding before eq_bytes
before-eq [] [] h = absurd (cc)
before-eq [] (b ∷ t) h = refl
before-eq (a ∷ s) [] h = absurd (cc)
before-eq (a ∷ s) (b ∷ t) h = let rest = before-eq s t in ground (arith, rest)

before_trans : (s t u : Bytes) → before s t ≡ true → before t u ≡ true → before s u ≡ true
unfolding before
before_trans [] [] u h k = absurd (cc)
before_trans [] (b ∷ t) [] h k = absurd (cc)
before_trans [] (b ∷ t) (c ∷ u) h k = refl
before_trans (a ∷ s) [] u h k = absurd (cc)
before_trans (a ∷ s) (b ∷ t) [] h k = absurd (cc)
before_trans (a ∷ s) (b ∷ t) (c ∷ u) h k = let rest = before_trans s t u in ground (arith, rest)

before-total : (s t : Bytes) → eq_bytes s t ≡ false → before s t ≡ false → before t s ≡ true
unfolding before eq_bytes
before-total [] [] h k = absurd (cc)
before-total [] (b ∷ t) h k = absurd (cc)
before-total (a ∷ s) [] h k = refl
before-total (a ∷ s) (b ∷ t) h k = let rest = before-total s t in ground (arith, rest)

abbrev Ascending : List Bytes → Type 0
Ascending [] = Unit
Ascending (k ∷ ks) = All (λ l. before k l ≡ true) ks × Ascending ks

All-insert_key :
    (P : Bytes → Type 0) (key : Bytes) (keys : List Bytes)
    → P key
    → All P keys
    → All P (insert_key key keys)
unfolding insert_key
All-insert_key P key [] p ps = (p, tt)
All-insert_key P key (k ∷ ks) p (q, qs) = elim (Bool-cases (eq_bytes key k)) [
  | inl e ↦ rw e (q, qs)
  | inr e ↦ elim (Bool-cases (before key k)) [
    | inl b ↦ rw (e, b) (p, (q, qs))
    | inr b ↦ rw (e, b) (q, All-insert_key P key ks p qs)
  ]
]

All-map_before :
    (s t : Bytes) (ks : List Bytes)
    → before s t ≡ true
    → All (λ l. before t l ≡ true) ks
    → All (λ l. before s l ≡ true) ks
All-map_before s t [] b h = tt
All-map_before s t (k ∷ ks) b (h, hs) = (before_trans s t k b h, All-map_before s t ks b hs)

insert_key-Ascending :
    (key : Bytes) (keys : List Bytes) → Ascending keys → Ascending (insert_key key keys)
unfolding insert_key
insert_key-Ascending key [] h = (tt, tt)
insert_key-Ascending key (k ∷ ks) (h, hs) = elim (Bool-cases (eq_bytes key k)) [
  | inl e ↦ rw e (h, hs)
  | inr e ↦ elim (Bool-cases (before key k)) [
    | inl b ↦ rw (e, b) ((b, All-map_before key k ks b h), (h, hs))
    | inr b ↦
        rw (e, b)
          (
            All-insert_key (λ l. before k l ≡ true) key ks (before-total key k e b) h,
            insert_key-Ascending key ks hs,
          )
  ]
]

keys_into-Ascending :
    (g : Grouped) (keys : List Bytes) → Ascending keys → Ascending (keys_into g keys)
unfolding keys_into
keys_into-Ascending [] keys h = h
keys_into-Ascending ((k, vs) ∷ g) keys h =
    keys_into-Ascending g (insert_key k keys) (insert_key-Ascending k keys h)

-- The key has values.
abbrev Has : Grouped → Bytes → Type 0
Has g key = (vs : List Bytes) × (get key g ≡ some vs)

Has-cons :
    (k : Bytes) (vs : List Bytes) (g : Grouped) (key : Bytes) → Has g key → Has ((k, vs) ∷ g) key
unfolding get
Has-cons k vs g key (ws, e) = elim (Bool-cases (eq_bytes k key)) [
  | inl q ↦ (vs, rw (q, get) refl)
  | inr q ↦ (ws, rw (q, get) e)
]

keys_into-Has :
    (P : Bytes → Type 0) (g : Grouped) (keys : List Bytes)
    → ((key : Bytes) → Has g key → P key)
    → All P keys
    → All P (keys_into g keys)
unfolding keys_into get
keys_into-Has P [] keys h ps = ps
keys_into-Has P ((k, vs) ∷ g) keys h ps =
    keys_into-Has P g (insert_key k keys) (λ key found. h key (Has-cons k vs g key found))
      (All-insert_key P k keys (h k (vs, rw (eq_bytes_refl k, get) refl)) ps)

get-remove :
    (key other : Bytes) (g : Grouped)
    → eq_bytes key other ≡ false
    → get other (remove key g) ≡ get other g
unfolding get remove
get-remove key other [] h = refl
get-remove key other ((k, vs) ∷ g) h = elim (Bool-cases (eq_bytes k key)) [
  | inl e ↦ rw (e, remove, eq_bytes-eq k key e, h) refl
  | inr e ↦ elim (Bool-cases (eq_bytes k other)) [
    | inl q ↦ rw (e, q, remove, get) refl
    | inr q ↦ rw (e, q, remove, get) (get-remove key other g h)
  ]
]

still :
    (key : Bytes) (keys : List Bytes) (exp act : Grouped)
    → All (λ l. before key l ≡ true) keys
    → All (λ l. get l exp ≡ get l act) keys
    → All (λ l. get l (remove key exp) ≡ get l act) keys
still key [] exp act b h = tt
still key (l ∷ ls) exp act (b, bs) (h, hs) =
    (get-remove key l exp (before-eq key l b) ∙ h, still key ls exp act bs hs)

same : (keys : List Bytes) (g : Grouped) → All (λ l. get l g ≡ get l g) keys
same [] g = tt
same (l ∷ ls) g = (refl, same ls g)

-- the keys of a map that stand in another with the same values
none_mismatched :
    (keys : List Bytes) (exp act : Grouped)
    → Ascending keys
    → All (λ key. get key exp ≡ get key act) keys
    → All (Has act) keys
    → mismatches keys exp act ≡ []
unfolding mismatches
none_mismatched [] exp act a h k = refl
none_mismatched (key ∷ keys) exp act (b, a) (h, hs) ((vs, f), fs) =
    rw (h, f, eq_values_refl vs)
      (none_mismatched keys (remove key exp) act a (still key keys exp act b hs) fs)

pub mismatches_self : (g : Grouped) → mismatches (keys_into g (keys_into g [])) g g ≡ []
mismatches_self g =
    let keys = keys_into g (keys_into g []) in
    none_mismatched keys g g (keys_into-Ascending g (keys_into g []) (keys_into-Ascending g [] tt))
      (same keys g)
      (keys_into-Has (Has g) g (keys_into g []) (λ key h. h)
        (keys_into-Has (Has g) g [] (λ key h. h) tt))
