-- ===== src/Url/Paths.antt =====
-- Normalised paths.
use thttpd_rs.Base.{
  ℕ, ◌≡◌, ◌≢◌, codes, refl, sym, ◌∙◌, ap, ap₂, ==_iff, ◌&&◌, &&-eq-true, false, List, [], ◌∷◌, ◌++◌,
  some, Bytes, ◌==◌, All, inl, inr, arith, Bool-cases, Option-cases, contains, split, join,
  cons_head, subst,
}
use thttpd_rs.Url.{
  Part, here, up, named, part_of, has_double_slash, resolve, reverse_onto, normalized,
  normalize_path,
}

abbrev IsWhole : Bytes → Type 0
IsWhole w = contains b'/' w ≡ false

-- A component of a path: not empty, `.` or `..`, and no slash in it.
pub record IsComponent (w : Bytes) : Type 0 where
  pub not_empty : w ≢ []
  pub not_here : w ≢ codes "."
  pub not_up : w ≢ codes ".."
  pub whole : contains b'/' w ≡ false

named-IsComponent : (w : Bytes) → part_of w ≡ named → IsWhole w → IsComponent w
unfolding part_of
named-IsComponent w e h = record {
  not_empty = λ q. cc (ap part_of q, e);
  not_here = λ q. cc e;
  not_up = λ q. cc e;
  whole = h;
}

no_dot : (a : ℕ) → (a ∷ []) ≢ codes "." → part_of (a ∷ []) ≡ named
unfolding part_of
no_dot a h = elim (Bool-cases (a == b'.')) [
  | inl e ↦ absurd (h (ap (λ c. c ∷ []) ((==_iff a b'.').0 e)))
  | inr e ↦ rw e refl
]

no_dots : (a b : ℕ) → (a ∷ b ∷ []) ≢ codes ".." → part_of (a ∷ b ∷ []) ≡ named
unfolding part_of
no_dots a b h = elim (Bool-cases (a == b'.' && b == b'.')) [
  | inl e ↦
      let (p, q) = &&-eq-true (a == b'.') (b == b'.') e in
      absurd (h (ap₂ (λ c d. c ∷ d ∷ []) ((==_iff a b'.').0 p) ((==_iff b b'.').0 q)))
  | inr e ↦ rw e refl
]

IsComponent-named : (w : Bytes) → IsComponent w → part_of w ≡ named
unfolding part_of
IsComponent-named [] h = absurd (h.not_empty refl)
IsComponent-named (a ∷ []) h = no_dot a h.not_here
IsComponent-named (a ∷ b ∷ []) h = no_dots a b h.not_up
IsComponent-named (a ∷ b ∷ c ∷ s) h = refl

-- A path of components behind one slash each.
pub record IsNormal (path : Bytes) : Type 0 where
  pub components : List Bytes
  pub spelled : path ≡ b'/' ∷ join b'/' components
  pub clean : All IsComponent components

cons_head-IsWhole :
    (c : ℕ) (ws : List Bytes) → (c == b'/') ≡ false → All IsWhole ws → All IsWhole (cons_head c ws)
cons_head-IsWhole c [] h t = (rw h refl, tt)
cons_head-IsWhole c (w ∷ ws) h (a, t) = (rw (h, a) refl, t)

-- The pieces of a split hold no separator.
split-IsWhole : (s : Bytes) → All IsWhole (split b'/' s)
unfolding split
split-IsWhole [] = (refl, tt)
split-IsWhole (c ∷ s) = elim (Bool-cases (c == b'/')) [
  | inl e ↦ rw e (refl, split-IsWhole s)
  | inr e ↦ rw e (cons_head-IsWhole c (split b'/' s) e (split-IsWhole s))
]

some-injective {ℓ} : {A : Type ℓ} {a b : A} → some a ≡ some b → a ≡ b
some-injective e = cc

-- What is resolved is a stack of components.
resolve-IsComponent :
    (parts stack out : List Bytes)
    → All IsWhole parts
    → All IsComponent stack
    → resolve parts stack ≡ some out
    → All IsComponent out
unfolding resolve
resolve-IsComponent [] stack out p s h = subst (All IsComponent) (some-injective h) s
resolve-IsComponent (w ∷ parts) stack out (a, p) s h =
    go (part_of w) (λ st t e. resolve-IsComponent parts st out p t e) refl stack s h
  where
    go :
        (k : Part)
        → ((st : List Bytes)
            → All IsComponent st
            → resolve parts st ≡ some out
            → All IsComponent out)
        → part_of w ≡ k
        → (st : List Bytes) → All IsComponent st
        → resolve (w ∷ parts) st ≡ some out
        → All IsComponent out
    go here ih e st s h = ih st s (rw (e, resolve) at h)
    go named ih e st s h = ih (w ∷ st) (named-IsComponent w e a, s) (rw (e, resolve) at h)
    go up ih e [] s h = absurd (cc (rw (e, resolve) at h))
    go up ih e (v ∷ st) (_, s) h = ih st s (rw (e, resolve) at h)

reverse_onto-All :
    (ws acc : List Bytes)
    → All IsComponent ws
    → All IsComponent acc
    → All IsComponent (reverse_onto ws acc)
unfolding reverse_onto
reverse_onto-All [] acc h k = k
reverse_onto-All (w ∷ ws) acc (a, h) k = reverse_onto-All ws (w ∷ acc) h (a, k)

reverse_onto-reverse_onto :
    (xs ys zs : List Bytes) → reverse_onto (reverse_onto xs ys) zs ≡ reverse_onto ys (xs ++ zs)
unfolding reverse_onto
reverse_onto-reverse_onto [] ys zs = refl
reverse_onto-reverse_onto (x ∷ xs) ys zs = reverse_onto-reverse_onto xs (x ∷ ys) zs

append-nil {ℓ} : {A : Type ℓ} (ws : List A) → ws ++ [] ≡ ws
append-nil [] = refl
append-nil (w ∷ ws) = ap (λ r. w ∷ r) (append-nil ws)

-- Names are pushed one by one.
resolve-components :
    (ws stack : List Bytes) → All IsComponent ws → resolve ws stack ≡ some (reverse_onto ws stack)
unfolding resolve reverse_onto
resolve-components [] stack h = refl
resolve-components (w ∷ ws) stack (a, h) =
    rw (IsComponent-named w a, resolve) (resolve-components ws (w ∷ stack) h)

head-differs : (c : ℕ) (w : Bytes) → IsWhole (c ∷ w) → (c == b'/') ≡ false
head-differs c w h = ground arith

tail-IsWhole : (c : ℕ) (w : Bytes) → IsWhole (c ∷ w) → IsWhole w
tail-IsWhole c w h = ground arith

split-last : (w : Bytes) → IsWhole w → split b'/' w ≡ w ∷ []
unfolding split
split-last [] h = refl
split-last (c ∷ w) h = rw (head-differs c w h, split-last w (tail-IsWhole c w h)) refl

split-first : (w s : Bytes) → IsWhole w → split b'/' (w ++ b'/' ∷ s) ≡ w ∷ split b'/' s
unfolding split
split-first [] s h = refl
split-first (c ∷ w) s h = rw (head-differs c w h, split-first w s (tail-IsWhole c w h)) refl

split-join :
    (w : Bytes) (ws : List Bytes)
    → IsComponent w
    → All IsComponent ws
    → split b'/' (join b'/' (w ∷ ws)) ≡ w ∷ ws
unfolding join
split-join w [] a h = split-last w a.whole
split-join w (v ∷ ws) a (b, h) =
    split-first w (join b'/' (v ∷ ws)) a.whole ∙ ap (λ r. w ∷ r) (split-join v ws b h)

named-cons : (w : Bytes) → part_of w ≡ named → (c : ℕ) × ((s : Bytes) × (w ≡ c ∷ s))
unfolding part_of
named-cons [] h = absurd (cc)
named-cons (c ∷ s) h = (c, (s, refl))

double_slash-IsWhole : (w : Bytes) → IsWhole w → has_double_slash w ≡ false
unfolding has_double_slash
double_slash-IsWhole [] h = refl
double_slash-IsWhole (a ∷ []) h = refl
double_slash-IsWhole (a ∷ b ∷ s) h =
    rw (head-differs a (b ∷ s) h) (double_slash-IsWhole (b ∷ s) (tail-IsWhole a (b ∷ s) h))

double_slash-first :
    (w s : Bytes) → IsWhole w → has_double_slash (w ++ b'/' ∷ s) ≡ has_double_slash (b'/' ∷ s)
unfolding has_double_slash
double_slash-first [] s h = refl
double_slash-first (a ∷ []) s h = rw (head-differs a [] h) refl
double_slash-first (a ∷ b ∷ w) s h =
    rw (head-differs a (b ∷ w) h) (double_slash-first (b ∷ w) s (tail-IsWhole a (b ∷ w) h))

-- A slash before a component makes no pair of slashes.
double_slash-cons :
    (w rest : Bytes)
    → IsComponent w
    → has_double_slash (b'/' ∷ (w ++ rest)) ≡ has_double_slash (w ++ rest)
double_slash-cons w rest a =
    let (c, (s, e)) = named-cons w (IsComponent-named w a) in
    let whole : IsWhole (c ∷ s) = subst IsWhole e a.whole in
    rw e (unfold has_double_slash in rw (head-differs c s whole) refl)

double_slash-components :
    (ws : List Bytes) → All IsComponent ws → has_double_slash (b'/' ∷ join b'/' ws) ≡ false
unfolding join
double_slash-components [] h = unfold has_double_slash in refl
double_slash-components (w ∷ []) (a, h) =
    subst (λ r. has_double_slash (b'/' ∷ r) ≡ has_double_slash r) (append-nil w)
      (double_slash-cons w [] a)
    ∙ double_slash-IsWhole w a.whole
double_slash-components (w ∷ v ∷ ws) (a, h) =
    double_slash-cons w (b'/' ∷ join b'/' (v ∷ ws)) a
    ∙ double_slash-first w (join b'/' (v ∷ ws)) a.whole
    ∙ double_slash-components (v ∷ ws) h

reversed_twice : (ws : List Bytes) → reverse_onto (reverse_onto ws []) [] ≡ ws
reversed_twice ws = reverse_onto-reverse_onto ws [] [] ∙ unfold reverse_onto in append-nil ws

resolve-split :
    (ws : List Bytes)
    → All IsComponent ws
    → resolve (split b'/' (b'/' ∷ join b'/' ws)) [] ≡ some (reverse_onto ws [])
unfolding split join resolve reverse_onto
resolve-split [] h = refl
resolve-split (w ∷ ws) (a, h) = rw (split-join w ws a h) (resolve-components (w ∷ ws) [] (a, h))

normalize_path-components :
    (ws : List Bytes)
    → All IsComponent ws
    → normalize_path (b'/' ∷ join b'/' ws) ≡ some (b'/' ∷ join b'/' ws)
unfolding normalize_path normalized
normalize_path-components ws h =
    rw (double_slash-components ws h, resolve-split ws h, reversed_twice ws) refl

normalize_path-normalized :
    (path out : Bytes)
    → normalize_path path ≡ some out
    → (st : List Bytes) × ((resolve (split b'/' path) [] ≡ some st) × (normalized st ≡ out))
unfolding normalize_path
normalize_path-normalized path out h = elim (Bool-cases (has_double_slash path)) [
  | inl e ↦ absurd (cc (rw e at h))
  | inr e ↦ elim (Option-cases (resolve (split b'/' path) [])) [
    | inl m ↦ absurd (cc (rw (e, m) at h))
    | inr (st, m) ↦ (st, (m, some-injective (rw (e, m) at h)))
  ]
]

-- A path that normalisation returns is a slash with components between slashes, none of them empty,
-- `.` or `..`, so that it names nothing above the root; and normalising it again changes nothing.
pub normalize_path-IsNormal :
    (path out : Bytes)
    → normalize_path path ≡ some out
    → IsNormal out × (normalize_path out ≡ some out)
normalize_path-IsNormal path out h =
    let (st, (r, e)) = normalize_path-normalized path out h in
    let clean : All IsComponent (reverse_onto st []) =
      reverse_onto-All st [] (resolve-IsComponent (split b'/' path) [] st (split-IsWhole path) tt r)
        tt in
    let spelled : out ≡ b'/' ∷ join b'/' (reverse_onto st []) = sym e ∙ unfold normalized in refl in
    (
      record { components = reverse_onto st []; spelled = spelled; clean = clean },
      rw spelled (normalize_path-components (reverse_onto st []) clean),
    )
