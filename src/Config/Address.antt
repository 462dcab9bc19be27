-- ===== src/Config/Address.antt =====
-- The address of a backend that is accepted.
use thttpd_rs.Base.{
  ◌≡◌, ap, ℕ, suc, ◌+◌, true, false, Bool-cases, inl, inr, Option, none, some, [], ◌∷◌, ◌++◌, Bytes,
  codes, arith, if◌then◌else◌, ◌==◌, take, drop, is_empty, contains, find_sub, starts_with,
}
use thttpd_rs.Config

-- The port is a number of some digits.
abbrev pub IsPort : Bytes → Type 0
IsPort port = (is_empty port ≡ false) × (Config.all_digits port ≡ true)

-- The address is a host and a port with a colon between them, and names no path.
pub record IsAuthority (address : Bytes) : Type 0 where
  pub host : Bytes
  pub port : Bytes
  pub parts : address ≡ host ++ (b':' ∷ port)
  pub some_host : is_empty host ≡ false
  pub numeric : IsPort port
  pub no_path : contains b'/' address ≡ false

-- The parts of a text at a colon, if there are any.
Splits : Bytes → Option (Bytes × Bytes) → Type 0
Splits s none = Unit
Splits s (some (before, behind)) = s ≡ before ++ (b':' ∷ behind)

here_or_not : (c : ℕ) (s : Bytes) → Splits (c ∷ s) (if c == b':' then some ([], s) else none)
unfolding Splits
here_or_not c s = elim (Bool-cases (c == b':')) [ inl e ↦ rw e (ground arith) | inr e ↦ rw e tt ]

cons-Splits :
    (c : ℕ) (s : Bytes) (o : Option (Bytes × Bytes))
    → Splits s o
    → Splits (c ∷ s) (elim o [
      | some (before, behind) ↦ some (c ∷ before, behind)
      | none ↦ if c == b':' then some ([], s) else none
    ])
unfolding Splits
cons-Splits c s none h = here_or_not c s
cons-Splits c s (some (before, behind)) h = ap (λ t. c ∷ t) h

last_colon-Splits : (s : Bytes) → Splits s (Config.last_colon s)
unfolding Config.last_colon Splits
last_colon-Splits [] = tt
last_colon-Splits (c ∷ s) = cons-Splits c s (Config.last_colon s) (last_colon-Splits s)

-- The host ends with the bracket.
abbrev Closed : Bytes → Option ℕ → Type 0
Closed s none = Unit
Closed s (some i) = s ≡ take (i + 1) s ++ (b':' ∷ drop (i + 2) s)

later-Closed :
    (c : ℕ) (s : Bytes) (o : Option ℕ)
    → Closed s o
    → Closed (c ∷ s) (elim o [ none ↦ none | some n ↦ some (suc n) ])
later-Closed c s none h = tt
later-Closed c s (some n) h =
    let one : suc n + 1 ≡ suc (n + 1) = omega arith in
    let two : suc n + 2 ≡ suc (n + 2) = omega arith in rw (one, two) (ap (λ t. c ∷ t) h)

at_bracket : (c : ℕ) (s : Bytes) → starts_with (codes "]:") (c ∷ s) ≡ true → Closed (c ∷ s) (some 0)
unfolding starts_with
at_bracket c [] h = absurd (ground arith)
at_bracket c (d ∷ s) h = ground arith

find_sub-Closed : (s : Bytes) → Closed s (find_sub (codes "]:") s)
unfolding find_sub
find_sub-Closed [] = tt
find_sub-Closed (c ∷ s) = elim (Bool-cases (starts_with (codes "]:") (c ∷ s))) [
  | inl e ↦ rw (e, find_sub) (at_bracket c s e)
  | inr e ↦ rw (e, find_sub) (later-Closed c s (find_sub (codes "]:") s) (find_sub-Closed s))
]

Parts : Bytes → Bytes × Option Bytes → Type 0
Parts s (host, none) = Unit
Parts s (host, some port) = s ≡ host ++ (b':' ∷ port)

bracket-Parts :
    (s : Bytes) (o : Option ℕ)
    → Closed s o
    → Parts s (elim o [ some i ↦ (take (i + 1) s, some (drop (i + 2) s)) | none ↦ (s, none) ])
unfolding Parts
bracket-Parts s none h = tt
bracket-Parts s (some i) h = h

colon-Parts :
    (s : Bytes) (o : Option (Bytes × Bytes))
    → Splits s o
    → Parts s (elim o [ some (host, port) ↦ (host, some port) | none ↦ (s, none) ])
unfolding Parts Splits
colon-Parts s none h = tt
colon-Parts s (some (host, port)) h = h

split_host_port-Parts : (s : Bytes) → Parts s (Config.split_host_port s)
unfolding Config.split_host_port
split_host_port-Parts s = elim (Bool-cases (starts_with (codes "[") s)) [
  | inl e ↦
      rw (e, Config.split_host_port) (bracket-Parts s (find_sub (codes "]:") s) (find_sub-Closed s))
  | inr e ↦
      rw (e, Config.split_host_port) (colon-Parts s (Config.last_colon s) (last_colon-Splits s))
]

Parts-IsAuthority :
    (parsers : Config.Parsers) (addr : Bytes) (r : Bytes × Option Bytes)
    → Parts addr r
    → contains b'/' addr ≡ false
    → Config.validate_parts parsers addr r ≡ none
    → IsAuthority addr
unfolding Config.validate_parts Parts
Parts-IsAuthority parsers addr (host, none) p n e = absurd (ground arith)
Parts-IsAuthority parsers addr (host, some port) p n e = record {
  host = host;
  port = port;
  parts = p;
  some_host = ground arith;
  numeric = (ground arith, ground arith);
  no_path = n;
}

pub address-IsAuthority :
    (parsers : Config.Parsers) (addr : Bytes)
    → Config.validate_backend_address parsers addr ≡ none
    → IsAuthority addr
unfolding Config.validate_backend_address
address-IsAuthority parsers addr e =
    Parts-IsAuthority parsers addr (Config.split_host_port addr) (split_host_port-Parts addr)
      (ground arith) (ground arith)
