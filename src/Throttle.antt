-- ===== src/Throttle.antt =====
-- rust/crates/thttpd-core/src/throttle.rs: the table of bandwidth limits. `i64` is an integer with
-- wrap-around. The lines of the throttle file are in `Throttle.Parse`.
pub mod Parse
pub mod Walk
pub mod Admission
pub mod Share
use thttpd_rs.Base.{
  ℕ, zero, suc, ◌+◌, Bool, true, false, ◌&&◌, ◌||◌, Option, none, some, List, [], ◌∷◌, ◌++◌, Bytes,
  ltb, leb, if◌then◌else◌, is_empty, length, get_elem?, modify, map,
}
use thttpd_rs.Base.Int.{ℤ, pos, negsuc, ◌+ℤ◌, ◌-ℤ◌, ◌*ℤ◌, quot, ltb_ℤ, eqb_ℤ, min_ℤ, max_ℤ}
use thttpd_rs.Match.{match_pattern}

abbrev pub throttle_time : ℤ
throttle_time = pos 2

abbrev pub max_throttle_nums : ℕ
max_throttle_nums = 10

abbrev pub no_limit : ℤ
no_limit = negsuc 0

pub record ThrottleEntry : Type 0 where
  pub pattern : Bytes
  pub max_limit : ℤ
  pub min_limit : ℤ
  pub rate : ℤ
  pub bytes_since_avg : ℤ
  pub num_sending : ℤ

unfoldable pub new_entry : Bytes → ℤ → ℤ → ThrottleEntry
new_entry pattern max_limit min_limit = record {
  pattern = pattern;
  max_limit = max_limit;
  min_limit = min_limit;
  rate = pos 0;
  bytes_since_avg = pos 0;
  num_sending = pos 0;
}

abbrev pub Table : Type 0
Table = List ThrottleEntry

pub data ThrottleDecision : Type 0 where
  unlimited reject : ThrottleDecision
  allow : List ℕ → ℤ → ℤ → ThrottleDecision

-- The local variables of `check_request`.
pub record Matched : Type 0 where
  pub tnums : List ℕ
  pub max_limit : ℤ
  pub min_limit : ℤ

abbrev pub no_match : Matched
no_match = record { tnums = []; max_limit = no_limit; min_limit = no_limit }

-- Way over the limit, or below the minimum.
unfoldable pub refuses : ThrottleEntry → Bool
refuses e = ltb_ℤ (e.max_limit *ℤ pos 2) e.rate || ltb_ℤ e.rate e.min_limit

-- One more sender; a negative count is first set to zero.
unfoldable pub bump : ThrottleEntry → ThrottleEntry
bump e =
    let n = if ltb_ℤ e.num_sending (pos 0) then pos 0 else e.num_sending in
    record e { num_sending = n +ℤ pos 1 }

-- A limit that is folded in, where the sentinel stands for none so far.
unfoldable pub fold_max : ℤ → ℤ → ℤ
fold_max acc l = if eqb_ℤ acc no_limit then l else min_ℤ acc l

fold_min : ℤ → ℤ → ℤ
fold_min acc l = if eqb_ℤ acc no_limit then l else max_ℤ acc l

-- What an admitted entry, already bumped, adds to the variables.
unfoldable pub matched_with : ℕ → ThrottleEntry → Matched → Matched
unfolding fold_max fold_min
matched_with tnum e m = record {
  tnums = m.tnums ++ tnum ∷ [];
  max_limit = fold_max m.max_limit (quot e.max_limit e.num_sending);
  min_limit = fold_min m.min_limit e.min_limit;
}

abbrev pub Walked : Type 0
Walked = Table × Matched × Bool

behind : ThrottleEntry → Walked → Walked
behind e (es, m, refused) = (e ∷ es, m, refused)

-- The loop from entry `tnum` on: the entries after it, the variables, and whether an entry refused.
unfoldable pub walk : Bytes → ℕ → Table → Matched → Walked
unfolding behind refuses bump matched_with
walk filename tnum [] m = ([], m, false)
walk filename tnum (e ∷ es) m =
    let admitted = behind (bump e) (walk filename (tnum + 1) es (matched_with tnum (bump e) m)) in
    let skipped = behind e (walk filename (tnum + 1) es m) in
    if leb max_throttle_nums (length m.tnums)
    then (e ∷ es, m, false)
    else if match_pattern e.pattern filename
    then if refuses e then (e ∷ es, m, true) else admitted
    else skipped

-- One sender less, with no clamp.
unfoldable pub drop_sender : ThrottleEntry → ThrottleEntry
drop_sender e = record e { num_sending = e.num_sending -ℤ pos 1 }

-- `for &t in tnums { … num_sending -= 1 }`; an index out of range is passed over.
unfoldable pub clear : List ℕ → Table → Table
unfolding drop_sender
clear [] es = es
clear (t ∷ ts) es = clear ts (modify drop_sender es t)

decision : Matched → ThrottleDecision
decision m = if is_empty m.tnums then unlimited else allow m.tnums m.max_limit m.min_limit

-- The rollback of a refused request is the loop of `clear`: its indexes are in range.
unfoldable pub check_request : Bytes → Table → Table × ThrottleDecision
unfolding walk clear decision
check_request filename es =
    let (es', m, refused) = walk filename 0 es no_match in
    if is_empty es
    then (es, unlimited)
    else if refused
    then (clear m.tnums es', reject)
    else (es', decision m)

unfoldable pub add_bytes : List ℕ → ℤ → Table → Table
add_bytes [] n es = es
add_bytes (t ∷ ts) n es =
    add_bytes ts n (modify (λ e. record e { bytes_since_avg = e.bytes_since_avg +ℤ n }) es t)

unfoldable pub share_step : Table → ℤ → ℕ → ℤ
unfolding fold_max
share_step es acc t = elim (get_elem? es t) [
  | none ↦ acc
  | some e ↦ fold_max acc (quot e.max_limit (max_ℤ e.num_sending (pos 1)))
]

unfoldable pub share_from : Table → List ℕ → ℤ → ℤ
unfolding share_step
share_from es [] acc = acc
share_from es (t ∷ ts) acc = share_from es ts (share_step es acc t)

unfoldable pub fair_share_for : Table → List ℕ → ℤ
unfolding share_from
fair_share_for es tnums = share_from es tnums no_limit

unfoldable pub update_rate : ThrottleEntry → ThrottleEntry
update_rate e = record e {
  rate = quot (pos 2 *ℤ e.rate +ℤ quot e.bytes_since_avg throttle_time) (pos 3);
  bytes_since_avg = pos 0;
}

unfoldable pub update_averages : Table → Table
unfolding update_rate
update_averages es = map update_rate es

unfoldable pub fair_share : ℤ → ℤ → ℤ
fair_share max_limit num_sending =
    if ltb_ℤ (pos 0) num_sending then quot max_limit num_sending else max_limit

unfoldable pub check_throttles : Bytes → Table → ℤ × ℤ
check_throttles filename [] = (no_limit, no_limit)
check_throttles filename (e ∷ es) =
    if match_pattern e.pattern filename
    then (e.max_limit, e.min_limit)
    else check_throttles filename es
