-- ===== src/Throttle/Admission.antt =====
-- Which requests are refused, unlimited and admitted.
use thttpd_rs.Base.{
  ℕ, zero, suc, ◌+◌, ◌≡◌, ◌≢◌, ◌⊎◌, Any, All, ||-eq-true, map, ◌++◌, ap, refl, sym, ◌∙◌, inl, inr,
  Bool, true, false, ◌||◌, List, [], ◌∷◌, Bytes, arith, Bool-cases, leb, length, length-append,
  if◌then◌else◌, is_empty,
}
use thttpd_rs.Base.Int.{ℤ, pos, ltb_ℤ, ◌*ℤ◌}
use mathlib.Core.Bool.{false≢true}
use mathlib.Core.List.{append_assoc}
use thttpd_rs.Match.{match_pattern}
use thttpd_rs.Throttle.{
  ThrottleEntry, Table, Matched, Walked, ThrottleDecision, unlimited, reject, allow,
  max_throttle_nums, refuses, bump, matched_with, behind, walk, check_request, no_match,
}

-- An entry with its index.
abbrev pub Numbered : Type 0
Numbered = ℕ × ThrottleEntry

-- The entries that a walk from index `tnum` looks at: the first `room` ones whose pattern matches.
pub matching : Bytes → ℕ → ℕ → Table → List Numbered
matching filename room tnum [] = []
matching filename zero tnum (e ∷ es) = []
matching filename (suc room) tnum (e ∷ es) =
    let taken = (tnum, e) ∷ matching filename room (tnum + 1) es in
    let passed = matching filename (suc room) (tnum + 1) es in
    if match_pattern e.pattern filename then taken else passed

-- The rate is over twice the maximum, where the product of an `i64` wraps, or under the minimum.
abbrev pub IsOver : Numbered → Type 0
IsOver (tnum, e) = (ltb_ℤ (e.max_limit *ℤ pos 2) e.rate ≡ true) ⊎ (ltb_ℤ e.rate e.min_limit ≡ true)

any_refuses : List Numbered → Bool
any_refuses [] = false
any_refuses ((tnum, e) ∷ es) = refuses e || any_refuses es

refuses-IsOver : (n : Numbered) → refuses n.1 ≡ true → IsOver n
unfolding refuses
refuses-IsOver (tnum, e) h = ||-eq-true _ _ h

IsOver-refuses : (n : Numbered) → IsOver n → refuses n.1 ≡ true
unfolding refuses
IsOver-refuses (tnum, e) (inl h) = rw h refl
IsOver-refuses (tnum, e) (inr h) = rw h (ground arith)

Any-IsOver : (found : List Numbered) → any_refuses found ≡ true → Any IsOver found
unfolding any_refuses
Any-IsOver [] h = absurd (cc)
Any-IsOver ((tnum, e) ∷ found) h = elim (||-eq-true (refuses e) (any_refuses found) h) [
  | inl over ↦ inl (refuses-IsOver (tnum, e) over)
  | inr behind ↦ inr (Any-IsOver found behind)
]

All-not-IsOver : (found : List Numbered) → any_refuses found ≡ false → All (λ n. ¬ IsOver n) found
unfolding any_refuses
All-not-IsOver [] h = tt
All-not-IsOver ((tnum, e) ∷ found) h =
    let fine : refuses e ≡ false = ground arith in
    (λ over. cc (IsOver-refuses (tnum, e) over, fine), All-not-IsOver found (ground arith))

behind-refused : (e : ThrottleEntry) (r : Walked) → (behind e r).2 ≡ r.2
unfolding behind
behind-refused e (es, m, refused) = refl

behind-matched : (e : ThrottleEntry) (r : Walked) → (behind e r).1 ≡ r.1
unfolding behind
behind-matched e (es, m, refused) = refl

tnums-matched_with :
    (tnum : ℕ) (e : ThrottleEntry) (m : Matched)
    → (matched_with tnum e m).tnums ≡ m.tnums ++ tnum ∷ []
unfolding matched_with
tnums-matched_with tnum e m = refl

abbrev pub indexes : List Numbered → List ℕ
indexes found = map (λ n. n.0) found

-- A walk that may still take the entries `found`.
record Seen (found : List Numbered) (m : Matched) (r : Walked) : Type 0 where
  refused : r.2 ≡ any_refuses found
  taken : r.2 ≡ false → r.1.tnums ≡ m.tnums ++ indexes found

append_nil : (ts : List ℕ) → ts ++ [] ≡ ts
append_nil [] = refl
append_nil (t ∷ ts) = ap (λ us. t ∷ us) (append_nil ts)

walk-Seen :
    (filename : Bytes) (room tnum : ℕ) (es : Table) (m : Matched)
    → length m.tnums + room ≡ max_throttle_nums
    → Seen (matching filename room tnum es) m (walk filename tnum es m)
unfolding walk matching any_refuses
walk-Seen filename room tnum [] m h = record {
  refused = refl;
  taken = λ _. sym (append_nil m.tnums);
}
walk-Seen filename zero tnum (e ∷ es) m h =
    let full : leb max_throttle_nums (length m.tnums) ≡ true = ground arith in
    rw full (record { refused = refl; taken = λ _. sym (append_nil m.tnums) })
walk-Seen filename (suc room) tnum (e ∷ es) m h =
    let open_ : leb max_throttle_nums (length m.tnums) ≡ false = ground arith in
    elim (Bool-cases (match_pattern e.pattern filename)) [
      | inr other ↦
          let r = walk filename (tnum + 1) es m in
          let seen = walk-Seen filename (suc room) (tnum + 1) es m h in
          rw (open_, other)
            (record {
              refused = behind-refused e r ∙ seen.refused;
              taken = λ q. rw (behind-matched e r) (seen.taken (sym (behind-refused e r) ∙ q));
            })
      | inl fits ↦ elim (Bool-cases (refuses e)) [
        | inl over ↦
            rw (open_, fits, over)
              (record { refused = sym (rw over refl); taken = λ q. absurd (false≢true (sym q)) })
        | inr under ↦
            let m' = matched_with tnum (bump e) m in
            let r = walk filename (tnum + 1) es m' in
            let more = tnums-matched_with tnum (bump e) m in
            let room_left : length m'.tnums + room ≡ max_throttle_nums =
              ap (λ ts. length ts + room) more ∙ omega (arith, length-append m.tnums (tnum ∷ [])) in
            let found = matching filename room (tnum + 1) es in
            let seen = walk-Seen filename room (tnum + 1) es m' room_left in
            rw (open_, fits, under)
              (record {
                refused = behind-refused (bump e) r ∙ seen.refused ∙ sym (rw under refl);
                taken = λ q. rw (behind-matched (bump e) r) (
                    seen.taken (sym (behind-refused (bump e) r) ∙ q)
                    ∙ (ap (λ ts. ts ++ indexes found) more
                        ∙ append_assoc m.tnums (tnum ∷ []) (indexes found)));
              })
      ]
    ]

-- The decision on a request, by the entries that match it.
abbrev pub Decides : List Numbered → ThrottleDecision → Type 0
Decides found reject = Any IsOver found
Decides found unlimited = found ≡ []
Decides found (allow tnums max_limit min_limit) =
    All (λ n. ¬ IsOver n) found × (tnums ≡ indexes found) × (found ≢ [])

decision-Decides :
    (found : List Numbered) (ts : List ℕ) (most least : ℤ)
    → any_refuses found ≡ false
    → ts ≡ indexes found
    → Decides found (if is_empty ts then unlimited else allow ts most least)
decision-Decides [] [] most least a e = refl
decision-Decides (f ∷ found) [] most least a e = absurd (cc)
decision-Decides [] (t ∷ ts) most least a e = absurd (cc)
decision-Decides (f ∷ found) (t ∷ ts) most least a e = (All-not-IsOver (f ∷ found) a, e, λ q. cc)

-- Of a request, the first ten entries whose pattern matches decide: it is refused if the rate of one of
-- them is over twice its maximum or under its minimum, unlimited if there is none, and else admitted,
-- with the indexes of these entries in their order. The product of a maximum wraps as an `i64`.
pub check_request-Decides :
    (filename : Bytes) (es : Table)
    → Decides (matching filename 10 0 es) (check_request filename es).1
unfolding check_request
check_request-Decides filename [] = unfold matching in refl
check_request-Decides filename (e ∷ es) =
    let r = walk filename 0 (e ∷ es) no_match in
    let found = matching filename 10 0 (e ∷ es) in
    let seen = walk-Seen filename 10 0 (e ∷ es) no_match refl in
    elim (Bool-cases r.2) [
      | inl over ↦ rw over (Any-IsOver found (sym seen.refused ∙ over))
      | inr under ↦ rw under (
          decision-Decides found r.1.tnums r.1.max_limit r.1.min_limit (sym seen.refused ∙ under)
            (seen.taken under))
    ]
