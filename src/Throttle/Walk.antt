-- ===== src/Throttle/Walk.antt =====
-- What an admission adds to the table, a clearing takes away.
use thttpd_rs.Base.{
  ℕ, suc, ◌+◌, ◌^◌, ◌≡◌, ◌<◌, refl, sym, ap, ap₂, ◌∙◌, inl, inr, Bool, true, false, List, [], ◌∷◌,
  ◌++◌, Bytes, All, arith, Bool-cases, leb, length, map, if◌then◌else◌, modify, is_empty,
}
use mathlib.Core.List.{append-nil, append_assoc}
use thttpd_rs.Base.Int.{ℤ, pos, +ℤ-one, -ℤ-one, ◌+ℤ◌, ◌-ℤ◌, ltb_ℤ}
use thttpd_rs.Match.{match_pattern}
use thttpd_rs.Throttle.{
  ThrottleEntry, Table, Matched, Walked, ThrottleDecision, unlimited, reject, allow,
  max_throttle_nums, refuses, bump, matched_with, behind, walk, drop_sender, clear, check_request,
  no_match, decision,
}

-- A count of senders that is no negative number and can go up by one.
pub record Countable (e : ThrottleEntry) : Type 0 where
  pub senders : ℕ
  pub counted : e.num_sending ≡ pos senders
  pub room : senders + 1 < 2 ^ 63

drop_sender-bump : (e : ThrottleEntry) → Countable e → drop_sender (bump e) ≡ e
unfolding drop_sender bump
drop_sender-bump e c =
    let n = c.senders in
    let up : (if ltb_ℤ e.num_sending (pos 0) then pos 0 else e.num_sending) ≡ pos n =
      rw c.counted (ground arith) in
    let e' : e.num_sending ≡ pos n +ℤ pos 1 -ℤ pos 1 =
      c.counted ∙ sym (rw (+ℤ-one n c.room) (-ℤ-one n c.room)) in
    λ i. record e { num_sending = (ap (λ z. z +ℤ pos 1 -ℤ pos 1) up ∙ sym e') i }

clear-map-suc :
    (ks : List ℕ) (e : ThrottleEntry) (es : Table) → clear (map suc ks) (e ∷ es) ≡ e ∷ clear ks es
unfolding clear
clear-map-suc [] e es = refl
clear-map-suc (k ∷ ks) e es = clear-map-suc ks e (modify drop_sender es k)

shift_suc : (n : ℕ) (ks : List ℕ) → map (λ k. n + 1 + k) ks ≡ map (λ k. n + k) (map suc ks)
shift_suc n [] = refl
shift_suc n (k ∷ ks) = ap₂ (λ (x : ℕ) (xs : List ℕ). x ∷ xs) (omega arith) (shift_suc n ks)

-- The walk over `es` from the index `tnum` bumped the entries `ks` of `es`.
record Undone (tnum : ℕ) (es : Table) (m : Matched) (r : Walked) : Type 0 where
  bumped : List ℕ
  tnums : r.1.tnums ≡ m.tnums ++ map (λ k. tnum + k) bumped
  undone : clear bumped r.0 ≡ es

Undone-none :
    (tnum : ℕ) (es : Table) (m : Matched) (refused : Bool) → Undone tnum es m (es, m, refused)
unfolding clear
Undone-none tnum es m refused = record {
  bumped = [];
  tnums = sym (append-nil m.tnums);
  undone = refl;
}

Undone-skip :
    (tnum : ℕ) (e : ThrottleEntry) (es : Table) (m : Matched) (r : Walked)
    → Undone (tnum + 1) es m r
    → Undone tnum (e ∷ es) m (behind e r)
unfolding behind
Undone-skip tnum e es m (es', m', refused) u = record {
  bumped = map suc u.bumped;
  tnums = u.tnums ∙ ap (λ ks. m.tnums ++ ks) (shift_suc tnum u.bumped);
  undone = clear-map-suc u.bumped e es' ∙ ap (λ (t : Table). e ∷ t) u.undone;
}

Undone-admit :
    (tnum : ℕ) (e : ThrottleEntry) (es : Table) (m : Matched) (r : Walked)
    → Countable e
    → Undone (tnum + 1) es (matched_with tnum (bump e) m) r
    → Undone tnum (e ∷ es) m (behind (bump e) r)
unfolding behind matched_with clear
Undone-admit tnum e es m (es', m', refused) c u = record {
  bumped = 0 ∷ map suc u.bumped;
  tnums =
      u.tnums
      ∙ append_assoc m.tnums (tnum ∷ []) (map (λ k. tnum + 1 + k) u.bumped)
      ∙ ap (λ ks. m.tnums ++ ks)
          (ap₂ (λ (x : ℕ) (xs : List ℕ). x ∷ xs) (omega arith) (shift_suc tnum u.bumped));
  undone =
      clear-map-suc u.bumped (drop_sender (bump e)) es'
      ∙ ap₂ (λ (x : ThrottleEntry) (t : Table). x ∷ t) (drop_sender-bump e c) u.undone;
}

walk-Undone :
    (filename : Bytes) (tnum : ℕ) (es : Table) (m : Matched)
    → All Countable es
    → Undone tnum es m (walk filename tnum es m)
unfolding walk
walk-Undone filename tnum [] m h = Undone-none tnum [] m false
walk-Undone filename tnum (e ∷ es) m (c, h) =
    elim (Bool-cases (leb max_throttle_nums (length m.tnums))) [
      | inl full ↦ rw full (Undone-none tnum (e ∷ es) m false)
      | inr room ↦ elim (Bool-cases (match_pattern e.pattern filename)) [
        | inr other ↦
            rw (room, other)
              (Undone-skip tnum e es m (walk filename (tnum + 1) es m)
                (walk-Undone filename (tnum + 1) es m h))
        | inl fits ↦ elim (Bool-cases (refuses e)) [
          | inl over ↦ rw (room, fits, over) (Undone-none tnum (e ∷ es) m true)
          | inr under ↦
              rw (room, fits, under)
                (Undone-admit tnum e es m
                  (walk filename (tnum + 1) es (matched_with tnum (bump e) m)) c
                  (walk-Undone filename (tnum + 1) es (matched_with tnum (bump e) m) h))
        ]
      ]
    ]

map-zero-add : (ks : List ℕ) → map (λ k. 0 + k) ks ≡ ks
map-zero-add [] = refl
map-zero-add (k ∷ ks) = ap₂ (λ (x : ℕ) (xs : List ℕ). x ∷ xs) (omega arith) (map-zero-add ks)

-- Clearing the indexes that a walk from the first entry collected restores the table.
walk-clear :
    (filename : Bytes) (es : Table)
    → All Countable es
    → clear (walk filename 0 es no_match).1.tnums (walk filename 0 es no_match).0 ≡ es
walk-clear filename es h =
    let u = walk-Undone filename 0 es no_match h in
    ap (λ ks. clear ks (walk filename 0 es no_match).0) (u.tnums ∙ map-zero-add u.bumped) ∙ u.undone

-- What a decision leaves behind: a refused or unlimited request the table as it was, an admitted one
-- a table that `clear` on its indexes makes the old one again.
abbrev pub Balanced : Table → Table × ThrottleDecision → Type 0
Balanced es (after, unlimited) = after ≡ es
Balanced es (after, reject) = after ≡ es
Balanced es (after, allow tnums max_limit min_limit) = clear tnums after ≡ es

decided-Balanced :
    (es after : Table) (ts : List ℕ) (most least : ℤ)
    → clear ts after ≡ es
    → Balanced es (after, if is_empty ts then unlimited else allow ts most least)
unfolding clear
decided-Balanced es after [] most least e = e
decided-Balanced es after (t ∷ ts) most least e = e

decision-Balanced :
    (es after : Table) (m : Matched) → clear m.tnums after ≡ es → Balanced es (after, decision m)
unfolding decision
decision-Balanced es after m e = decided-Balanced es after m.tnums m.max_limit m.min_limit e

-- In a table whose counts of senders are no negative numbers and can go up by one, a request that is
-- refused, or matches nothing, leaves the table as it was, and closing an admitted connection gives the
-- table before its request.
pub check_request-Balanced :
    (filename : Bytes) (es : Table) → All Countable es → Balanced es (check_request filename es)
unfolding check_request
check_request-Balanced filename [] h = refl
check_request-Balanced filename (e ∷ es) h =
    let r = walk filename 0 (e ∷ es) no_match in
    elim (Bool-cases r.2) [
      | inl refused ↦ rw refused (walk-clear filename (e ∷ es) h)
      | inr through ↦
          rw through (decision-Balanced (e ∷ es) r.0 r.1 (walk-clear filename (e ∷ es) h))
    ]
