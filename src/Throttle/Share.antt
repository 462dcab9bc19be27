-- ===== src/Throttle/Share.antt =====
-- Fair shares and rolling rates.
use thttpd_rs.Base.{
  ℕ, ◌+◌, ◌*◌, ◌/◌, ◌^◌, ◌≡◌, ◌≤◌, ◌<◌, max, min, refl, ap, ◌∙◌, List, [], ◌∷◌, arith, get_elem?,
  some,
}
use thttpd_rs.Base.Int.{ℤ, pos, quot, ◌+ℤ◌, ◌*ℤ◌, +ℤ-pos, *ℤ-pos, max_ℤ-pos}
use thttpd_rs.Throttle.{
  ThrottleEntry, Table, no_limit, fold_max, share_step, share_from, fair_share_for, update_rate,
  throttle_time,
}

-- A new rate is the old one and the throughput of the last period, two to one, rounded down: it lies
-- between the two, and a rate that equals the throughput stays. The byte count starts again at zero.
pub update_rate_lem :
    (e : ThrottleEntry) (r b : ℕ)
    → e.rate ≡ pos r
    → e.bytes_since_avg ≡ pos b
    → 2 * r + b / 2 < 2 ^ 63
    → (n : ℕ) × ((update_rate e).rate ≡ pos n)
      × (3 * n ≤ 2 * r + b / 2)
      × (2 * r + b / 2 < 3 * n + 3)
      × (n ≤ max r (b / 2))
      × (b / 2 ≡ r → n ≡ r)
      × ((update_rate e).bytes_since_avg ≡ pos 0)
unfolding update_rate
update_rate_lem e r b hr hb fits =
    ((2 * r + b / 2) / 3, new_rate, omega arith, omega arith, omega arith, (λ h. omega arith), refl)
  where
    -- The rate as the code computes it.
    new_rate :
        quot (pos 2 *ℤ e.rate +ℤ quot e.bytes_since_avg throttle_time) (pos 3)
        ≡ pos ((2 * r + b / 2) / 3)
    new_rate =
        rw (hr, hb, *ℤ-pos 2 r (omega arith)) (unfold quot in rw (+ℤ-pos (2 * r) (b / 2) fits) refl)

-- Entry `t` has a limit and a count of senders that are no negative numbers, and the share is `n`;
-- a count of zero shares among one.
pub record HasShare (es : Table) (t n : ℕ) : Type 0 where
  pub entry : ThrottleEntry
  pub limit : ℕ
  pub senders : ℕ
  pub at : get_elem? es t ≡ some entry
  pub limited : entry.max_limit ≡ pos limit
  pub sending : entry.num_sending ≡ pos senders
  pub share : limit / max senders 1 ≡ n

share_step-share :
    (es : Table) (acc : ℤ) (t n : ℕ) → HasShare es t n → share_step es acc t ≡ fold_max acc (pos n)
unfolding share_step quot
share_step-share es acc t n h =
    rw (h.at, share_step, h.limited, h.sending, max_ℤ-pos h.senders 1)
      (ap (λ k. fold_max acc (pos k)) h.share)

abbrev pub Shares : Table → List ℕ → List ℕ → Type 0
Shares es [] [] = Unit
Shares es (t ∷ ts) (n ∷ ns) = HasShare es t n × Shares es ts ns
Shares es _ _ = ⊥

-- The least of some numbers; the sentinel if there is none.
least_from : ℕ → List ℕ → ℕ
least_from a [] = a
least_from a (n ∷ ns) = least_from (min a n) ns

pub least : List ℕ → ℤ
unfolding least_from
least [] = no_limit
least (n ∷ ns) = pos (least_from n ns)

fold_max-pos : (a n : ℕ) → fold_max (pos a) (pos n) ≡ pos (min a n)
unfolding fold_max
fold_max-pos a n = ground arith

share_from-least :
    (es : Table) (ts ns : List ℕ) (a : ℕ)
    → Shares es ts ns
    → share_from es ts (pos a) ≡ pos (least_from a ns)
unfolding share_from least_from
share_from-least es [] [] a h = refl
share_from-least es [] (n ∷ ns) a h = absurd h
share_from-least es (t ∷ ts) [] a h = absurd h
share_from-least es (t ∷ ts) (n ∷ ns) a (h, hs) =
    ap (share_from es ts) (share_step-share es (pos a) t n h ∙ fold_max-pos a n)
    ∙ share_from-least es ts ns (min a n) hs

-- A connection's share is the least of the shares that its entries have: each limit divided by the
-- number of senders, rounded down. With no entry it is the sentinel.
pub fair_share_for-least :
    (es : Table) (ts ns : List ℕ) → Shares es ts ns → fair_share_for es ts ≡ least ns
unfolding fair_share_for least
fair_share_for-least es [] [] h = refl
fair_share_for-least es [] (n ∷ ns) h = absurd h
fair_share_for-least es (t ∷ ts) [] h = absurd h
fair_share_for-least es (t ∷ ts) (n ∷ ns) (h, hs) =
    ap (share_from es ts) (share_step-share es no_limit t n h ∙ fold_max-no_limit n)
    ∙ share_from-least es ts ns n hs
  where
    fold_max-no_limit : (k : ℕ) → fold_max no_limit (pos k) ≡ pos k
    fold_max-no_limit k = unfold fold_max in refl
