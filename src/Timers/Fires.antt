-- ===== src/Timers/Fires.antt =====
-- What a run of the wheel fires, and that it ends.
use thttpd_rs.Base.{
  ℕ, zero, suc, ◌+◌, ◌≡◌, ◌≤◌, ◌<◌, refl, subst, false, List, [], ◌∷◌, Option, none, some, leb, All,
  inl, inr, arith, Bool-cases, Option-cases, length,
}
use thttpd_rs.Timers.{
  TimerEntry, TimerWheel, push, member, remove, is_cancelled, dropped, rescheduled, fire_due,
  clean_top, run,
}
use thttpd_rs.Timers.Order.{Sorted, push-Sorted, push-All}
use thttpd_rs.Timers.Run.{
  Distinct, Ticks, due, pending, count, count-remove, count-push, count-length, due-remove,
  due-push, due-later, push-Distinct, later_trans,
}

-- The heap of a wheel: in order, with one entry for an id and no period of zero.
pub record IsHeap (es : List TimerEntry) : Type 0 where
  pub sorted : Sorted es
  pub distinct : Distinct es
  pub ticks : All Ticks es

-- The loop ends with these callbacks, and behind it nothing is due.
abbrev pub Fires : ℕ → List ℕ → Option (TimerWheel × List ℕ) → Type 0
Fires now fired r = (w : TimerWheel) × ((r ≡ some (w, fired)) × All (λ e. now < e.deadline) w.heap)

rescheduled-push :
    (t p : ℕ) (e : TimerEntry) (w : TimerWheel)
    → e.period ≡ some p
    → is_cancelled e.id w ≡ false
    → rescheduled t e w ≡ record w { heap = push (record e { deadline = t + p }) w.heap }
unfolding rescheduled
rescheduled-push t p e w again live = rw (again, live) refl

module _ (now : ℕ) (clock : ℕ → ℕ) (forward : (k : ℕ) → now ≤ clock k) where
  abbrev Enough : ℕ → Type 0
  Enough fuel =
      (k n : ℕ) (es : List TimerEntry) (c : List ℕ)
      → IsHeap es
      → count now c es < fuel
      → Fires now (due now c es)
          (fire_due fuel now clock k (record { heap = es; next_id = n; cancelled = c }))

  -- A timer that is due fires first, and the others as the rest of the loop says.
  Fires-cons :
      (callback : ℕ) (fired : List ℕ) (r : Option (TimerWheel × List ℕ))
      → Fires now fired r
      → Fires now
          (callback ∷ fired)
          (elim r [ none ↦ none | some (w', rest) ↦ some (w', callback ∷ rest) ])
  Fires-cons callback fired r (w, (e, l)) = (w, (rw e refl, l))

  fire_due-Enough : (fuel : ℕ) → Enough fuel
  unfolding fire_due is_cancelled dropped rescheduled due count pending
  fire_due-Enough zero k n es c h few = absurd (omega arith)
  fire_due-Enough (suc fuel) k n [] c h few = (_, (refl, tt))
  fire_due-Enough (suc fuel) k n (e ∷ es) c h few =
      let rest : IsHeap es = record {
        sorted = h.sorted.1;
        distinct = h.distinct.1;
        ticks = h.ticks.1;
      } in
      elim (Bool-cases (member e.id c)) [
        | inl m ↦
            let left : count now (remove e.id c) es < fuel =
              rw (count-remove now e.id c es h.distinct.0) (omega (arith, rw m at few)) in
            rw (m, fire_due)
              (subst
                (λ fired. Fires now fired (
                  fire_due fuel now clock k
                    (record { heap = es; next_id = n; cancelled = remove e.id c })))
                (due-remove now e.id c es h.distinct.0)
                (fire_due-Enough fuel k n es (remove e.id c) rest left))
        | inr m ↦ elim (Bool-cases (leb e.deadline now)) [
          | inl d ↦ elim (Option-cases e.period) [
            | inl once ↦
                rw (m, d, m, once, fire_due)
                  (Fires-cons e.callback (due now c es) _
                    (fire_due-Enough fuel (k + 1) n es c rest (omega (arith, rw (m, d) at few))))
            | inr (p, again) ↦
                let next : TimerEntry = record e { deadline = clock k + p } in
                let hence : now < next.deadline = omega (arith, forward k, h.ticks.0 p again) in
                let heap : IsHeap (push next es) = record {
                  sorted = push-Sorted next es h.sorted.1;
                  distinct = push-Distinct next es h.distinct.0 h.distinct.1;
                  ticks = push-All Ticks next es h.ticks.0 h.ticks.1;
                } in
                let left : count now c (push next es) < fuel =
                  rw (count-push now c next es hence m) (omega (arith, rw (m, d) at few)) in
                rw
                  (
                    m,
                    d,
                    fire_due,
                    m,
                    rescheduled-push (clock k) p e
                        (record { heap = es; next_id = n; cancelled = c }) again m,
                  )
                  (Fires-cons e.callback (due now c es) _ (
                    subst
                      (λ fired. Fires now fired (
                        fire_due fuel now clock (k + 1)
                          (record { heap = push next es; next_id = n; cancelled = c })))
                      (due-push now c next es hence)
                      (fire_due-Enough fuel (k + 1) n (push next es) c heap left)))
          ]
          | inr d ↦
              let hence : now < e.deadline = ground arith in
              let none_due = later_trans now e.deadline es hence h.sorted.0 in
              (
                record { heap = e ∷ es; next_id = n; cancelled = c },
                (rw (m, d, fire_due, due-later now c es none_due) refl, (hence, none_due)),
              )
        ]
      ]

clean_top-All :
    (P : TimerEntry → Type 0) (es : List TimerEntry) (c : List ℕ)
    → All P es
    → All P (clean_top es c).0
unfolding clean_top
clean_top-All P [] c h = tt
clean_top-All P (e ∷ es) c (a, h) = elim (Bool-cases (member e.id c)) [
  | inl m ↦ rw m (clean_top-All P es (remove e.id c) h)
  | inr m ↦ rw m (a, h)
]

run-Fires_from :
    (fuel now : ℕ) (clock : ℕ → ℕ) (w : TimerWheel) (fired : List ℕ)
    → Fires now fired (fire_due fuel now clock 0 w)
    → Fires now fired (run fuel now clock w)
unfolding run
run-Fires_from fuel now clock w fired (w', (e, l)) = (
  record w' {
    heap = (clean_top w'.heap w'.cancelled).0;
    cancelled = (clean_top w'.heap w'.cancelled).1;
  },
  (rw (e, run) refl, clean_top-All (λ x. now < x.deadline) w'.heap w'.cancelled l),
)

-- On a heap in order, with one entry for an id and no period of zero, and a clock that does not go
-- back, a run ends within one round more than there are entries. It has called the callbacks of the
-- timers that were due and not cancelled, each once and in the order of the heap, and no entry that is
-- left is due.
pub run-Fires :
    (fuel now : ℕ) (clock : ℕ → ℕ) (w : TimerWheel)
    → ((k : ℕ) → now ≤ clock k)
    → IsHeap w.heap
    → length w.heap < fuel
    → Fires now (due now w.cancelled w.heap) (run fuel now clock w)
run-Fires fuel now clock w forward h few =
    run-Fires_from fuel now clock w (due now w.cancelled w.heap) (
      fire_due-Enough now clock forward fuel 0 w.next_id w.heap w.cancelled h
        (omega (arith, count-length now w.cancelled w.heap)))
