-- ===== src/Timers.antt =====
-- rust/crates/thttpd-timers/src/lib.rs: the timer wheel. The binary heap of reversed entries is the
-- list of its entries in the order in which it pops them, by deadline and then id; a callback is a
-- number, and times and periods are in nanoseconds. The clock is a parameter of each operation.
pub mod Order
pub mod Run
pub mod Fires
use thttpd_rs.Base.{
  ℕ, zero, suc, ◌+◌, ◌-◌, ◌≡◌, Bool, true, false, not, ◌&&◌, ◌||◌, List, [], ◌∷◌, Option, none,
  some, ◌==◌, ltb, leb, if◌then◌else◌,
}

pub record TimerEntry : Type 0 where
  pub id : ℕ
  pub deadline : ℕ
  pub period : Option ℕ
  pub callback : ℕ

pub record TimerWheel : Type 0 where
  pub heap : List TimerEntry
  pub next_id : ℕ
  pub cancelled : List ℕ

unfoldable pub new : TimerWheel
new = record { heap = []; next_id = 0; cancelled = [] }

-- `cmp`, as the test `a < b`.
unfoldable pub before : TimerEntry → TimerEntry → Bool
before a b = ltb a.deadline b.deadline || (a.deadline == b.deadline && ltb a.id b.id)

-- `heap.push`
unfoldable pub push : TimerEntry → List TimerEntry → List TimerEntry
unfolding before
push e [] = e ∷ []
push e (x ∷ xs) = if before e x then e ∷ x ∷ xs else x ∷ push e xs

unfoldable pub create : ℕ → ℕ → ℕ → TimerWheel → TimerWheel × ℕ
unfolding push
create now delay callback w = (
  record {
    heap =
        push (record { id = w.next_id; deadline = now + delay; period = none; callback = callback })
          w.heap;
    next_id = w.next_id + 1;
    cancelled = w.cancelled;
  },
  w.next_id,
)

unfoldable pub create_periodic : ℕ → ℕ → ℕ → TimerWheel → TimerWheel × ℕ
unfolding push
create_periodic now period callback w = (
  record {
    heap =
        push
          (record {
            id = w.next_id;
            deadline = now + period;
            period = some period;
            callback = callback;
          })
          w.heap;
    next_id = w.next_id + 1;
    cancelled = w.cancelled;
  },
  w.next_id,
)

-- The hash set of ids: a list where membership alone counts.
unfoldable pub member : ℕ → List ℕ → Bool
member id [] = false
member id (x ∷ xs) = x == id || member id xs

unfoldable pub remove : ℕ → List ℕ → List ℕ
remove id [] = []
remove id (x ∷ xs) = let rest = remove id xs in if x == id then rest else x ∷ rest

unfoldable pub cancel : ℕ → TimerWheel → TimerWheel
cancel id w = record w { cancelled = id ∷ w.cancelled }

unfoldable pub is_cancelled : ℕ → TimerWheel → Bool
unfolding member
is_cancelled id w = member id w.cancelled

-- The entry with an id, plucked out of the heap, and the others.
unfoldable pub pluck : ℕ → List TimerEntry → Option (TimerEntry × List TimerEntry)
pluck id [] = none
pluck id (x ∷ xs) =
    let rest = pluck id xs in
    if x.id == id
    then some (x, xs)
    else elim rest [ none ↦ none | some (e, others) ↦ some (e, x ∷ others) ]

unfoldable pub reset : ℕ → ℕ → ℕ → TimerWheel → TimerWheel × Option ℕ
unfolding push pluck remove
reset now id delay w = elim (pluck id w.heap) [
  | none ↦ (w, none)
  | some (old, others) ↦ (
    record {
      heap =
          push
            (record {
              id = w.next_id;
              deadline = now + delay;
              period = old.period;
              callback = old.callback;
            })
            others;
      next_id = w.next_id + 1;
      cancelled = remove id w.cancelled;
    },
    some w.next_id,
  )
]

-- The rescheduling of a timer that has fired, at a later reading of the clock.
unfoldable pub rescheduled : ℕ → TimerEntry → TimerWheel → TimerWheel
unfolding push is_cancelled
rescheduled reading entry w = elim entry.period [
  | none ↦ w
  | some period ↦
      if is_cancelled entry.id w
      then w
      else record w { heap = push (record entry { deadline = reading + period }) w.heap }
]

-- The wheel without its first entry, and without the cancellation of that.
unfoldable pub dropped : ℕ → List TimerEntry → TimerWheel → TimerWheel
unfolding remove
dropped id rest w = record w { heap = rest; cancelled = remove id w.cancelled }

-- The first loop of `run`: the callbacks that it calls, in order. `clock k` is the reading after the
-- `k`th call; `none` is a loop that has not ended on its fuel.
unfoldable pub fire_due : ℕ → ℕ → (ℕ → ℕ) → ℕ → TimerWheel → Option (TimerWheel × List ℕ)
unfolding is_cancelled dropped rescheduled
fire_due zero now clock k w = none
fire_due (suc fuel) now clock k w = elim w.heap [
  | [] ↦ some (w, [])
  | e ∷ rest ↦ elim (is_cancelled e.id w) [
    | true ↦ fire_due fuel now clock k (dropped e.id rest w)
    | false ↦ elim (leb e.deadline now) [
      | true ↦ elim (is_cancelled e.id (record w { heap = rest })) [
        | true ↦ fire_due fuel now clock k (dropped e.id rest w)
        | false ↦
            elim (fire_due fuel now clock (k + 1)
              (rescheduled (clock k) e (record w { heap = rest }))) [
                | none ↦ none
                | some (w', fired) ↦ some (w', e.callback ∷ fired)
              ]
      ]
      | false ↦ some (w, [])
    ]
  ]
]

-- The second loop of `run`.
unfoldable pub clean_top : List TimerEntry → List ℕ → List TimerEntry × List ℕ
unfolding member remove
clean_top [] cancelled = ([], cancelled)
clean_top (e ∷ rest) cancelled =
    if member e.id cancelled then clean_top rest (remove e.id cancelled) else (e ∷ rest, cancelled)

unfoldable pub run : ℕ → ℕ → (ℕ → ℕ) → TimerWheel → Option (TimerWheel × List ℕ)
unfolding fire_due clean_top
run fuel now clock w = elim (fire_due fuel now clock 0 w) [
  | none ↦ none
  | some (w', fired) ↦
      let (heap, cancelled) = clean_top w'.heap w'.cancelled in
      some (record w' { heap = heap; cancelled = cancelled }, fired)
]

-- The least deadline of an entry that is not cancelled; the heap is walked in any order.
unfoldable pub earliest : TimerWheel → List TimerEntry → Option ℕ → Option ℕ
unfolding is_cancelled
earliest w [] acc = acc
earliest w (e ∷ rest) acc = if is_cancelled e.id w then earliest w rest acc else elim acc [
  | none ↦ earliest w rest (some e.deadline)
  | some d ↦ earliest w rest (if ltb e.deadline d then some e.deadline else some d)
]

unfoldable pub next_deadline : ℕ → TimerWheel → Option ℕ
unfolding earliest
next_deadline now w = elim (earliest w w.heap none) [ none ↦ none | some d ↦ some (d - now) ]
