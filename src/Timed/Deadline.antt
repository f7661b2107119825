-- ===== src/Timed/Deadline.antt =====
-- When a deadline fires, and what an operation then reports.
use stream_client.Common.{
  suc, ◌-◌, ◌<◌, ◌≡◌, refl, inl, inr, true, false, Option, none, some, List, [], ◌∷◌, arith,
  if◌then◌else◌, tests, Bool-cases, ℤ, ◌<ℤ◌, leb_ℤ,
}
use stream_client.Clock.{IsNow, k_infinite_duration}
use stream_client.Timed.Defs.{Timed, check_deadline, NeverDue, IsDisarmed}
use stream_client.Timed.Operation.{timer, Running, run_one}

-- The first of some readings of the clock that has reached the expiry.
abbrev pub first_due : ℤ → List ℤ → Option ℤ
first_due expiry [] = none
first_due expiry (t ∷ ts) = if leb_ℤ expiry t then some t else first_due expiry ts

abbrev pub AllNow : List ℤ → Type 0
AllNow [] = Unit
AllNow (t ∷ ts) = IsNow t × AllNow ts

abbrev pub IsNow? : Option ℤ → Type 0
IsNow? none = Unit
IsNow? (some t) = IsNow t

pub first_due-IsNow : (expiry : ℤ) (ts : List ℤ) → AllNow ts → IsNow? (first_due expiry ts)
first_due-IsNow expiry [] h = tt
first_due-IsNow expiry (t ∷ ts) h = elim (Bool-cases (leb_ℤ expiry t)) [
  | inl due ↦ rw due h.0
  | inr early ↦ rw early (first_due-IsNow expiry ts h.1)
]

-- A timer with no deadline is never found due.
pub first_due-none :
    (t : Timed) (ts : List ℤ) → IsDisarmed t → AllNow ts → first_due t.expires_at ts ≡ none
first_due-none t [] idle h = refl
first_due-none t (u ∷ ts) idle h =
    let later = idle u h.0.1 in
    elim (Bool-cases (leb_ℤ t.expires_at u)) [
      | inl due ↦ absurd (omega tests)
      | inr early ↦ rw early (first_due-none t ts idle h.1)
    ]

module _ {D R : Type 0} (from_now : ℤ → ℤ → ℤ) (deadline_actor : D → D) (store : R → R → R) where
  abbrev pub run_timers : List ℤ → Running D R → Running D R
  run_timers [] s = s
  run_timers (t ∷ ts) s = run_timers ts (run_one from_now deadline_actor store (timer t) s)

  -- The state after the deadline has fired at `t`.
  abbrev pub fire : ℤ → Running D R → Running D R
  fire t s = record s {
    timed = record (s.timed) { deadline_fired = true; expires_at = from_now t k_infinite_duration };
    derived = deadline_actor s.derived;
  }

  abbrev pub fired_at : Option ℤ → Running D R → Running D R
  fired_at none s = s
  fired_at (some t) s = fire t s

  timer-early :
      (t : ℤ) (s : Running D R)
      → 0 < s.timed.posted
      → leb_ℤ s.timed.expires_at t ≡ false
      → run_one from_now deadline_actor store (timer t) s ≡ s
  unfolding run_one
  timer-early t s h e =
      let same : suc (s.timed.posted - 1) ≡ s.timed.posted = omega arith in
      rw (e, check_deadline, same)

  timer-due :
      (t : ℤ) (s : Running D R)
      → 0 < s.timed.posted
      → leb_ℤ s.timed.expires_at t ≡ true
      → run_one from_now deadline_actor store (timer t) s ≡ fire t s
  unfolding run_one
  timer-due t s h e =
      let same : suc (s.timed.posted - 1) ≡ s.timed.posted = omega arith in
      rw (e, check_deadline, same)

module _ {D R : Type 0} (from_now : ℤ → ℤ → ℤ) (never_due : NeverDue from_now)
    (deadline_actor : D → D) (store : R → R → R) where
  quiet_timers :
      (ts : List ℤ) (s : Running D R)
      → 0 < s.timed.posted
      → ((t : ℤ) → t <ℤ k_infinite_duration → t <ℤ s.timed.expires_at)
      → AllNow ts
      → run_timers from_now deadline_actor store ts s ≡ s
  quiet_timers [] s h quiet now = refl
  quiet_timers (t ∷ ts) s h quiet now =
      rw (timer-early from_now deadline_actor store t s h (ground (arith, quiet t now.0.1)))
        (quiet_timers ts s h quiet now.1)

  -- Whatever the readings of the clock, the deadline fires once at most: at the first that has
  -- reached it.
  pub run_timers_lem :
      (ts : List ℤ) (s : Running D R)
      → 0 < s.timed.posted
      → AllNow ts
      → run_timers from_now deadline_actor store ts s
        ≡ fired_at from_now deadline_actor store (first_due s.timed.expires_at ts) s
  run_timers_lem [] s h now = refl
  run_timers_lem (t ∷ ts) s h now = elim (Bool-cases (leb_ℤ s.timed.expires_at t)) [
    | inr early ↦
        rw (timer-early from_now deadline_actor store t s h early, early)
          (run_timers_lem ts s h now.1)
    | inl due ↦
        rw (timer-due from_now deadline_actor store t s h due, due)
          (quiet_timers ts (fire from_now deadline_actor store t s) h (never_due t now.0) now.1)
  ]
