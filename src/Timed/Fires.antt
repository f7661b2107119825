-- ===== src/Timed/Fires.antt =====
-- When the deadline of an operation fires, by the operation's own limit.
use stream_client.Common.{
  ◌≡◌, refl, inl, inr, Option, none, List, if◌then◌else◌, Bool-cases, ℤ, eqb_ℤ,
}
use stream_client.Clock.{k_infinite_duration}
use stream_client.Timed.Defs.{Timed, Limit, lasting, until, IsDisarmed}
use stream_client.Timed.Deadline.{first_due, first_due-none, AllNow}
use stream_client.Timed.Limits.{expiry_under}

abbrev pub fires_under : (from_now : ℤ → ℤ → ℤ) → Limit → ℤ → List ℤ → Option ℤ
fires_under from_now (lasting d) now ts =
    if eqb_ℤ d k_infinite_duration then none else first_due (from_now now d) ts
fires_under from_now (until deadline) now ts = first_due deadline ts

-- A timer without a deadline adds none to the limit.
pub fires_under_lem :
    (from_now : ℤ → ℤ → ℤ) (limit : Limit) (now : ℤ) (ts : List ℤ) (t : Timed)
    → IsDisarmed t
    → AllNow ts
    → first_due (expiry_under from_now now limit t) ts ≡ fires_under from_now limit now ts
fires_under_lem from_now (until deadline) now ts t idle times = refl
fires_under_lem from_now (lasting d) now ts t idle times =
    elim (Bool-cases (eqb_ℤ d k_infinite_duration)) [
      | inl infinite ↦ rw infinite (first_due-none t ts idle times)
      | inr finite ↦ rw finite
    ]
