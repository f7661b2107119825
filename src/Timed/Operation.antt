-- ===== src/Timed/Operation.antt =====
-- The loop that the synchronous operations share: `ec = would_block`, the start of an asynchronous
-- operation, and run_one() until its handler has set `ec`.
-- What run_one() runs is an event: the handler of the timer, or that of the operation.
use stream_client.Common.{◌≡◌, ap, Bool, true, false, List, [], ◌∷◌, if◌then◌else◌, ℤ}
use stream_client.ErrorCode.{ErrorCode, would_block, try_again, timed_out}
use stream_client.Timed.Defs.{Timed, Expiration, release, check_deadline}

pub data Event (R : Type 0) : Type 0 where
  timer : ℤ → Event R
  completes : ℤ → ErrorCode → R → Event R

-- EAGAIN and EWOULDBLOCK are one number on some platforms, Linux among them: then `same` is true.
abbrev pub is_would_block : (same : Bool) → ErrorCode → Bool
is_would_block same would_block = true
is_would_block same try_again = same
is_would_block same _ = false

abbrev pub is_try_again : (same : Bool) → ErrorCode → Bool
is_try_again same would_block = same
is_try_again same try_again = true
is_try_again same _ = false

-- The variables of the loop. `got`: what the handler has stored; `pending`: the operation runs.
pub record Running (D R : Type 0) : Type 0 where
  pub timed : Timed
  pub derived : D
  pub handle : Expiration
  pub ec : ErrorCode
  pub got : R
  pub pending : Bool

-- How an operation ends: it returns, throws, or still waits when the events are over.
pub data Outcome (A : Type 0) : Type 0 where
  returns : A → Outcome A
  throws : ErrorCode → Outcome A
  blocks : Outcome A

pub returns-inj : {A : Type 0} {a b : A} → returns a ≡ returns b → a ≡ b
returns-inj {a = a} e = ap (λ o. elim o [ returns x ↦ x | _ ↦ a ]) e

module _ {D R : Type 0} (from_now : ℤ → ℤ → ℤ) (deadline_actor : D → D) (store : R → R → R) where
  -- One run_one(). The completion handler stores its result and `ec`, and then its expiration ends.
  unfoldable pub run_one : Event R → Running D R → Running D R
  unfolding check_deadline release
  run_one (timer now) s =
      let checked = check_deadline from_now deadline_actor now (s.timed, s.derived) in
      record s { timed = checked.0; derived = checked.1 }
  run_one (completes now error r) s =
      if s.pending
      then record s {
        timed = release from_now now s.handle s.timed;
        handle = record { armed = false };
        got = store s.got r;
        ec = if s.timed.deadline_fired then timed_out else error;
        pending = false;
      }
      else s

  -- `while (ec == would_block) run_one();`
  unfoldable pub run_until_set :
      (same : Bool) → List (Event R) → Running D R → Outcome (Running D R)
  run_until_set same [] s = if is_would_block same s.ec then blocks else returns s
  run_until_set same (e ∷ es) s =
      let rest = run_until_set same es (run_one e s) in
      if is_would_block same s.ec then rest else returns s

  -- The same inside `do { … } while (ec == try_again);`, from a started attempt: `ec` is would_block
  -- wherever run_one() is called, and a new attempt has no expiration.
  unfoldable pub run_retrying : (same : Bool) → List (Event R) → Running D R → Outcome (Running D R)
  run_retrying same [] s = blocks
  run_retrying same (e ∷ es) s =
      let next = run_one e s in
      let waits = run_retrying same es next in
      let again = run_retrying same es (record next { ec = would_block; pending = true }) in
      if is_would_block same next.ec
      then waits
      else if is_try_again same next.ec
      then again
      else returns next
