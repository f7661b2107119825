-- ===== src/Socket/Attempts.antt =====
-- Attempts of send and receive of impl/stream_socket.ipp that report try_again: how the loop
-- `do { … } while (ec == try_again)` goes on after them, where EAGAIN and EWOULDBLOCK differ.
use stream_client.Common.{
  ℕ, ◌+◌, ◌≡◌, refl, ap, ◌∙◌, Bool, true, false, none, List, [], ◌∷◌, ◌++◌, map, arith, ℤ, inl, inr,
  Bool-cases,
}
use stream_client.ErrorCode.{ErrorCode, would_block, try_again}
use stream_client.Clock.{IsNow}
use stream_client.Timed.Defs.{Timed, Expiration, release, NeverDue, IsDisarmed}
use stream_client.Timed.Operation.{
  Event, timer, completes, Running, Outcome, returns, is_would_block, is_try_again, run_one,
  run_retrying,
}
use stream_client.Timed.Deadline.{first_due, first_due-none, AllNow, run_timers_lem, fired_at}
use stream_client.Timed.Completion.{
  completed, IsWaiting, retrying-again, retrying-timers, run_retrying-completes,
}
use stream_client.Socket.Defs.{deadline_actor}

-- An attempt that reports try_again: the timer's readings of the clock before it does, when it does,
-- and its bytes.
pub record Attempt : Type 0 where
  pub readings : List ℤ
  pub ends : ℤ
  pub bytes : ℕ

abbrev pub AllClocked : List Attempt → Type 0
AllClocked [] = Unit
AllClocked (a ∷ as_) = AllNow a.readings × IsNow a.ends × AllClocked as_

-- The attempts' events, and then others.
abbrev pub tries : List Attempt → List (Event ℕ) → List (Event ℕ)
tries [] es = es
tries (a ∷ as_) es = map timer a.readings ++ completes a.ends try_again a.bytes ∷ tries as_ es

abbrev pub all_bytes : List Attempt → ℕ
all_bytes [] = 0
all_bytes (a ∷ as_) = a.bytes + all_bytes as_

module _ (from_now : ℤ → ℤ → ℤ) (never_due : NeverDue from_now) where
  -- The loop's variables when the next attempt starts.
  abbrev pub again : ℤ → ℕ → Running Bool ℕ → Running Bool ℕ
  again now n r =
      record (run_one from_now deadline_actor (λ sum k. sum + k) (completes now try_again n) r) {
        ec = would_block;
        pending = true;
      }

  abbrev pub loop : List (Event ℕ) → Running Bool ℕ → Outcome (Running Bool ℕ)
  loop es r = run_retrying from_now deadline_actor (λ sum k. sum + k) false es r

  again-codes :
      (now : ℤ) (n : ℕ) (r : Running Bool ℕ)
      → IsWaiting r
      → (run_one from_now deadline_actor (λ sum k. sum + k) (completes now try_again n) r).ec
        ≡ try_again
  unfolding run_one
  again-codes now n r w = rw (w.runs, w.not_fired)

  -- An attempt that reports try_again before its deadline is followed by another.
  pub once :
      (ts : List ℤ) (now : ℤ) (n : ℕ) (es : List (Event ℕ)) (r : Running Bool ℕ)
      → IsWaiting r
      → AllNow ts
      → first_due r.timed.expires_at ts ≡ none
      → loop (map timer ts ++ completes now try_again n ∷ es) r ≡ loop es (again now n r)
  once ts now n es r w times early =
      retrying-timers from_now deadline_actor (λ sum k. sum + k) false ts
        (completes now try_again n ∷ es) r w.waits
      ∙ ap (loop (completes now try_again n ∷ es)) (
          run_timers_lem from_now never_due deadline_actor (λ sum k. sum + k) ts r w.is_posted times
          ∙ ap (λ due. fired_at from_now deadline_actor (λ sum k. sum + k) due r) early)
      ∙ retrying-again from_now deadline_actor (λ sum k. sum + k) false (completes now try_again n)
          es r (rw (again-codes now n r w)) (rw (again-codes now n r w))

  -- An attempt without a deadline, whose socket is open or not.
  pub record IsFree (is_open : Bool) (r : Running Bool ℕ) : Type 0 where
    pub waiting : IsWaiting r
    pub disarmed : IsDisarmed r.timed
    pub same_open : r.derived ≡ is_open

  release_any-IsDisarmed :
      (now : ℤ) (e : Expiration) (t : Timed)
      → IsNow now
      → IsDisarmed t
      → IsDisarmed (release from_now now e t)
  unfolding release
  release_any-IsDisarmed now e t n idle u k = elim (Bool-cases e.armed) [
    | inl armed ↦ rw armed (never_due now n u k)
    | inr not_armed ↦ rw not_armed (idle u k)
  ]

  pub again-IsWaiting :
      (now : ℤ) (n : ℕ) (r : Running Bool ℕ) → IsWaiting r → IsWaiting (again now n r)
  unfolding run_one release
  again-IsWaiting now n r w =
      rw w.runs
        (record { waits = refl; runs = refl; not_fired = ground arith; is_posted = ground arith })

  again-IsFree :
      (is_open : Bool) (now : ℤ) (n : ℕ) (r : Running Bool ℕ)
      → IsNow now
      → IsFree is_open r
      → IsFree is_open (again now n r)
  unfolding run_one
  again-IsFree is_open now n r clock free = record {
    waiting = again-IsWaiting now n r free.waiting;
    disarmed =
        rw free.waiting.runs (release_any-IsDisarmed now r.handle r.timed clock free.disarmed);
    same_open = rw free.waiting.runs free.same_open;
  }

  pub again-got :
      (now : ℤ) (n : ℕ) (r : Running Bool ℕ) → IsWaiting r → (again now n r).got ≡ r.got + n
  unfolding run_one
  again-got now n r w = rw w.runs

  -- Where attempts without a deadline leave the loop.
  pub record Retried (is_open : Bool) (sum : ℕ) (es : List (Event ℕ)) (from : Running Bool ℕ)
      (all : List (Event ℕ)) : Type 0 where
    pub reached : Running Bool ℕ
    pub goes : loop all from ≡ loop es reached
    pub free : IsFree is_open reached
    pub added : reached.got ≡ sum

  pub tries_loop :
      (is_open : Bool) (as_ : List Attempt) (es : List (Event ℕ)) (r : Running Bool ℕ)
      → AllClocked as_
      → IsFree is_open r
      → Retried is_open (r.got + all_bytes as_) es r (tries as_ es)
  tries_loop is_open [] es r h free = record {
    reached = r;
    goes = refl;
    free = free;
    added = omega arith;
  }
  tries_loop is_open (a ∷ as_) es r h free =
      let rest =
        tries_loop is_open as_ es (again a.ends a.bytes r) h.2
          (again-IsFree is_open a.ends a.bytes r h.1 free) in
      record {
        reached = rest.reached;
        goes =
            once a.readings a.ends a.bytes (tries as_ es) r free.waiting h.0
              (first_due-none r.timed a.readings free.disarmed h.0)
            ∙ rest.goes;
        free = rest.free;
        added = omega (arith, rest.added, again-got a.ends a.bytes r free.waiting);
      }

  -- How the loop ends with an attempt that needs no other.
  pub record Ended (is_open : Bool) (sum : ℕ) (error : ErrorCode) (from : Outcome (Running Bool ℕ))
      : Type 0 where
    pub finish : Running Bool ℕ
    pub gives : from ≡ returns finish
    pub sums : finish.got ≡ sum
    pub reports : finish.ec ≡ error
    pub same_open : finish.derived ≡ is_open

  pub last_attempt :
      (is_open : Bool) (ts : List ℤ) (end_time : ℤ) (error : ErrorCode) (n : ℕ)
      (es : List (Event ℕ)) (r : Running Bool ℕ)
      → IsFree is_open r
      → AllNow ts
      → is_would_block false error ≡ false
      → is_try_again false error ≡ false
      → Ended is_open (r.got + n) error (loop (map timer ts ++ completes end_time error n ∷ es) r)
  unfolding run_one
  last_attempt is_open ts end_time error n es r free times final last = record {
    finish = completed from_now deadline_actor (λ sum k. sum + k) false end_time error n none r;
    gives =
        run_retrying-completes from_now never_due deadline_actor (λ sum k. sum + k) false ts
          end_time error n es r free.waiting times final last
        ∙ ap
            (λ due.
              returns
                (completed from_now deadline_actor (λ sum k. sum + k) false end_time error n due r))
            (first_due-none r.timed ts free.disarmed times);
    sums = rw free.waiting.runs;
    reports = rw (free.waiting.runs, free.waiting.not_fired);
    same_open = rw free.waiting.runs free.same_open;
  }
