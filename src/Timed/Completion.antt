-- ===== src/Timed/Completion.antt =====
-- An operation under a schedule: the timer's handler runs at some readings of the clock, and then the
-- operation completes.
use stream_client.Common.{
  ◌<◌, ◌≡◌, refl, ap, ◌∙◌, Bool, true, false, Option, none, some, List, [], ◌∷◌, ◌++◌, map, ℤ,
}
use stream_client.ErrorCode.{ErrorCode, would_block, timed_out}
use stream_client.Timed.Defs.{NeverDue}
use stream_client.Timed.Operation.{
  Event, timer, completes, Running, returns, is_would_block, is_try_again, run_one, run_until_set,
  run_retrying,
}
use stream_client.Timed.Deadline.{first_due, AllNow, run_timers, run_timers_lem, fired_at}

module _ {D R : Type 0} (from_now : ℤ → ℤ → ℤ) (deadline_actor : D → D) (store : R → R → R)
    (same : Bool) where
  -- The state after the operation completes, the deadline having fired at `fired`, if at all.
  abbrev pub completed : ℤ → ErrorCode → R → Option ℤ → Running D R → Running D R
  completed now error r fired s =
      run_one from_now deadline_actor store (completes now error r)
        (fired_at from_now deadline_actor store fired s)

  timer-ec :
      (t : ℤ) (s : Running D R) → (run_one from_now deadline_actor store (timer t) s).ec ≡ s.ec
  unfolding run_one
  timer-ec t s = refl

  until-waits :
      (e : Event R) (es : List (Event R)) (s : Running D R)
      → is_would_block same s.ec ≡ true
      → run_until_set from_now deadline_actor store same (e ∷ es) s
        ≡ run_until_set from_now deadline_actor store same es
            (run_one from_now deadline_actor store e s)
  unfolding run_until_set
  until-waits e es s h = rw h

  retrying-waits :
      (e : Event R) (es : List (Event R)) (s : Running D R)
      → is_would_block same (run_one from_now deadline_actor store e s).ec ≡ true
      → run_retrying from_now deadline_actor store same (e ∷ es) s
        ≡ run_retrying from_now deadline_actor store same es
            (run_one from_now deadline_actor store e s)
  unfolding run_retrying
  retrying-waits e es s h = rw h

  retrying-ends :
      (e : Event R) (es : List (Event R)) (s : Running D R)
      → is_would_block same (run_one from_now deadline_actor store e s).ec ≡ false
      → is_try_again same (run_one from_now deadline_actor store e s).ec ≡ false
      → run_retrying from_now deadline_actor store same (e ∷ es) s
        ≡ returns (run_one from_now deadline_actor store e s)
  unfolding run_retrying
  retrying-ends e es s h k = rw (h, k)

  pub retrying-again :
      (e : Event R) (es : List (Event R)) (s : Running D R)
      → is_would_block same (run_one from_now deadline_actor store e s).ec ≡ false
      → is_try_again same (run_one from_now deadline_actor store e s).ec ≡ true
      → run_retrying from_now deadline_actor store same (e ∷ es) s
        ≡ run_retrying from_now deadline_actor store same es
            (record (run_one from_now deadline_actor store e s) {
              ec = would_block;
              pending = true;
            })
  unfolding run_retrying
  retrying-again e es s h k = rw (h, k)

  blocks_on : (ec : ErrorCode) → ec ≡ would_block → is_would_block same ec ≡ true
  blocks_on ec h = rw h

  until-timers :
      (ts : List ℤ) (es : List (Event R)) (s : Running D R)
      → s.ec ≡ would_block
      → run_until_set from_now deadline_actor store same (map timer ts ++ es) s
        ≡ run_until_set from_now deadline_actor store same es
            (run_timers from_now deadline_actor store ts s)
  until-timers [] es s h = refl
  until-timers (t ∷ ts) es s h =
      until-waits (timer t) (map timer ts ++ es) s (blocks_on s.ec h)
      ∙ until-timers ts es (run_one from_now deadline_actor store (timer t) s) (timer-ec t s ∙ h)

  pub retrying-timers :
      (ts : List ℤ) (es : List (Event R)) (s : Running D R)
      → s.ec ≡ would_block
      → run_retrying from_now deadline_actor store same (map timer ts ++ es) s
        ≡ run_retrying from_now deadline_actor store same es
            (run_timers from_now deadline_actor store ts s)
  retrying-timers [] es s h = refl
  retrying-timers (t ∷ ts) es s h =
      retrying-waits (timer t) (map timer ts ++ es) s (blocks_on _ (timer-ec t s ∙ h))
      ∙ retrying-timers ts es (run_one from_now deadline_actor store (timer t) s) (timer-ec t s ∙ h)

  until-set :
      (es : List (Event R)) (s : Running D R)
      → is_would_block same s.ec ≡ false
      → run_until_set from_now deadline_actor store same es s ≡ returns s
  unfolding run_until_set
  until-set [] s h = rw h
  until-set (e ∷ es) s h = rw h

  -- `ec` after the completion: the deadline decides before the operation's own error.
  completed-ec :
      (now : ℤ) (error : ErrorCode) (r : R) (fired : Option ℤ) (s : Running D R)
      → s.pending ≡ true
      → s.timed.deadline_fired ≡ false
      → (completed now error r fired s).ec ≡ elim fired [ none ↦ error | some _ ↦ timed_out ]
  unfolding run_one
  completed-ec now error r none s p f = rw (p, f)
  completed-ec now error r (some t) s p f = rw p

  settles :
      (now : ℤ) (error : ErrorCode) (r : R) (fired : Option ℤ) (s : Running D R)
      → s.pending ≡ true
      → s.timed.deadline_fired ≡ false
      → is_would_block same error ≡ false
      → is_would_block same (completed now error r fired s).ec ≡ false
  settles now error r none s p f h = rw (completed-ec now error r none s p f) h
  settles now error r (some t) s p f h = rw (completed-ec now error r (some t) s p f)

  settles_finally :
      (now : ℤ) (error : ErrorCode) (r : R) (fired : Option ℤ) (s : Running D R)
      → s.pending ≡ true
      → s.timed.deadline_fired ≡ false
      → is_try_again same error ≡ false
      → is_try_again same (completed now error r fired s).ec ≡ false
  settles_finally now error r none s p f h = rw (completed-ec now error r none s p f) h
  settles_finally now error r (some t) s p f h = rw (completed-ec now error r (some t) s p f)

  fired_at-ec :
      (fired : Option ℤ) (s : Running D R)
      → (fired_at from_now deadline_actor store fired s).ec ≡ s.ec
  fired_at-ec none s = refl
  fired_at-ec (some t) s = refl

-- An operation that waits, its deadline not fired.
pub record IsWaiting {D R : Type 0} (s : Running D R) : Type 0 where
  pub waits : s.ec ≡ would_block
  pub runs : s.pending ≡ true
  pub not_fired : s.timed.deadline_fired ≡ false
  pub is_posted : 0 < s.timed.posted

module _ {D R : Type 0} (from_now : ℤ → ℤ → ℤ) (never_due : NeverDue from_now)
    (deadline_actor : D → D) (store : R → R → R) (same : Bool) (ts : List ℤ) (now : ℤ)
    (error : ErrorCode) (r : R) (es : List (Event R)) (s : Running D R) (w : IsWaiting s)
    (times : AllNow ts) where
  abbrev due : Option ℤ
  due = first_due s.timed.expires_at ts

  before : Running D R
  before = fired_at from_now deadline_actor store due s

  reached : run_timers from_now deadline_actor store ts s ≡ before
  unfolding before
  reached = run_timers_lem from_now never_due deadline_actor store ts s w.is_posted times

  before-ec : before.ec ≡ would_block
  unfolding before
  before-ec = fired_at-ec from_now deadline_actor store same due s ∙ w.waits

  -- The loop ends with the completion, if its error is a final one, and reads no event behind it.
  pub run_until_set-completes :
      is_would_block same error ≡ false
      → run_until_set from_now deadline_actor store same
          (map timer ts ++ completes now error r ∷ es)
          s
        ≡ returns (completed from_now deadline_actor store same now error r due s)
  unfolding before
  run_until_set-completes final =
      until-timers from_now deadline_actor store same ts (completes now error r ∷ es) s w.waits
      ∙ ap (run_until_set from_now deadline_actor store same (completes now error r ∷ es)) reached
      ∙ until-waits from_now deadline_actor store same (completes now error r) es before
          (blocks_on from_now deadline_actor store same before.ec before-ec)
      ∙ until-set from_now deadline_actor store same es _
          (settles from_now deadline_actor store same now error r due s w.runs w.not_fired final)

  -- So does the loop that retries.
  pub run_retrying-completes :
      is_would_block same error ≡ false
      → is_try_again same error ≡ false
      → run_retrying from_now deadline_actor store same
          (map timer ts ++ completes now error r ∷ es)
          s
        ≡ returns (completed from_now deadline_actor store same now error r due s)
  unfolding before
  run_retrying-completes final last =
      retrying-timers from_now deadline_actor store same ts (completes now error r ∷ es) s w.waits
      ∙ ap (run_retrying from_now deadline_actor store same (completes now error r ∷ es)) reached
      ∙ retrying-ends from_now deadline_actor store same (completes now error r) es before
          (settles from_now deadline_actor store same now error r due s w.runs w.not_fired final)
          (settles_finally from_now deadline_actor store same now error r due s w.runs w.not_fired
            last)
