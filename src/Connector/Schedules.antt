-- ===== src/Connector/Schedules.antt =====
-- Runs of the threads of a connector, on a few endpoints: a resolve, a call that connects and one
-- whose endpoint refuses.
use stream_client.Common.{◌≡◌, refl, ℕ, none, List, [], ◌∷◌, ◌==◌, ◌+◌, if◌then◌else◌}
use stream_client.ErrorCode.{success, timed_out, Throws, value, thrown}
use stream_client.Connector.Defs.{base_connector, act}
use stream_client.Connector.System.{
  Label, starts, gets, tells, takes, stores, unlocks, announces, enters, reads, connects, breaks,
  decides, asks, System, start, thread_step, call_step, Run, here, next, holds, apply,
}
use stream_client.Connector.Requests.{unanswered, Run-answers}
use stream_client.Connector.Origins.{Dialed, Run-Dialed}
use stream_client.Connector.Resolving.{IsLive}
use stream_client.Connector.Rounds.{IsRounds}
use stream_client.Connector.Progress.{CanEnter, Run-CanEnter}
use stream_client.Connector.Threads.{Run-IsRounds}
use stream_client.Connector.Interleaved.{Run-IsCall}
use stream_client.Connector.Actions.{history}
use stream_client.Connector.Past.Defs.{IsCall}

-- The call 0 reaches its endpoint, the others do not.
abbrev dial : ℕ → ℕ → Throws ℕ
dial i peer = if i == 0 then value (peer + 100) else thrown timed_out

abbrev keep_order : ℕ → List ℕ → List ℕ
keep_order i es = es

abbrev Reached : List (Label ℕ) → System ℕ ℕ → Type 0
Reached tr s = Run dial keep_order start tr s

abbrev resolved_run : (tr : List (Label ℕ)) × (s : System ℕ ℕ) × Reached tr s
unfolding start holds base_connector
resolved_run = (
  _,
  _,
  next
      (next
        (next
          (next
            (next
              (next (next here (thread_step (starts refl)))
                (thread_step (gets success (7 ∷ 8 ∷ []))))
              (thread_step (tells _ _)))
            (thread_step (takes _ _ refl)))
          (thread_step (stores _)))
        (thread_step unlocks))
      (thread_step announces),
)

-- The call 0 then connects.
abbrev connected_run : (tr : List (Label ℕ)) × (s : System ℕ ℕ) × Reached tr s
unfolding resolved_run start holds base_connector apply act
connected_run = (
  _,
  _,
  next (next (next resolved_run.2 (call_step 0 (enters refl))) (call_step 0 reads))
      (call_step 0 (connects 7 (8 ∷ []) 107 refl)),
)

-- The call 1 reaches nothing and asks for endpoints.
abbrev refused_run : (tr : List (Label ℕ)) × (s : System ℕ ℕ) × Reached tr s
unfolding connected_run resolved_run start holds base_connector apply act
refused_run = (
  _,
  _,
  next
      (next
        (next (next (next connected_run.2 (call_step 1 (enters refl))) (call_step 1 reads))
          (call_step 1 (breaks 7 (8 ∷ []) timed_out refl)))
        (call_step 1 (decides timed_out)))
      (call_step 1 (asks timed_out refl)),
)

Run-answers_example : refused_run.1.connector.resolve_needed ≡ unanswered refused_run.0
unfolding refused_run connected_run resolved_run start holds base_connector apply act
Run-answers_example = Run-answers dial keep_order refused_run.2 refl

Run-Dialed_example : Dialed (dial 0) (keep_order 0) 107 connected_run.0
unfolding connected_run resolved_run start holds base_connector apply act
Run-Dialed_example = Run-Dialed dial keep_order 0 107 success connected_run.2 refl

Run-IsCall_example :
    IsCall
      (dial 1)
      (keep_order 1)
      base_connector
      none
      timed_out
      (history refused_run.0)
      refused_run.1.connector
unfolding refused_run connected_run resolved_run start holds base_connector apply act
Run-IsCall_example = Run-IsCall dial keep_order 1 none timed_out refused_run.2 refl refl

Run-IsRounds_example : IsRounds refused_run.1.connector × IsLive refused_run.1.connector
unfolding refused_run connected_run resolved_run start holds base_connector apply act
Run-IsRounds_example = Run-IsRounds dial keep_order refused_run.2 refl

-- resolve() has failed, and no endpoints are there.
abbrev failing_run : (tr : List (Label ℕ)) × (s : System ℕ ℕ) × Reached tr s
unfolding start holds base_connector
failing_run = (
  _,
  _,
  next (next (next here (thread_step (starts refl))) (thread_step (gets timed_out [])))
      (thread_step (tells _ _)),
)

Run-CanEnter_example : CanEnter dial keep_order 0 failing_run.1
unfolding failing_run start holds base_connector apply act
Run-CanEnter_example = Run-CanEnter dial keep_order 0 failing_run.2 (λ e. cc) refl
