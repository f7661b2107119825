-- ===== src/Connector/Interleaved.antt =====
-- Each call of new_session among the interleaved threads of a connector is a call of the function
-- new_session of the model, in some environment.
use stream_client.Common.{◌≡◌, refl, ℕ, Option, List, ◌++◌}
use stream_client.ErrorCode.{ErrorCode, Throws}
use stream_client.Connector.Actions.{shown, history}
use stream_client.Connector.Defs.{act_all}
use stream_client.Connector.System.{
  Label, called, done, apply, System, thread_step, call_step, Run, here, next, moved-All,
}
use stream_client.Connector.Past.Defs.{IsCall, Past}
use stream_client.Connector.Past.{Past-later, CallStep-Past}

module _ {E S : Type 0} (connect : ℕ → E → Throws S) (shuffle : ℕ → List E → List E) where
  Run-Past :
      {s : System E S} {tr : List (Label E)} {t : System E S}
      → Run connect shuffle s tr t
      → (i : ℕ) → s.calls i ≡ called
      → Past (connect i) (shuffle i) s.connector (t.calls i) (history tr) t.connector
  unfolding act_all
  Run-Past {s} here i e = rw e refl
  Run-Past {s} (next {tr} {e} {t} run (thread_step step)) i new =
      Past-later (connect i) (shuffle i) s.connector (t.calls i) e (history tr) t.connector
        (Run-Past run i new)
  Run-Past {s} (next {tr} {e} {t} run (call_step j {p} step)) i new =
      moved-All
        (λ k q.
          s.calls k ≡ called
          → Past (connect k) (shuffle k) s.connector q (history tr ++ shown e)
              (apply e t.connector))
        t.calls j p
        (λ fresh.
          CallStep-Past (connect j) (shuffle j) s.connector (history tr) step
            (Run-Past run j fresh))
        (λ k fresh.
          Past-later (connect k) (shuffle k) s.connector (t.calls k) e (history tr) t.connector
            (Run-Past run k fresh))
        i new

  -- In every run of the resolving thread and of any number of threads in new_session, in any
  -- interleaving of their sections, a call of new_session that has ended gave the session and the
  -- code that the sequential function new_session gives on the connector as it was when the run
  -- began, with the call's own connections and shuffle, in an environment where others do the first
  -- of the actions of the run, in their order and none left out; and the rest of the run's actions,
  -- its own request for endpoints among them, leads from the state that this function leaves to the
  -- state of the system.
  pub Run-IsCall :
      {tr : List (Label E)} {s t : System E S} (i : ℕ) (session : Option S) (ec : ErrorCode)
      → Run connect shuffle s tr t
      → s.calls i ≡ called
      → t.calls i ≡ done session ec
      → IsCall (connect i) (shuffle i) s.connector session ec (history tr) t.connector
  Run-IsCall {tr} {s} {t} i session ec run new e =
      let past : Past (connect i) (shuffle i) s.connector (t.calls i) (history tr) t.connector =
        Run-Past run i new in
      rw e at past
