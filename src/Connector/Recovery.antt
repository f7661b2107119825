-- ===== src/Connector/Recovery.antt =====
-- What follows a call of new_session that connects to no endpoint (impl/connector.ipp).
use stream_client.Common.{◌≡◌, sym, ap, ◌∙◌, true, false, Option, none, List, [], ◌∷◌, ◌++◌, arith}
use stream_client.ErrorCode.{ErrorCode, success}
use stream_client.Connector.Defs.{Connector, SessionEnv, RoundEnv, new_session, resolve_routine}
use stream_client.Connector.Session.{
  Ends, not_resolved, connected, gave_up, could_wait, new_session-Ends,
}
use stream_client.Connector.Resolving.{AreClients, AllRounds, AllFail, resolve_routine-recovers}

module _ {E S : Type 0} where
  Ends-needed :
      (env : SessionEnv E S) (c : Connector E) (r : Connector E × Option S × ErrorCode)
      → Ends env c r
      → could_wait env c ≡ true
      → r.1 ≡ none
      → r.0.resolve_needed ≡ true
  Ends-needed env c r (not_resolved code h f e) waited nothing =
      absurd (ground (arith, sym h ∙ waited))
  Ends-needed env c r (connected peer rest session h k given e) waited nothing =
      absurd (ground (arith, sym nothing ∙ ap (λ x. x.1) e))
  Ends-needed env c r (gave_up code h k l e) waited nothing = ap (λ x. x.0.resolve_needed) e

  -- If a call of new_session that could wait for the endpoints gives no session, and other threads
  -- only ask for endpoints, then rounds of resolve_routine that miss the lock or fail to resolve,
  -- followed by one that gets the lock and resolves, leave exactly the new endpoints, no error and
  -- no wish for others.
  pub new_session-recovers :
      (env : SessionEnv E S) (c : Connector E) (failing : List (RoundEnv E)) (good : RoundEnv E)
      → could_wait env c ≡ true
      → (new_session env success c).1 ≡ none
      → AllRounds failing
      → AllFail failing
      → AreClients good.before
      → good.running ≡ true
      → good.locked ≡ true
      → good.resolve_ec ≡ success
      → resolve_routine (failing ++ good ∷ []) (new_session env success c).0 ≡ record {
        endpoints = good.resolved;
        resolve_error = success;
        resolve_needed = false;
        resolve_done = true;
      }
  new_session-recovers env c failing good waited nothing all bad clients running locked fine =
      resolve_routine-recovers failing good (new_session env success c).0 all bad clients running
        locked fine
        (Ends-needed env c (new_session env success c) (new_session-Ends env c) waited nothing)
