-- ===== src/Connector/Defs.antt =====
-- include/stream-client/connector/connector.hpp and impl/connector.ipp.
-- A thread of the connector and the threads of its clients share the endpoints, the error and two
-- flags, each under a mutex of its own: one critical section is one action. What other threads do
-- while an operation waits or is between two sections is a list of actions.
-- `E`: endpoints; `S`: sessions. The outcome of a connection and the shuffle are arguments.
use stream_client.Common.{
  Bool, true, false, not, ◌||◌, ◌&&◌, Option, none, some, List, [], ◌∷◌, if◌then◌else◌, ℤ,
}
use stream_client.ErrorCode.{
  ErrorCode, success, timed_out, operation_aborted, Throws, value, thrown, failed,
}
use stream_client.Clock.{sub_time}

pub record Connector (E : Type 0) : Type 0 where
  pub endpoints : List E
  pub resolve_error : ErrorCode
  pub resolve_needed : Bool
  pub resolve_done : Bool

-- What a thread does in one critical section: set_resolve_error, `resolve_needed_ = false`,
-- update_endpoints, notify_resolve_done and notify_resolve_needed.
pub data Action (E : Type 0) : Type 0 where
  sets_error : ErrorCode → Action E
  takes_up : Action E
  updates : List E → Action E
  notifies_done : Action E
  notifies_needed : Action E

-- One return from a wait on resolve_done_cv_.
pub record Wake (E : Type 0) : Type 0 where
  pub others : List (Action E)
  pub expired : Bool

-- What surrounds one call of new_session.
pub record SessionEnv (E S : Type 0) : Type 0 where
  pub locked : Bool
  pub wakes : List (Wake E)
  pub late : List (Action E)  -- before get_resolve_error, in a call that could not wait
  pub unlocked : List (Action E)  -- before get_endpoints
  pub shuffle_vector : List E → List E
  pub connect : E → Throws S  -- connect_until
  pub connecting : List (Action E)  -- before get_resolve_error

-- What surrounds one round of resolve_routine. `resolved`: what resolve() gives, or its error.
pub record RoundEnv (E : Type 0) : Type 0 where
  pub running : Bool
  pub locked : Bool
  pub before : List (Action E)  -- before the lock, and during the wait
  pub resolve_ec : ErrorCode
  pub resolved : List E

-- The overload that throws: its checks on what new_session gave.
unfoldable pub session_or_throw : {S : Type 0} → Option S → ErrorCode → Throws S
session_or_throw session ec =
    if failed ec
    then thrown ec
    else elim session [ none ↦ thrown operation_aborted | some s ↦ value s ]

-- connect_until, over the constructor of the stream.
unfoldable pub connect_until :
    {E S : Type 0} (now : ℤ) (operation_timeout : ℤ)
    → (E → ℤ → ℤ → Throws S)
    → (deadline : ℤ) → E
    → Throws S
unfolding sub_time
connect_until now operation_timeout stream deadline peer =
    stream peer (sub_time deadline now) operation_timeout

module _ {E : Type 0} where
  -- The constructor, as its thread finds it.
  unfoldable pub base_connector : Connector E
  base_connector = record {
    endpoints = [];
    resolve_error = success;
    resolve_needed = true;
    resolve_done = false;
  }

  unfoldable pub act : Action E → Connector E → Connector E
  act (sets_error err) c = record c { resolve_error = err }
  act takes_up c = record c { resolve_needed = false }
  act (updates resolved_endpoints) c = record c { endpoints = resolved_endpoints }
  act notifies_done c = record c { resolve_done = true }
  act notifies_needed c = record c { resolve_needed = true }

  unfoldable pub act_all : List (Action E) → Connector E → Connector E
  unfolding act
  act_all [] c = c
  act_all (a ∷ as_) c = act_all as_ (act a c)

  -- `resolve_done_cv_.wait_until(…)`; the deadline has passed when the list of wakes ends.
  unfoldable pub wait_done : List (Wake E) → Connector E → Connector E × Bool
  unfolding act_all
  wait_done [] c = (c, c.resolve_done)
  wait_done (w ∷ ws) c =
      let after = act_all w.others c in
      let later = wait_done ws after in
      if c.resolve_done then (c, true) else if w.expired then (after, after.resolve_done) else later

  -- The code of a call that could not wait for the endpoints.
  unfoldable pub waiting_error : Connector E → ErrorCode
  waiting_error c = if failed c.resolve_error then c.resolve_error else timed_out

  -- What follows the loop over the endpoints.
  unfoldable pub give_up :
      {S : Type 0} → ErrorCode → Connector E → Connector E × Option S × ErrorCode
  unfolding act
  give_up ec c = (act notifies_needed c, none, (if not (failed ec) then c.resolve_error else ec))

  -- The loop over the shuffled endpoints: it ends with the first of them.
  unfoldable pub try_endpoints :
      {S : Type 0}
      → (E → Throws S)
      → List (Action E)
      → List E
      → ErrorCode
      → Connector E
      → Connector E × Option S × ErrorCode
  unfolding act_all give_up
  try_endpoints connect connecting [] ec c = give_up ec (act_all connecting c)
  try_endpoints connect connecting (peer ∷ rest) ec c = elim (connect peer) [
    | value session ↦ (act_all connecting c, some session, ec)
    | thrown code ↦ give_up code (act_all connecting c)
  ]

  unfoldable pub new_session :
      {S : Type 0} → SessionEnv E S → ErrorCode → Connector E → Connector E × Option S × ErrorCode
  unfolding wait_done waiting_error act_all try_endpoints
  new_session env ec c =
      let waited = wait_done env.wakes c in
      let found = act_all env.unlocked waited.0 in
      let failing = act_all env.late (if env.locked then waited.0 else c) in
      if not (env.locked && waited.1)
      then (failing, none, waiting_error failing)
      else try_endpoints env.connect env.connecting (env.shuffle_vector found.endpoints) ec found

  unfoldable pub new_session_or_throw :
      {S : Type 0} → SessionEnv E S → Connector E → Connector E × Throws S
  unfolding new_session session_or_throw
  new_session_or_throw env c =
      let got = new_session env success c in (got.0, session_or_throw got.1 got.2)

  -- The sections that follow resolve() in a round.
  unfoldable pub after_resolve : ErrorCode → List E → List (Action E)
  after_resolve resolve_ec resolved =
      if failed resolve_ec
      then sets_error resolve_ec ∷ []
      else sets_error resolve_ec ∷ takes_up ∷ updates resolved ∷ notifies_done ∷ []

  -- One round of resolve_routine.
  unfoldable pub resolve_round : RoundEnv E → Connector E → Connector E
  unfolding act_all after_resolve
  resolve_round env c =
      let ready = act_all env.before c in
      if not env.locked || not ready.resolve_needed
      then ready
      else act_all (after_resolve env.resolve_ec env.resolved) ready

  -- The loop, over the rounds that the destructor lets it run.
  unfoldable pub resolve_routine : List (RoundEnv E) → Connector E → Connector E
  unfolding resolve_round
  resolve_routine [] c = c
  resolve_routine (env ∷ envs) c =
      let rest = resolve_routine envs (resolve_round env c) in if env.running then rest else c
