-- ===== src/Connector/Past/Defs.antt =====
-- How a call of new_session (impl/connector.ipp) among other threads stands to the function
-- new_session of the model, by what the others have done so far.
use stream_client.Common.{◌≡◌, true, Option, none, List, [], ◌∷◌, ◌++◌, if◌then◌else◌}
use stream_client.ErrorCode.{ErrorCode, success, Throws}
use stream_client.Connector.Defs.{
  Connector, Action, notifies_needed, act, act_all, Wake, wait_done, SessionEnv, new_session,
}
use stream_client.Connector.System.{Calling, called, denied, admitted, dialing, lost, asking, done}
use stream_client.Connector.Waits.{Fails}

-- What others do in a wait.
abbrev pub heard : {E : Type 0} → List (Wake E) → List (Action E)
heard [] = []
heard (w ∷ ws) = w.others ++ heard ws

module _ {E : Type 0} (c0 : Connector E) where
  -- What others do from the call of new_session on `c0` to its last look at the shared state.
  abbrev pub seen : {S : Type 0} → SessionEnv E S → List (Action E)
  seen env =
      if env.locked
      then heard env.wakes
        ++ (if (wait_done env.wakes c0).1 then env.unlocked ++ env.connecting else env.late)
      else env.late

  -- A wait that ends well, in which all that others do is seen.
  pub record Woken (wakes : List (Wake E)) : Type 0 where
    pub woken : (wait_done wakes c0).1 ≡ true
    pub whole_wait : act_all (heard wakes) c0 ≡ (wait_done wakes c0).0

module _ {E S : Type 0} (connect : E → Throws S) (shuffle_vector : List E → List E)
    (c0 : Connector E) where
  -- The wait has ended well and the endpoints are to be read; others have done `all` so far.
  pub record Entered (all : List (Action E)) (c : Connector E) : Type 0 where
    pub wakes : List (Wake E)
    pub woken : Woken c0 wakes
    pub since : List (Action E)
    pub leads : act_all since (wait_done wakes c0).0 ≡ c
    pub whole : heard wakes ++ since ≡ all

  -- The endpoints have been read and shuffled.
  pub record Found (es : List E) (all : List (Action E)) (c : Connector E) : Type 0 where
    pub wakes : List (Wake E)
    pub woken : Woken c0 wakes
    pub unlocked : List (Action E)
    pub shuffled : shuffle_vector (act_all unlocked (wait_done wakes c0).0).endpoints ≡ es
    pub since : List (Action E)
    pub leads : act_all since (act_all unlocked (wait_done wakes c0).0) ≡ c
    pub whole : heard wakes ++ (unlocked ++ since) ≡ all

  -- A call of new_session on `c0` with this result, that asks for endpoints last.
  pub record Asks (ec : ErrorCode) (all : List (Action E)) (c : Connector E) : Type 0 where
    pub env : SessionEnv E S
    pub dials : env.connect ≡ connect
    pub shuffles : env.shuffle_vector ≡ shuffle_vector
    pub whole_wait : act_all (heard env.wakes) c0 ≡ (wait_done env.wakes c0).0
    pub deciding : Connector E
    pub gives : new_session env success c0 ≡ (act notifies_needed deciding, none, ec)
    pub since : List (Action E)
    pub leads : act_all since deciding ≡ c
    pub whole : seen c0 env ++ since ≡ all

  -- The result is that of new_session, called on `c0` in an environment that dials and shuffles so,
  -- and in which others do the first of the actions `all`, one after the other; the rest of these
  -- actions leads from what new_session leaves to `c`.
  pub record IsCall (session : Option S) (ec : ErrorCode) (all : List (Action E)) (c : Connector E)
      : Type 0 where
    pub env : SessionEnv E S
    pub dials : env.connect ≡ connect
    pub shuffles : env.shuffle_vector ≡ shuffle_vector
    pub whole_wait : act_all (heard env.wakes) c0 ≡ (wait_done env.wakes c0).0
    pub gives_session : (new_session env success c0).1 ≡ session
    pub gives_code : (new_session env success c0).2 ≡ ec
    pub since : List (Action E)
    pub leads : act_all since (new_session env success c0).0 ≡ c
    pub whole : seen c0 env ++ since ≡ all

  abbrev pub Past : Calling E S → List (Action E) → Connector E → Type 0
  Past called all c = act_all all c0 ≡ c
  Past denied all c = act_all all c0 ≡ c
  Past admitted all c = Entered all c
  Past (dialing es) all c = Found es all c
  Past (lost ec) all c = (es : List E) × Found es all c × Fails connect es ec
  Past (asking ec) all c = Asks ec all c
  Past (done session ec) all c = IsCall session ec all c
