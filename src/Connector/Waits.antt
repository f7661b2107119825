-- ===== src/Connector/Waits.antt =====
-- How a call of new_session (impl/connector.ipp) waits for the endpoints and ends without a session,
-- in the environments of the model.
use stream_client.Common.{◌≡◌, refl, true, false, not, none, List, [], ◌∷◌, if◌then◌else◌}
use stream_client.ErrorCode.{ErrorCode, success, Throws, thrown, failed}
use stream_client.Connector.Defs.{
  Connector, Action, notifies_needed, act, act_all, Wake, wait_done, SessionEnv, try_endpoints,
  give_up,
}

-- One wake, at the end of the wait.
unfoldable pub last_wake : {E : Type 0} → List (Action E) → List (Wake E)
last_wake as_ = record { others = as_; expired = true } ∷ []

module _ {E : Type 0} (c0 : Connector E) where
  pub wait_done-last_wake :
      (as_ : List (Action E))
      → c0.resolve_done ≡ false
      → wait_done (last_wake as_) c0 ≡ (act_all as_ c0, (act_all as_ c0).resolve_done)
  unfolding wait_done last_wake
  wait_done-last_wake as_ h = simp h

  pub wait_done-nil : wait_done [] c0 ≡ (c0, c0.resolve_done)
  unfolding wait_done
  wait_done-nil = refl

module _ {E S : Type 0} (connect : E → Throws S) where
  abbrev pub Fails : List E → ErrorCode → Type 0
  Fails [] ec = ec ≡ success
  Fails (peer ∷ rest) ec = connect peer ≡ thrown ec

  pub gives_up :
      (as_ : List (Action E)) (es : List E) (ec : ErrorCode) (c d : Connector E)
      → act_all as_ d ≡ c
      → Fails es ec
      → try_endpoints connect as_ es success d
        ≡ (act notifies_needed c, none, (if not (failed ec) then c.resolve_error else ec))
  unfolding try_endpoints give_up
  gives_up as_ [] ec c d e bad = rw (e, bad)
  gives_up as_ (peer ∷ rest) ec c d e bad = rw (bad, try_endpoints, e)

  module _ (shuffle_vector : List E → List E) where
    -- The environment of a call that is woken so, and of one that is not.
    unfoldable pub woken_by : List (Wake E) → List (Action E) → List (Action E) → SessionEnv E S
    woken_by wakes unlocked connecting = record {
      locked = true;
      wakes = wakes;
      late = [];
      unlocked = unlocked;
      shuffle_vector = shuffle_vector;
      connect = connect;
      connecting = connecting;
    }

    unfoldable pub shut_out : List (Action E) → SessionEnv E S
    shut_out late = record {
      locked = false;
      wakes = [];
      late = late;
      unlocked = [];
      shuffle_vector = shuffle_vector;
      connect = connect;
      connecting = [];
    }
