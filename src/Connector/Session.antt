-- ===== src/Connector/Session.antt =====
-- What new_session gives, and what it asks of the resolving thread.
use stream_client.Common.{
  ◌≡◌, refl, ◌≢◌, inl, inr, Bool, true, false, not, Option, none, some, List, [], ◌∷◌, arith,
  if◌then◌else◌, Bool-cases, ◌&&◌,
}
use stream_client.ErrorCode.{ErrorCode, success, value, failed, Throws-cases}
use stream_client.Connector.Defs.{
  Connector, act, act_all, SessionEnv, wait_done, waiting_error, give_up, try_endpoints,
  new_session,
}

waiting_error-fails : {E : Type 0} (c : Connector E) → failed (waiting_error c) ≡ true
unfolding waiting_error
waiting_error-fails c = ground arith

not_failed : (e : ErrorCode) → failed e ≡ false → e ≡ success
not_failed success h = refl
not_failed e h = ground arith

own_code :
    (code resolve_error : ErrorCode)
    → failed (if not (failed code) then resolve_error else code) ≡ false
    → resolve_error ≡ success
own_code code resolve_error h = elim (Bool-cases (failed code)) [
  | inl failing ↦ absurd (ground arith)
  | inr fine ↦ not_failed resolve_error (rw fine at h)
]

module _ {E S : Type 0} where
  -- The connector when the wait is over, and when the endpoints are read.
  abbrev pub waited : SessionEnv E S → Connector E → Connector E
  waited env c = act_all env.late (if env.locked then (wait_done env.wakes c).0 else c)

  abbrev pub could_wait : SessionEnv E S → Connector E → Bool
  could_wait env c = env.locked && (wait_done env.wakes c).1

  abbrev pub reading : SessionEnv E S → Connector E → Connector E
  reading env c = act_all env.unlocked (wait_done env.wakes c).0

  abbrev pub peers : SessionEnv E S → Connector E → List E
  peers env c = env.shuffle_vector (reading env c).endpoints

  abbrev pub in_end : SessionEnv E S → Connector E → Connector E
  in_end env c = act_all env.connecting (reading env c)

  -- The three ends of a call without an error code set before: the resolver is asked for endpoints
  -- only in the last.
  pub data Ends (env : SessionEnv E S) (c : Connector E) (r : Connector E × Option S × ErrorCode)
      : Type 0 where
    not_resolved :
        (code : ErrorCode)
        → could_wait env c ≡ false
        → failed code ≡ true
        → r ≡ (waited env c, none, code)
        → Ends env c r
    connected :
        (peer : E) (rest : List E) (session : S)
        → could_wait env c ≡ true
        → peers env c ≡ peer ∷ rest
        → env.connect peer ≡ value session
        → r ≡ (in_end env c, some session, success)
        → Ends env c r
    gave_up :
        (code : ErrorCode)
        → could_wait env c ≡ true
        → ((peer : E) (rest : List E) (session : S)
            → peers env c ≡ peer ∷ rest
            → env.connect peer ≢ value session)
        → (failed code ≡ false → (in_end env c).resolve_error ≡ success)
        → r ≡ (record (in_end env c) { resolve_needed = true }, none, code)
        → Ends env c r

  try_endpoints-Ends :
      (env : SessionEnv E S) (c : Connector E) (es : List E)
      → could_wait env c ≡ true
      → peers env c ≡ es
      → Ends env c (try_endpoints env.connect env.connecting es success (reading env c))
  unfolding try_endpoints give_up act
  try_endpoints-Ends env c [] h e =
      gave_up _ h (λ peer rest session f g. ground arith) (not_failed _) refl
  try_endpoints-Ends env c (peer ∷ rest) h e = elim (Throws-cases (env.connect peer)) [
    | inl (session, o) ↦ connected peer rest session h e o (rw (o, try_endpoints))
    | inr (code, o) ↦
        gave_up (if not (failed code) then (in_end env c).resolve_error else code) h
          (λ other more session f g. ground arith) (own_code code _) (rw (o, try_endpoints))
  ]

  too_late :
      (env : SessionEnv E S) (c : Connector E)
      → could_wait env c ≡ false
      → new_session env success c ≡ (waited env c, none, waiting_error (waited env c))
  unfolding new_session
  too_late env c h = rw h

  pub in_time :
      (env : SessionEnv E S) (c : Connector E)
      → could_wait env c ≡ true
      → new_session env success c
        ≡ try_endpoints env.connect env.connecting (peers env c) success (reading env c)
  unfolding new_session
  in_time env c h = rw h

  -- new_session, called without an error set and whatever other threads do meanwhile, ends in one
  -- of three ways: it could not wait for the endpoints, changes nothing of the shared state itself
  -- and reports a failure; or the first endpoint of the shuffled list connects, and its session is
  -- given without an error; or no session comes of that endpoint or there is none, and then the
  -- resolver is asked for endpoints, and an error is missing only where the resolver has none to
  -- tell.
  pub new_session-Ends :
      (env : SessionEnv E S) (c : Connector E) → Ends env c (new_session env success c)
  new_session-Ends env c = elim (Bool-cases (could_wait env c)) [
    | inr late ↦
        not_resolved (waiting_error (waited env c)) late (waiting_error-fails _)
          (too_late env c late)
    | inl woken ↦ rw (in_time env c woken) (try_endpoints-Ends env c (peers env c) woken refl)
  ]
