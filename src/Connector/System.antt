-- ===== src/Connector/System.antt =====
-- The threads of a connector in steps (include/stream-client/connector/connector.hpp and
-- impl/connector.ipp): the resolving thread in resolve_routine and any number of threads that each
-- call new_session. A step is one critical section, or one call made outside of the sections.
-- When a deadline passes and what resolve() gives is free; `connect` and `shuffle` give what
-- connect_until and shuffle_vector do in each call.
use stream_client.Common.{
  ◌≡◌, ℕ, Bool, true, false, not, Option, none, some, List, [], ◌∷◌, if◌then◌else◌, ◌==◌,
  Bool-cases, inl, inr, arith,
}
use stream_client.ErrorCode.{ErrorCode, success, Throws, value, thrown, failed}
use stream_client.Connector.Defs.{
  Connector, Action, sets_error, takes_up, updates, notifies_done, notifies_needed, act,
  base_connector, waiting_error,
}

-- What a step shows of itself: the start of resolve(), an action on the shared state, or nothing.
pub data Label (E : Type 0) : Type 0 where
  begins : Label E
  acts : Action E → Label E
  rests : Label E

-- Where the resolving thread stands. It holds resolve_needed_mutex_ from `resolving` to `updated`.
pub data Resolving (E : Type 0) : Type 0 where
  idle : Resolving E
  resolving : Resolving E  -- in resolve()
  resolved : ErrorCode → List E → Resolving E  -- before set_resolve_error
  told : ErrorCode → List E → Resolving E  -- behind it
  taken : List E → Resolving E  -- before update_endpoints
  updated : Resolving E  -- behind it
  unlocked : Resolving E  -- before notify_resolve_done
  stopped : Resolving E

-- Where a call of new_session stands.
pub data Calling (E S : Type 0) : Type 0 where
  called : Calling E S  -- before the end of the wait
  denied : Calling E S  -- the wait has failed, before get_resolve_error
  admitted : Calling E S  -- before get_endpoints
  dialing : List E → Calling E S  -- in the loop over the shuffled endpoints
  lost : ErrorCode → Calling E S  -- behind the loop
  asking : ErrorCode → Calling E S  -- before notify_resolve_needed
  done : Option S → ErrorCode → Calling E S

unfoldable pub holds : {E : Type 0} → Resolving E → Bool
holds idle = false
holds resolving = true
holds (resolved ec es) = true
holds (told ec es) = true
holds (taken es) = true
holds updated = true
holds unlocked = false
holds stopped = false

-- A step of the resolving thread, which finds the connector `c`.
pub data ThreadStep {E : Type 0} (c : Connector E)
    : Resolving E → Label E → Resolving E → Type 0 where
  misses : ThreadStep c idle rests idle
  stops : ThreadStep c idle rests stopped
  starts : c.resolve_needed ≡ true → ThreadStep c idle begins resolving
  gets : (ec : ErrorCode) (es : List E) → ThreadStep c resolving rests (resolved ec es)
  tells :
      (ec : ErrorCode) (es : List E)
      → ThreadStep c (resolved ec es) (acts (sets_error ec)) (told ec es)
  fails : (ec : ErrorCode) (es : List E) → failed ec ≡ true → ThreadStep c (told ec es) rests idle
  takes :
      (ec : ErrorCode) (es : List E)
      → failed ec ≡ false
      → ThreadStep c (told ec es) (acts takes_up) (taken es)
  stores : (es : List E) → ThreadStep c (taken es) (acts (updates es)) updated
  unlocks : ThreadStep c updated rests unlocked
  announces : ThreadStep c unlocked (acts notifies_done) idle

-- A step of a call; `held`: the resolving thread holds resolve_needed_mutex_.
pub data CallStep {E S : Type 0} (connect : E → Throws S) (shuffle_vector : List E → List E)
    (held : Bool) (c : Connector E) : Calling E S → Label E → Calling E S → Type 0 where
  expires : CallStep connect shuffle_vector held c called rests denied
  enters : c.resolve_done ≡ true → CallStep connect shuffle_vector held c called rests admitted
  reports : CallStep connect shuffle_vector held c denied rests (done none (waiting_error c))
  reads :
      CallStep connect shuffle_vector held c admitted rests (dialing (shuffle_vector c.endpoints))
  ends_empty : CallStep connect shuffle_vector held c (dialing []) rests (lost success)
  connects :
      (peer : E) (rest : List E) (s : S)
      → connect peer ≡ value s
      → CallStep connect shuffle_vector held c (dialing (peer ∷ rest)) rests (done (some s) success)
  breaks :
      (peer : E) (rest : List E) (code : ErrorCode)
      → connect peer ≡ thrown code
      → CallStep connect shuffle_vector held c (dialing (peer ∷ rest)) rests (lost code)
  decides :
      (ec : ErrorCode)
      → CallStep connect shuffle_vector held c
          (lost ec)
          rests
          (asking (if not (failed ec) then c.resolve_error else ec))
  asks :
      (ec : ErrorCode)
      → held ≡ false
      → CallStep connect shuffle_vector held c (asking ec) (acts notifies_needed) (done none ec)

unfoldable pub apply : {E : Type 0} → Label E → Connector E → Connector E
unfolding act
apply begins c = c
apply (acts a) c = act a c
apply rests c = c

-- Each call of new_session has a number.
pub record System (E S : Type 0) : Type 0 where
  pub connector : Connector E
  pub thread : Resolving E
  pub calls : ℕ → Calling E S

unfoldable pub start : {E S : Type 0} → System E S
start = record { connector = base_connector; thread = idle; calls = λ i. called }

-- The call `i` goes on to `p`.
abbrev pub moved : {A : Type 0} → (ℕ → A) → ℕ → A → ℕ → A
moved f i p j = if i == j then p else f j

pub moved-All :
    {A : Type 0} (P : ℕ → A → Type 0) (f : ℕ → A) (i : ℕ) (p : A)
    → P i p
    → ((j : ℕ) → P j (f j))
    → (j : ℕ) → P j (moved f i p j)
moved-All P f i p h all j = elim (Bool-cases (i == j)) [
  | inl e ↦ rw e (let same : i ≡ j = ground arith in rw (← same) h)
  | inr e ↦ rw e (all j)
]

module _ {E S : Type 0} (connect : ℕ → E → Throws S) (shuffle : ℕ → List E → List E) where
  pub data Step (s : System E S) : Label E → System E S → Type 0 where
    thread_step :
        {e : Label E} {p : Resolving E}
        → ThreadStep s.connector s.thread e p
        → Step s e (record s { connector = apply e s.connector; thread = p })
    call_step :
        (i : ℕ) {e : Label E} {p : Calling E S}
        → CallStep (connect i) (shuffle i) (holds s.thread) s.connector (s.calls i) e p
        → Step s e (record s { connector = apply e s.connector; calls = moved s.calls i p })

  -- A run, with what its steps show, the latest first.
  pub data Run (s : System E S) : List (Label E) → System E S → Type 0 where
    here : Run s [] s
    next :
        {tr : List (Label E)} {e : Label E} {t u : System E S}
        → Run s tr t
        → Step t e u
        → Run s (e ∷ tr) u
