-- ===== src/Connector/Dialing.antt =====
-- connect_until of impl/connector.ipp over the constructor of base_socket, and what new_session
-- then gives.
use stream_client.Common.{
  ◌≡◌, ap, sym, ◌∙◌, inl, inr, Bool, true, false, Option, none, some, some-inj, List, [], ◌∷◌, ◌++◌,
  map, arith, Bool-cases, ℤ, ltb_ℤ,
}
use stream_client.ErrorCode.{ErrorCode, success, timed_out, value, thrown, Throws}
use stream_client.Clock.{IsNow, sub_time, k_duration_resolution}
use stream_client.Timed.Defs.{lasting, NeverDue}
use stream_client.Timed.Operation.{
  timer, completes, Outcome, returns, returns-inj, throws, is_would_block,
}
use stream_client.Timed.Deadline.{AllNow}
use stream_client.Timed.Limits.{is_accepted}
use stream_client.Socket.Defs.{IsReady, BaseSocket, base_socket}
use stream_client.Socket.Connect.{Results, base_socket-Results, base_socket-refused}
use stream_client.Connector.Defs.{
  Connector, SessionEnv, connect_until, new_session, try_endpoints, give_up, act,
}
use stream_client.Connector.Session.{
  Ends, not_resolved, connected, gave_up, could_wait, peers, in_end, new_session-Ends, in_time,
}

-- What surrounds one run of the constructor of base_socket: its clock, whether the socket opens, the
-- timer's readings before the connection completes, with what, and what the options report.
pub record Dial : Type 0 where
  pub begins : ℤ
  pub opened : Bool
  pub readings : List ℤ
  pub done_time : ℤ
  pub error : ErrorCode
  pub options : List ErrorCode
  pub ends : ℤ

pub record IsDial (same : Bool) (d : Dial) : Type 0 where
  pub begins_now : IsNow d.begins
  pub readings_now : AllNow d.readings
  pub ends_now : IsNow d.ends
  pub final : is_would_block same d.error ≡ false

-- A constructor's outcome as the caller has it: an object, or an exception.
pub data Built {A : Type 0} : Outcome A → Throws A → Type 0 where
  built : (a : A) → Built (returns a) (value a)
  threw : (e : ErrorCode) → Built (throws e) (thrown e)

Built-value :
    {A : Type 0} {o : Outcome A} {t : Throws A} (a : A) → Built o t → t ≡ value a → o ≡ returns a
Built-value a (built b) e = ground arith
Built-value a (threw c) e = ground arith

Built-throws :
    {A : Type 0} {o : Outcome A} {t : Throws A} (c : ErrorCode)
    → Built o t
    → o ≡ throws c
    → t ≡ thrown c
Built-throws c (built b) e = ground arith
Built-throws c (threw d) e = ground arith

module _ {E : Type 0} (from_now : ℤ → ℤ → ℤ) (never_due : NeverDue from_now) (same : Bool)
    (operation_timeout : ℤ) (dial : E → Dial) (is_dial : (peer : E) → IsDial same (dial peer))
    (stream : E → ℤ → ℤ → Throws BaseSocket) where
  -- The constructor's outcome for a peer.
  abbrev pub constructed : E → ℤ → Outcome BaseSocket
  constructed peer connect_timeout =
      let d = dial peer in
      base_socket from_now same d.begins connect_timeout operation_timeout d.opened
        (map timer d.readings ++ completes d.done_time d.error tt ∷ []) d.options d.ends

  abbrev pub IsConstructor : Type 0
  IsConstructor =
      (peer : E) (connect_timeout : ℤ)
      → Built (constructed peer connect_timeout) (stream peer connect_timeout operation_timeout)

  Results-IsReady :
      (connect_timeout : ℤ) (o : Option ErrorCode) (out : Outcome BaseSocket) (s : BaseSocket)
      → Results connect_timeout operation_timeout o out
      → out ≡ returns s
      → IsReady operation_timeout s
  Results-IsReady ct none out s r e =
      let same_socket : r.after ≡ s = returns-inj (sym r.gives ∙ e) in
      record {
        is_opened = rw same_socket at r.opened;
        no_deadline = rw same_socket at r.disarmed;
        still_posted = rw same_socket at r.still_posted;
        mode = rw same_socket at r.mode;
        operations = rw same_socket at r.io_timeout;
      }
  Results-IsReady ct (some ec) out s r e = absurd (cc)

  constructed-IsReady :
      (peer : E) (connect_timeout : ℤ) (s : BaseSocket)
      → constructed peer connect_timeout ≡ returns s
      → IsReady operation_timeout s
  constructed-IsReady peer ct s e =
      let d = dial peer in
      let is = is_dial peer in
      elim (Bool-cases (is_accepted (lasting ct))) [
        | inr refused ↦ absurd (
            let thrown_ =
              base_socket-refused from_now never_due same d.begins ct operation_timeout d.opened
                d.options (map timer d.readings ++ completes d.done_time d.error tt ∷ []) d.ends
                refused in
            cc)
        | inl accepted ↦
            Results-IsReady ct _ (constructed peer ct) s
              (base_socket-Results from_now never_due same d.begins ct operation_timeout d.opened
                d.options d.readings d.done_time d.ends d.error [] accepted is.final is.begins_now
                is.readings_now is.ends_now)
              e
      ]

  -- If connect_until builds its streams by the constructor of base_socket, whose connection does
  -- not report would_block, then every session that new_session gives is open, has no deadline on
  -- its timer, has the timeouts of its operations switched on and the connector's operation
  -- timeout.
  pub new_session-IsReady :
      (env : SessionEnv E BaseSocket) (c : Connector E) (clock deadline : ℤ) (s : BaseSocket)
      → IsConstructor
      → env.connect ≡ connect_until clock operation_timeout stream deadline
      → (new_session env success c).1 ≡ some s
      → IsReady operation_timeout s
  unfolding connect_until
  new_session-IsReady env c clock deadline s builds dials e =
      go (new_session env success c) (new_session-Ends env c) e
    where
      go :
          (r : Connector E × Option BaseSocket × ErrorCode)
          → Ends env c r
          → r.1 ≡ some s
          → IsReady operation_timeout s
      go r (not_resolved code h k f) g = absurd (let x = ap (λ x. x.1) f in cc)
      go r (connected peer rest session h k given f) g =
          let same_session : session ≡ s = some-inj (sym (ap (λ x. x.1) f) ∙ g) in
          constructed-IsReady peer (sub_time deadline clock) s (
            Built-value s (builds peer (sub_time deadline clock))
              (ap (λ f. f peer) (sym dials) ∙ given ∙ ap value same_session))
      go r (gave_up code h k l f) g = absurd (let x = ap (λ x. x.1) f in cc)

  -- If the endpoints are there but less than a microsecond is left until the deadline, new_session
  -- gives no session, reports timed_out and asks the resolver for endpoints.
  pub new_session-too_late :
      (env : SessionEnv E BaseSocket) (c : Connector E) (clock deadline : ℤ) (peer : E)
      (rest : List E)
      → IsConstructor
      → env.connect ≡ connect_until clock operation_timeout stream deadline
      → ltb_ℤ (sub_time deadline clock) k_duration_resolution ≡ true
      → could_wait env c ≡ true
      → peers env c ≡ peer ∷ rest
      → new_session env success c
        ≡ (record (in_end env c) { resolve_needed = true }, none, timed_out)
  unfolding connect_until try_endpoints give_up act
  new_session-too_late env c clock deadline peer rest builds dials late waited found =
      in_time env c waited ∙ rw (found, try_endpoints, fails, try_endpoints)
    where
      fails : env.connect peer ≡ thrown timed_out
      fails =
          ap (λ f. f peer) dials
          ∙ Built-throws timed_out (builds peer (sub_time deadline clock)) (
              base_socket-refused from_now never_due same (dial peer).begins
                (sub_time deadline clock) operation_timeout (dial peer).opened (dial peer).options
                (map timer (dial peer).readings
                  ++ completes (dial peer).done_time (dial peer).error tt ∷ [])
                (dial peer).ends (rw late))
