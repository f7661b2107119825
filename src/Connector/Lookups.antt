-- ===== src/Connector/Lookups.antt =====
-- resolve_routine of impl/connector.ipp over resolve of impl/resolver.ipp.
use stream_client.Common.{
  ◌<◌, ◌≡◌, refl, ap, ◌∙◌, inl, inr, Bool, true, false, not, ◌||◌, Option, List, [], ◌∷◌, ◌++◌, map,
  arith, if◌then◌else◌, Bool-cases, ℤ,
}
use stream_client.ErrorCode.{ErrorCode}
use stream_client.Clock.{IsNow}
use stream_client.Timed.Defs.{timed_base, lasting, NeverDue, IsDisarmed}
use stream_client.Timed.Operation.{Event, timer, completes, Outcome, returns, is_would_block}
use stream_client.Timed.Deadline.{AllNow}
use stream_client.Timed.Limits.{is_accepted}
use stream_client.Timed.Fires.{fires_under, fires_under_lem}
use stream_client.Socket.Defs.{after_loop}
use stream_client.Socket.Timeouts.{reported}
use stream_client.Resolver.Defs.{IpFamily, Resolver, base_resolver, resolve}
use stream_client.Resolver.Resolve.{Resolves, resolve-Resolves}
use stream_client.Connector.Defs.{
  Connector, Action, act_all, RoundEnv, after_resolve, resolve_round, resolve_routine,
}

-- What surrounds one round of the thread: as in RoundEnv, and for its query the clock at the start,
-- the timer's readings before it completes, when, and with what.
pub record Lookup (E : Type 0) : Type 0 where
  pub running : Bool
  pub locked : Bool
  pub before : List (Action E)
  pub starts : ℤ
  pub readings : List ℤ
  pub ends : ℤ
  pub error : ErrorCode
  pub endpoints : List E

-- A resolver between two queries.
pub record IsIdle (resolve_timeout : ℤ) (r : Resolver) : Type 0 where
  pub disarmed : IsDisarmed r.timed
  pub still_posted : 0 < r.timed.posted
  pub same_timeout : r.resolve_timeout ≡ resolve_timeout

-- A new resolver is one.
pub base_resolver-IsIdle :
    (from_now : ℤ → ℤ → ℤ) (now resolve_timeout : ℤ) (protocol : IpFamily)
    → NeverDue from_now
    → IsNow now
    → IsIdle resolve_timeout (base_resolver from_now now resolve_timeout protocol)
unfolding base_resolver timed_base
base_resolver-IsIdle from_now now resolve_timeout protocol never_due n = record {
  disarmed = never_due now n;
  still_posted = omega arith;
  same_timeout = refl;
}

module _ {E : Type 0} (from_now : ℤ → ℤ → ℤ) (same : Bool) where
  -- One round, its call of resolver_.resolve(resolve_ec) included.
  unfoldable pub thread_round : Lookup E → Resolver × Connector E → Outcome (Resolver × Connector E)
  unfolding act_all after_resolve resolve after_loop
  thread_round l (r, c) =
      let ready = act_all l.before c in
      let found =
        resolve from_now same l.starts (lasting r.resolve_timeout)
          (map timer l.readings ++ completes l.ends l.error l.endpoints ∷ []) r in
      if not l.locked || not ready.resolve_needed
      then returns (r, ready)
      else after_loop (λ x. returns (x.0, act_all (after_resolve x.2 x.1) ready)) found

  -- The loop, over the rounds that the destructor lets it run.
  unfoldable pub thread_routine :
      List (Lookup E) → Resolver × Connector E → Outcome (Resolver × Connector E)
  unfolding thread_round after_loop
  thread_routine [] x = returns x
  thread_routine (l ∷ ls) x =
      let rest = after_loop (thread_routine ls) (thread_round l x) in
      if l.running then rest else returns x

  -- A round whose query completes for good.
  pub record IsLookup (l : Lookup E) : Type 0 where
    pub times : AllNow l.readings
    pub end_clock : IsNow l.ends
    pub final : is_would_block same l.error ≡ false

  abbrev pub AllLookups : List (Lookup E) → Type 0
  AllLookups [] = Unit
  AllLookups (l ∷ ls) = IsLookup l × AllLookups ls

  -- The round as resolve_routine has it: the query's result under the timeout alone.
  abbrev pub round_of : (resolve_timeout : ℤ) → Lookup E → RoundEnv E
  round_of resolve_timeout l = record {
    running = l.running;
    locked = l.locked;
    before = l.before;
    resolve_ec =
        reported (fires_under from_now (lasting resolve_timeout) l.starts l.readings) l.error;
    resolved = l.endpoints;
  }

  -- What a run of the thread gives.
  pub record Looks (resolve_timeout : ℤ) (c : Connector E) (out : Outcome (Resolver × Connector E))
      : Type 0 where
    pub after : Resolver
    pub gives : out ≡ returns (after, c)
    pub idle : IsIdle resolve_timeout after

module _ {E : Type 0} (from_now : ℤ → ℤ → ℤ) (never_due : NeverDue from_now) (same : Bool) where
  thread_round-Looks :
      (resolve_timeout : ℤ) (l : Lookup E) (r : Resolver) (c : Connector E)
      → is_accepted (lasting resolve_timeout) ≡ true
      → IsLookup from_now same l
      → IsIdle resolve_timeout r
      → Looks from_now same resolve_timeout
          (resolve_round (round_of from_now same resolve_timeout l) c)
          (thread_round from_now same l (r, c))
  unfolding thread_round resolve_round
  thread_round-Looks timeout l r c accepted is idle =
      elim (Bool-cases (not l.locked || not (act_all l.before c).resolve_needed)) [
        | inl waits ↦ rw waits (record { after = r; gives = refl; idle = idle })
        | inr runs ↦ rw runs (record {
          after = found.after;
          gives = rw found_lem;
          idle = record {
            disarmed = found.disarmed;
            still_posted = found.still_posted;
            same_timeout = found.same_timeout ∙ idle.same_timeout;
          };
        })
      ]
    where
      schedule : List (Event (List E))
      schedule = map timer l.readings ++ completes l.ends l.error l.endpoints ∷ []

      fires : Option ℤ
      fires = fires_under from_now (lasting timeout) l.starts l.readings

      found :
          Resolves r fires l.error l.endpoints
            (resolve from_now same l.starts (lasting timeout) schedule r)
      found =
          rw⁻¹
            (fires_under_lem from_now (lasting timeout) l.starts l.readings r.timed idle.disarmed
              is.times)
            (resolve-Resolves from_now never_due same l.starts (lasting timeout) r l.readings l.ends
              l.error l.endpoints [] idle.disarmed idle.still_posted is.times is.end_clock accepted
              is.final)

      found_lem :
          resolve from_now same l.starts (lasting r.resolve_timeout) schedule r
          ≡ returns (found.after, l.endpoints, reported fires l.error)
      found_lem =
          ap (λ d. resolve from_now same l.starts (lasting d) schedule r) idle.same_timeout
          ∙ found.gives

  -- Under an accepted resolve timeout, and where no query reports would_block, the connector's
  -- thread with its calls of resolve leaves what resolve_routine does of rounds in which each query
  -- has the result that it has by the resolve timeout alone, timed_out if its deadline fires; and
  -- the resolver has no deadline left, so that a query that timed out does not cut a later one
  -- short.
  pub thread_routine-Looks :
      (resolve_timeout : ℤ) (ls : List (Lookup E)) (r : Resolver) (c : Connector E)
      → is_accepted (lasting resolve_timeout) ≡ true
      → AllLookups from_now same ls
      → IsIdle resolve_timeout r
      → Looks from_now same resolve_timeout
          (resolve_routine (map (round_of from_now same resolve_timeout) ls) c)
          (thread_routine from_now same ls (r, c))
  unfolding thread_routine resolve_routine
  thread_routine-Looks timeout [] r c accepted h idle = record {
    after = r;
    gives = refl;
    idle = idle;
  }
  thread_routine-Looks timeout (l ∷ ls) r c accepted h idle =
      let one = thread_round-Looks timeout l r c accepted h.0 idle in
      let rest =
        thread_routine-Looks timeout ls one.after
          (resolve_round (round_of from_now same timeout l) c) accepted h.1 one.idle in
      elim (Bool-cases l.running) [
        | inr stopped ↦ rw stopped (record { after = r; gives = refl; idle = idle })
        | inl running ↦ rw (running, one.gives, after_loop) rest
      ]
