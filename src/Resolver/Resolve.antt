-- ===== src/Resolver/Resolve.antt =====
-- What resolve guarantees.
use stream_client.Common.{
  ◌<◌, ◌≡◌, refl, ap, Bool, true, false, Option, none, some, List, [], ◌∷◌, ◌++◌, map, ℤ,
}
use stream_client.ErrorCode.{ErrorCode, would_block, value}
use stream_client.Clock.{IsNow}
use stream_client.Timed.Defs.{Limit, NeverDue, IsDisarmed}
use stream_client.Timed.Operation.{
  Event, timer, completes, Running, Outcome, returns, is_would_block, run_one,
}
use stream_client.Timed.Deadline.{first_due, first_due-IsNow, IsNow?, AllNow, fire}
use stream_client.Timed.Limits.{
  is_accepted, arms, expiry_under, scope_expire-accepted, release-IsDisarmed, release-posted,
  release_fired-IsDisarmed,
}
use stream_client.Timed.Completion.{completed, IsWaiting, run_until_set-completes}
use stream_client.Socket.Timeouts.{reported}
use stream_client.Resolver.Defs.{Resolver, cancel, async_resolve, resolved, resolve}

-- How a resolution ends: the endpoints and the code come back, the query was cancelled exactly if the
-- deadline fired, and no deadline is left on the timer.
pub record Resolves {E : Type 0} (r : Resolver) (fired : Option ℤ) (error : ErrorCode)
    (endpoints : List E) (out : Outcome (Resolver × List E × ErrorCode)) : Type 0 where
  pub after : Resolver
  pub gives : out ≡ returns (after, endpoints, reported fired error)
  pub cancels : after.cancelled ≡ elim fired [ none ↦ r.cancelled | some _ ↦ true ]
  pub disarmed : IsDisarmed after.timed
  pub still_posted : 0 < after.timed.posted
  pub same_timeout : after.resolve_timeout ≡ r.resolve_timeout
  pub same_query : after.query_version ≡ r.query_version

module _ {E : Type 0} (from_now : ℤ → ℤ → ℤ) (never_due : NeverDue from_now) (same : Bool) (now : ℤ)
    (limit : Limit) (r : Resolver) where
  abbrev resolving : Running Bool (List E)
  resolving = record {
    timed = record (r.timed) {
      deadline_fired = false;
      expires_at = expiry_under from_now now limit r.timed;
    };
    derived = r.cancelled;
    handle = record { armed = arms limit };
    ec = would_block;
    got = [];
    pending = true;
  }

  async_resolve-accepted :
      is_accepted limit ≡ true → async_resolve from_now now limit r ≡ value resolving
  unfolding async_resolve
  async_resolve-accepted h =
      let e = scope_expire-accepted from_now now limit r.timed h in
      rw (ap (λ x. x.1) e, async_resolve, ap (λ x. x.0) e)

  abbrev resolver_after : Running Bool (List E) → Resolver
  resolver_after x = record r { timed = x.timed; cancelled = x.derived }

  abbrev ended : ℤ → ErrorCode → List E → Option ℤ → Running Bool (List E)
  ended end_time error endpoints fired =
      completed from_now cancel (λ _ es. es) same end_time error endpoints fired resolving

  resolved-Resolves :
      (end_time : ℤ) (fired : Option ℤ) (error : ErrorCode) (endpoints : List E)
      → IsDisarmed r.timed
      → 0 < r.timed.posted
      → IsNow end_time
      → IsNow? fired
      → Resolves r fired error endpoints (resolved r (ended end_time error endpoints fired))
  unfolding resolved run_one cancel
  resolved-Resolves end_time none error endpoints idle posted clock times = record {
    after = resolver_after (ended end_time error endpoints none);
    gives = refl;
    cancels = refl;
    disarmed =
        release-IsDisarmed from_now never_due now end_time limit resolving.timed r.timed clock idle
          refl;
    still_posted = rw (release-posted from_now never_due) posted;
    same_timeout = refl;
    same_query = refl;
  }
  resolved-Resolves end_time (some t) error endpoints idle posted clock times = record {
    after = resolver_after (ended end_time error endpoints (some t));
    gives = refl;
    cancels = refl;
    disarmed =
        release_fired-IsDisarmed from_now never_due t end_time limit
          (fire from_now cancel (λ _ es. es) t resolving).timed clock times refl;
    still_posted = rw (release-posted from_now never_due) posted;
    same_timeout = refl;
    same_query = refl;
  }

  -- For a resolver without a deadline, under an accepted limit, and where the query does not report
  -- would_block, resolve returns once the query completes, with the endpoints that the query gives,
  -- beside an error too, and with its code, or timed_out where the deadline fired before; the query
  -- is cancelled exactly if it fired, no deadline is left on the timer, and the settings stay.
  pub resolve-Resolves :
      (ts : List ℤ) (end_time : ℤ) (error : ErrorCode) (endpoints : List E)
      (es : List (Event (List E)))
      → IsDisarmed r.timed
      → 0 < r.timed.posted
      → AllNow ts
      → IsNow end_time
      → is_accepted limit ≡ true
      → is_would_block same error ≡ false
      → Resolves r (first_due (expiry_under from_now now limit r.timed) ts) error endpoints (
          resolve from_now same now limit
            (map timer ts ++ completes end_time error endpoints ∷ es)
            r)
  unfolding resolve
  resolve-Resolves ts end_time error endpoints es idle posted times clock accepted final =
      let waiting : IsWaiting resolving = record {
        waits = refl;
        runs = refl;
        not_fired = refl;
        is_posted = posted;
      } in
      rw
        (
          async_resolve-accepted accepted,
          run_until_set-completes from_now never_due cancel (λ _ e. e) same ts end_time error
              endpoints es resolving waiting times final,
        )
        (resolved-Resolves end_time (first_due (expiry_under from_now now limit r.timed) ts) error
          endpoints idle posted clock
          (first_due-IsNow (expiry_under from_now now limit r.timed) ts times))
