-- ===== src/Resolver/Defs.antt =====
-- include/stream-client/resolver/resolver.hpp and impl/resolver.ipp.
-- `E`: endpoints. What the resolver of asio reports is an argument.
use stream_client.Common.{Bool, true, false, Option, none, some, List, [], if◌then◌else◌, ℤ}
use stream_client.ErrorCode.{ErrorCode, would_block, Throws, value, thrown, failed}
use stream_client.Timed.Defs.{Timed, Limit, lasting, timed_base, scope_expire}
use stream_client.Timed.Operation.{Event, Running, Outcome, returns, throws, run_until_set}
use stream_client.Socket.Defs.{after_loop}
use stream_client.Socket.Stream.{from_start}

pub data IpFamily : Type 0 where
  ipv4 ipv6 any : IpFamily

-- The protocol of a query, if it names one.
pub data Version : Type 0 where
  v4 v6 : Version

-- `cancelled`: whether the deadline has called cancel() of asio's resolver.
pub record Resolver : Type 0 where
  pub timed : Timed
  pub resolve_timeout : ℤ
  pub query_version : Option Version
  pub cancelled : Bool

unfoldable pub query_of : IpFamily → Option Version
query_of ipv4 = some v4
query_of ipv6 = some v6
query_of any = none

-- The constructor at time `now`.
unfoldable pub base_resolver : (from_now : ℤ → ℤ → ℤ) → ℤ → ℤ → IpFamily → Resolver
unfolding timed_base query_of
base_resolver from_now now resolve_timeout protocol = record {
  timed = timed_base from_now now;
  resolve_timeout = resolve_timeout;
  query_version = query_of protocol;
  cancelled = false;
}

-- deadline_actor: cancel()
unfoldable pub cancel : Bool → Bool
cancel cancelled = true

-- resolve_timeout(new_resolve_timeout): the old value comes back.
unfoldable pub set_resolve_timeout : ℤ → Resolver → Resolver × ℤ
set_resolve_timeout new_resolve_timeout r =
    (record r { resolve_timeout = new_resolve_timeout }, r.resolve_timeout)

module _ {E : Type 0} where
  -- async_resolve under its expiration.
  unfoldable pub async_resolve :
      (from_now : ℤ → ℤ → ℤ) → ℤ → Limit → Resolver → Throws (Running Bool (List E))
  unfolding scope_expire
  async_resolve from_now now limit r =
      let expire = scope_expire from_now now limit r.timed in
      elim expire.1 [
        | thrown ec ↦ thrown ec
        | value handle ↦ value (record {
          timed = expire.0;
          derived = r.cancelled;
          handle = handle;
          ec = would_block;
          got = [];
          pending = true;
        })
      ]

  unfoldable pub resolved :
      Resolver → Running Bool (List E) → Outcome (Resolver × List E × ErrorCode)
  resolved r x = returns (record r { timed = x.timed; cancelled = x.derived }, x.got, x.ec)

  -- resolve(ec, timeout_or_deadline)
  unfoldable pub resolve :
      (from_now : ℤ → ℤ → ℤ)
      → (same : Bool) → ℤ
      → Limit
      → List (Event (List E))
      → Resolver
      → Outcome (Resolver × List E × ErrorCode)
  unfolding after_loop from_start
  resolve from_now same now limit events r =
      from_start
        (λ x.
          after_loop (resolved r)
            (run_until_set from_now cancel (λ _ endpoints. endpoints) same events x))
        (async_resolve from_now now limit r)

  -- resolve(): the current timeout, and an exception for an error.
  unfoldable pub resolve_or_throw :
      (from_now : ℤ → ℤ → ℤ)
      → (same : Bool) → ℤ
      → List (Event (List E))
      → Resolver
      → Outcome (Resolver × List E)
  unfolding resolve after_loop
  resolve_or_throw from_now same now events r =
      after_loop (λ x. if failed x.2 then throws x.2 else returns (x.0, x.1))
        (resolve from_now same now (lasting r.resolve_timeout) events r)
