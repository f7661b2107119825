-- ===== src/Connector/Calls.antt =====
-- The overloads of connector/connector.hpp that take a duration or none, and the connector's
-- timeouts. `env deadline` is what surrounds a call of new_session under that deadline.
use stream_client.Common.{Option, ℤ}
use stream_client.ErrorCode.{ErrorCode, success, Throws}
use stream_client.Clock.{add_time}
use stream_client.Connector.Defs.{Connector, SessionEnv, new_session, session_or_throw}

-- resolve_timeout_, connect_timeout_ and operation_timeout_, which are constants.
pub record TimeoutSettings : Type 0 where
  pub resolve_timeout : ℤ
  pub connect_timeout : ℤ
  pub operation_timeout : ℤ

unfoldable pub get_resolve_timeout : TimeoutSettings → ℤ
get_resolve_timeout x = x.resolve_timeout

unfoldable pub get_connect_timeout : TimeoutSettings → ℤ
get_connect_timeout x = x.connect_timeout

unfoldable pub get_operation_timeout : TimeoutSettings → ℤ
get_operation_timeout x = x.operation_timeout

module _ {E S : Type 0} (env : ℤ → SessionEnv E S) (now : ℤ) where
  -- new_session(ec, timeout)
  unfoldable pub new_session_for :
      (timeout : ℤ) → ErrorCode → Connector E → Connector E × Option S × ErrorCode
  unfolding new_session add_time
  new_session_for timeout ec c = new_session (env (add_time now timeout)) ec c

  -- new_session(ec)
  unfoldable pub new_session_default :
      TimeoutSettings → ErrorCode → Connector E → Connector E × Option S × ErrorCode
  unfolding new_session_for get_connect_timeout
  new_session_default x ec c = new_session_for (get_connect_timeout x) ec c

  -- new_session()
  unfoldable pub new_session_default_or_throw :
      TimeoutSettings → Connector E → Connector E × Throws S
  unfolding new_session_default session_or_throw
  new_session_default_or_throw x c =
      let got = new_session_default x success c in (got.0, session_or_throw got.1 got.2)
