-- ===== src/Socket/Defs.antt =====
-- include/stream-client/stream/base_socket.hpp and impl/base_socket.ipp.
-- Of the asio socket the model keeps whether it is open; what its calls report is an argument.
use stream_client.Common.{◌≡◌, ◌<◌, Bool, true, false, not, List, [], ◌∷◌, if◌then◌else◌, ℤ}
use stream_client.ErrorCode.{
  ErrorCode, would_block, operation_aborted, Throws, value, thrown, failed,
}
use stream_client.Clock.{k_infinite_duration}
use stream_client.Timed.Defs.{
  Timed, lasting, Expiration, timed_base, scope_expire, release, IsDisarmed,
}
use stream_client.Timed.Operation.{Event, Running, Outcome, returns, throws, blocks, run_until_set}

pub record BaseSocket : Type 0 where
  pub timed : Timed
  pub is_open : Bool
  pub connection_timeout : ℤ
  pub io_operation_timeout : ℤ
  pub io_timeouted : Bool

unfoldable pub io_timeout : BaseSocket → ℤ
io_timeout s = if s.io_timeouted then s.io_operation_timeout else k_infinite_duration

-- io_timeout(new_io_timeout): the old value comes back.
unfoldable pub set_io_timeout : ℤ → BaseSocket → BaseSocket × ℤ
set_io_timeout new_io_timeout s =
    (record s { io_operation_timeout = new_io_timeout }, s.io_operation_timeout)

unfoldable pub io_timeout_enabled : BaseSocket → Bool
io_timeout_enabled s = s.io_timeouted

-- io_timeout_enabled(new_mode): the old mode comes back.
unfoldable pub set_io_timeout_enabled : Bool → BaseSocket → BaseSocket × Bool
set_io_timeout_enabled new_mode s = (record s { io_timeouted = new_mode }, s.io_timeouted)

-- close() of asio, which closes the descriptor also where it reports an error.
unfoldable pub close : ErrorCode → BaseSocket → BaseSocket × ErrorCode
close reported s = (record s { is_open = false }, reported)

-- What deadline_actor does to the asio socket: close(), its error ignored.
unfoldable pub deadline_actor : Bool → Bool
deadline_actor is_open = false

-- `set_option`, `get_option`, `local_endpoint`, `remote_endpoint`: the throwing overloads.
unfoldable pub or_error : {A : Type 0} → ErrorCode → A → Throws A
or_error ec a = if failed ec then thrown ec else value a

-- The options that the constructor sets, by what each call reports.
unfoldable pub set_options : List ErrorCode → Throws (Unit {0})
unfolding or_error
set_options [] = value tt
set_options (reported ∷ more) = elim (or_error reported (tt {0})) [
  | value _ ↦ set_options more
  | thrown ec ↦ thrown ec
]

unfoldable pub after_loop : {A B : Type 0} → (A → Outcome B) → Outcome A → Outcome B
after_loop f (returns a) = f a
after_loop f (throws ec) = throws ec
after_loop f blocks = blocks

-- A socket that is ready for its first operation, under some operation timeout.
pub record IsReady (operation_timeout : ℤ) (s : BaseSocket) : Type 0 where
  pub is_opened : s.is_open ≡ true
  pub no_deadline : IsDisarmed s.timed
  pub still_posted : 0 < s.timed.posted
  pub mode : s.io_timeouted ≡ true
  pub operations : s.io_operation_timeout ≡ operation_timeout

module _ (from_now : ℤ → ℤ → ℤ) (same : Bool) where
  -- The end of the constructor, after the loop: its own expiration ends whatever happens.
  unfoldable pub finish_connect :
      List ErrorCode → ℤ → Expiration → BaseSocket → Running Bool (Unit {0}) → Outcome BaseSocket
  unfolding set_options release set_io_timeout_enabled
  finish_connect options end_time handle s r =
      if failed r.ec
      then throws r.ec
      else if not r.derived
      then throws operation_aborted
      else elim (set_options options) [
        | thrown ec ↦ throws ec
        | value _ ↦ returns (record s {
          timed = release from_now end_time handle r.timed;
          is_open = r.derived;
          io_timeouted = true;
        })
      ]

  -- The constructor at time `now`. `opened`: whether async_connect could open the socket; `options`:
  -- what the set_option calls report; `end_time`: the clock at the end.
  unfoldable pub base_socket :
      (now : ℤ) (connect_timeout operation_timeout : ℤ) (opened : Bool)
      → List (Event (Unit {0}))
      → (options : List ErrorCode) (end_time : ℤ) → Outcome BaseSocket
  unfolding timed_base scope_expire run_until_set finish_connect after_loop deadline_actor
  base_socket now connect_timeout operation_timeout opened events options end_time =
      let expire = scope_expire from_now now (lasting connect_timeout) (timed_base from_now now) in
      let s : BaseSocket = record {
        timed = expire.0;
        is_open = opened;
        connection_timeout = connect_timeout;
        io_operation_timeout = operation_timeout;
        io_timeouted = false;
      } in
      elim expire.1 [
        | thrown ec ↦ throws ec
        | value handle ↦ after_loop (finish_connect options end_time handle s) (
            run_until_set from_now deadline_actor (λ _ r. r) same events
              (record {
                timed = expire.0;
                derived = opened;
                handle = record { armed = false };
                ec = would_block;
                got = tt;
                pending = true;
              }))
      ]
