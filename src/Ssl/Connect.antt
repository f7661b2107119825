-- ===== src/Ssl/Connect.antt =====
-- The constructor of stream_socket of impl/ssl_stream_socket.ipp.
use stream_client.Common.{◌<◌, ◌≡◌, refl, ap, ◌∙◌, ◌⊎◌, inl, inr, true, false, none, Bool-cases, ℤ}
use stream_client.ErrorCode.{ErrorCode, Throws, value, thrown, failed}
use stream_client.Clock.{IsNow, add_time}
use stream_client.Timed.Defs.{until, NeverDue, release}
use stream_client.Socket.Defs.{BaseSocket, IsReady}
use stream_client.Ssl.Defs.{stream_socket, handshake, or_thrown}
use stream_client.Ssl.Modes.{under_limit, limited_lem}

-- Documented behaviour of a handshake: it does not change the settings of the socket below,
-- closes that socket only where it reports an error, and takes no wait off its timer.
pub record HandshakeLaws (shake : BaseSocket → BaseSocket × Unit {0} × ErrorCode) : Type 0 where
  pub same_timeout : (s : BaseSocket) → (shake s).0.io_operation_timeout ≡ s.io_operation_timeout
  pub stays_open : (s : BaseSocket) → failed (shake s).2 ≡ false → (shake s).0.is_open ≡ s.is_open
  pub stays_posted : (s : BaseSocket) → 0 < s.timed.posted → 0 < (shake s).0.timed.posted

module _ (from_now : ℤ → ℤ → ℤ) (never_due : NeverDue from_now) (now connect_timeout started : ℤ)
    (shake : BaseSocket → BaseSocket × Unit {0} × ErrorCode) (laws : HandshakeLaws shake)
    (end_time : ℤ) (clock : IsNow end_time) (s : BaseSocket) where
  -- The socket below as the handshake finds it.
  abbrev pub shaking : BaseSocket
  shaking = under_limit from_now started (until (add_time now connect_timeout)) s

  abbrev after : BaseSocket
  after = record ((shake shaking).0) {
    timed = release from_now end_time (record { armed = true }) (shake shaking).0.timed;
    io_timeouted = s.io_timeouted;
  }

  handshake_lem :
      handshake from_now started (until (add_time now connect_timeout)) shake end_time s
      ≡ (after, value ((shake shaking).1, (shake shaking).2))
  unfolding handshake
  handshake_lem =
      limited_lem from_now never_due started (until (add_time now connect_timeout)) shake end_time s
        refl

  after-IsReady :
      (operation_timeout : ℤ)
      → IsReady operation_timeout s
      → failed (shake shaking).2 ≡ false
      → IsReady operation_timeout after
  unfolding release
  after-IsReady ot ready fine = record {
    is_opened = laws.stays_open shaking fine ∙ ready.is_opened;
    no_deadline = λ u k. never_due end_time clock u k;
    still_posted = laws.stays_posted shaking ready.still_posted;
    mode = ready.mode;
    operations = laws.same_timeout shaking ∙ ready.operations;
  }

  shaken : BaseSocket × Throws (Unit {0} × ErrorCode) → Throws BaseSocket
  shaken x = elim (or_thrown x.1) [ value u ↦ value (x.0) | thrown ec ↦ thrown ec ]

  stream_socket-shakes :
      stream_socket from_now now connect_timeout (value s) none true started shake end_time
      ≡ shaken (after, value ((shake shaking).1, (shake shaking).2))
  unfolding stream_socket shaken
  stream_socket-shakes = ap shaken handshake_lem

  -- If the socket below is connected and ready for its first operation, and a handshake keeps the
  -- settings of that socket and closes it only with an error, then the constructor of the TLS
  -- socket, which verifies its peer, throws the handshake's error if there is one, and otherwise
  -- gives a socket that is open, has no deadline on its timer, has the timeouts of its operations
  -- switched on and the same operation timeout.
  pub stream_socket-result :
      (operation_timeout : ℤ)
      → IsReady operation_timeout s
      → let r =
          stream_socket from_now now connect_timeout (value s) none true started shake end_time in
        ((failed (shake shaking).2 ≡ true) × (r ≡ thrown (shake shaking).2))
        ⊎ ((failed (shake shaking).2 ≡ false)
            × (t : BaseSocket) × (r ≡ value t)
            × IsReady operation_timeout t)
  unfolding shaken or_thrown
  stream_socket-result ot ready = elim (Bool-cases (failed (shake shaking).2)) [
    | inl bad ↦ inl (bad, stream_socket-shakes ∙ rw (shaken, bad))
    | inr fine ↦
        inr (fine, after, stream_socket-shakes ∙ rw (shaken, fine), after-IsReady ot ready fine)
  ]
