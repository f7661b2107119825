-- ===== src/Socket/Close.antt =====
-- stream_socket::close.
use stream_client.Common.{◌≡◌, refl, ◌≢◌, ◌⊎◌, inl, inr, true, false, some, [], ◌∷◌, ◌++◌, ℤ}
use stream_client.ErrorCode.{ErrorCode, not_connected, success}
use stream_client.Socket.Defs.{BaseSocket, close}
use stream_client.Socket.Stream.{close_gracefully, is_not_connected}
use stream_client.Pool.Defs.{Pool, return_session, act}

is_not_connected-cases :
    (ec : ErrorCode)
    → ((is_not_connected ec ≡ true) × (ec ≡ not_connected))
      ⊎ ((is_not_connected ec ≡ false) × (ec ≢ not_connected))
is_not_connected-cases not_connected = inl (refl, refl)
is_not_connected-cases ec = inr (refl, λ e. cc)

-- close() of stream_socket closes the asio socket exactly where shutdown() reports not_connected,
-- and then reports what closing says; in every other case, success included, it reports what
-- shutdown() said and leaves the socket as it was.
pub close_gracefully-result :
    (shut closed : ErrorCode) (s : BaseSocket)
    → ((shut ≡ not_connected)
        × (close_gracefully shut closed s ≡ (record s { is_open = false }, closed)))
      ⊎ ((shut ≢ not_connected) × (close_gracefully shut closed s ≡ (s, shut)))
unfolding close_gracefully close
close_gracefully-result shut closed s = elim (is_not_connected-cases shut) [
  | inl (test, e) ↦ inl (e, rw test)
  | inr (test, ne) ↦ inr (ne, rw test)
]

-- If shutdown() reports success on an open socket, close() of stream_socket reports success and
-- leaves the socket open, and return_session puts it back into the pool.
pub closed_session-returns :
    (closed : ErrorCode) (s : BaseSocket) (now : ℤ) (p : Pool BaseSocket)
    → s.is_open ≡ true
    → let r = close_gracefully success closed s in
      (r.1 ≡ success)
      × (return_session (λ x. x.is_open) (some r.0) true now p
          ≡ record p { sesson_pool = p.sesson_pool ++ (now, s) ∷ [] })
unfolding close_gracefully return_session act
closed_session-returns closed s now p h = (refl, rw h)
