-- ===== src/Http/Stops.antt =====
-- What becomes of the stream below an HTTP socket (impl/http_socket.ipp), when each operation on it
-- either leaves it in use, or stops it and reports timed_out.
use stream_client.Common.{
  ℕ, zero, suc, ◌≡◌, refl, ap, ◌⊎◌, inl, inr, true, false, not, ◌&&◌, Option, none, some, arith,
  Bool-cases, Option-cases,
}
use stream_client.ErrorCode.{ErrorCode, timed_out, failed}
use stream_client.Http.Defs.{
  Serializer, Parser, Buffer, Turn, continues, breaks, is_eof, is_need_more, at_eof, parse,
  recv_turn, read_size, recv_loop, recv_response, write_next, consumed, send_request, perform,
}

module _ {T : Type 0} (InUse Stopped : T → Type 0) where
  -- How an operation leaves the stream.
  abbrev pub Leaves : T → ErrorCode → Type 0
  Leaves t ec = InUse t ⊎ (Stopped t × (ec ≡ timed_out))

  pub used_if_fine : (t : T) (ec : ErrorCode) → Leaves t ec → failed ec ≡ false → InUse t
  used_if_fine t ec (inl h) fine = h
  used_if_fine t ec (inr (h, late)) fine = absurd (let bad = ap failed late in ground arith)

  used_at_eof : (t : T) (ec : ErrorCode) → Leaves t ec → is_eof ec ≡ true → InUse t
  used_at_eof t ec (inl h) end_ = h
  used_at_eof t ec (inr (h, late)) end_ = absurd (let other = ap is_eof late in ground arith)

  module _ {R : Type 0} (serializer : Serializer R) (write_some : T → T × ℕ × ErrorCode)
      (writes : (t : T) → InUse t → Leaves (write_some t).0 (write_some t).2) where
    abbrev LeavesSent : Option (R × T × ErrorCode) → Type 0
    LeavesSent none = Unit
    LeavesSent (some x) = Leaves x.1 x.2

    write_next-Leaves :
        (r : R) (t : T) → InUse t → let w = write_next serializer write_some r t in Leaves w.1 w.3
    unfolding write_next
    write_next-Leaves r t h = elim (Option-cases (serializer.next r).1) [
      | inl handed ↦ rw (handed, write_next) (writes t h)
      | inr (e, bad) ↦ rw (bad, write_next) (inl h)
    ]

    pub send_request-Leaves :
        (fuel : ℕ) (r : R) (t : T) (ec : ErrorCode)
        → InUse t
        → LeavesSent (send_request serializer write_some fuel r t ec)
    unfolding send_request
    send_request-Leaves zero r t ec h = tt
    send_request-Leaves (suc fuel) r t ec h =
        let w = write_next serializer write_some r t in
        let left = write_next-Leaves r t h in
        elim (Bool-cases (serializer.is_done r)) [
          | inl done ↦ rw (done, send_request) (inl h)
          | inr busy ↦ elim (Bool-cases (failed w.3)) [
            | inl bad ↦ rw (busy, bad, send_request) left
            | inr fine ↦
                rw (busy, fine, send_request)
                  (send_request-Leaves fuel (consumed serializer write_some w.2 w.0) w.1 w.3
                    (used_if_fine w.1 w.3 left fine))
          ]
        ]

  module _ {P B : Type 0} (parser : Parser P B) (buffer : Buffer B)
      (read_some : ℕ → T → T × ℕ × ErrorCode)
      (reads : (k : ℕ) (t : T) → InUse t → Leaves (read_some k t).0 (read_some k t).2) where
    abbrev LeavesTurn : Turn P B T → Type 0
    LeavesTurn (continues q c u e) = InUse u
    LeavesTurn (breaks q c u e) = Leaves u e

    at_eof-Leaves :
        (p : P) (b : B) (t : T) → InUse t → LeavesTurn (at_eof parser buffer read_some p b t)
    unfolding at_eof
    at_eof-Leaves p b t h = elim (Bool-cases (parser.got_some p)) [
      | inr none_got ↦ rw (none_got, at_eof) (inl h)
      | inl got ↦ elim (Bool-cases (failed (parser.put_eof p).1)) [
        | inl bad ↦ rw (got, bad, at_eof) (inl h)
        | inr fine ↦ rw (got, fine, at_eof) h
      ]
    ]

    parse-Leaves :
        (n : ℕ) (p : P) (b : B) (t : T)
        → InUse t
        → LeavesTurn (parse parser buffer read_some n p b t)
    unfolding parse
    parse-Leaves n p b t h =
        let e = (parser.put (buffer.commit n b) p).2 in
        elim (Bool-cases (failed e && not (is_need_more e))) [
          | inl final ↦ rw (final, parse) (inl h)
          | inr more ↦ rw (more, parse) h
        ]

    recv_turn-Leaves :
        (p : P) (b : B) (t : T) (ec : ErrorCode)
        → InUse t
        → LeavesTurn (recv_turn parser buffer read_some p b t ec)
    unfolding recv_turn
    recv_turn-Leaves p b t ec h =
        elim (Option-cases (buffer.prepare (read_size parser buffer read_some b) b)) [
          | inl full ↦ rw (full, recv_turn) (inl h)
          | inr (out_buff, room) ↦
              let k = read_size parser buffer read_some b in
              let got = read_some k t in
              let left = reads k t h in
              elim (Bool-cases (is_eof got.2)) [
                | inl end_ ↦
                    rw (room, end_, recv_turn)
                      (at_eof-Leaves p out_buff got.0 (used_at_eof got.0 got.2 left end_))
                | inr more ↦ elim (Bool-cases (failed got.2)) [
                  | inl bad ↦ rw (room, more, bad, recv_turn) left
                  | inr fine ↦
                      rw (room, more, fine, recv_turn)
                        (parse-Leaves got.1 p out_buff got.0 (used_if_fine got.0 got.2 left fine))
                ]
              ]
        ]

    turn-cases :
        (x : Turn P B T)
        → LeavesTurn x
        → ((q : P) × (c : B) × (u : T) × (e : ErrorCode) × (x ≡ continues q c u e) × InUse u)
          ⊎ ((q : P) × (c : B) × (u : T) × (e : ErrorCode) × (x ≡ breaks q c u e) × Leaves u e)
    turn-cases (continues q c u e) h = inl (q, c, u, e, refl, h)
    turn-cases (breaks q c u e) h = inr (q, c, u, e, refl, h)

    abbrev LeavesLoop : Option (P × B × T × ErrorCode) → Type 0
    LeavesLoop none = Unit
    LeavesLoop (some x) = Leaves x.2 x.3

    recv_loop-Leaves :
        (fuel : ℕ) (p : P) (b : B) (t : T) (ec : ErrorCode)
        → InUse t
        → LeavesLoop (recv_loop parser buffer read_some fuel p b t ec)
    unfolding recv_loop
    recv_loop-Leaves zero p b t ec h = tt
    recv_loop-Leaves (suc fuel) p b t ec h = elim (Bool-cases (parser.is_done p)) [
      | inl done ↦ rw (done, recv_loop) (inl h)
      | inr busy ↦
          elim (turn-cases (recv_turn parser buffer read_some p b t ec)
            (recv_turn-Leaves p b t ec h)) [
              | inl (q, c, u, e, k, used) ↦
                  rw (busy, k, recv_loop) (recv_loop-Leaves fuel q c u e used)
              | inr (q, c, u, e, k, left) ↦ rw (busy, k, recv_loop) left
            ]
    ]

    abbrev pub LeavesResult : Option (B × T × Option P × ErrorCode) → Type 0
    LeavesResult none = Unit
    LeavesResult (some x) = Leaves x.1 x.3

    recv_response-Leaves :
        (fuel : ℕ) (fresh : P) (b : B) (t : T) (ec : ErrorCode)
        → InUse t
        → LeavesResult (recv_response parser buffer read_some fuel fresh b t ec)
    unfolding recv_response
    recv_response-Leaves fuel fresh b t ec h =
        let empty = buffer.consume (buffer.size b) b in
        let left = recv_loop-Leaves fuel fresh empty t ec h in
        elim (Option-cases (recv_loop parser buffer read_some fuel fresh empty t ec)) [
          | inl e ↦ rw (e, recv_response) tt
          | inr (x, e) ↦ rw (e, recv_response) (rw e at left)
        ]

  module _ {R P B : Type 0} (serializer : Serializer R) (parser : Parser P B) (buffer : Buffer B)
      (write_some : T → T × ℕ × ErrorCode)
      (writes : (t : T) → InUse t → Leaves (write_some t).0 (write_some t).2)
      (read_some : ℕ → T → T × ℕ × ErrorCode)
      (reads : (k : ℕ) (t : T) → InUse t → Leaves (read_some k t).0 (read_some k t).2) where
    pub perform-Leaves :
        (fuel : ℕ) (request : R) (fresh : P) (b : B) (t : T) (ec : ErrorCode)
        → InUse t
        → LeavesResult parser buffer read_some reads
            (perform serializer parser buffer write_some read_some fuel request fresh b t ec)
    unfolding perform
    perform-Leaves fuel request fresh b t ec h =
        let left = send_request-Leaves serializer write_some writes fuel request t ec h in
        elim (Option-cases (send_request serializer write_some fuel request t ec)) [
          | inl e ↦ rw (e, perform) tt
          | inr (x, e) ↦ elim (Bool-cases (failed x.2)) [
            | inl bad ↦ rw (e, bad, perform) (rw e at left)
            | inr fine ↦
                rw (e, fine, perform)
                  (recv_response-Leaves parser buffer read_some reads fuel fresh b x.1 x.2
                    (used_if_fine x.1 x.2 (rw e at left) fine))
          ]
        ]
