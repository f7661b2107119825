-- ===== src/Http/Requests.antt =====
-- The loop of send_request of impl/http_socket.ipp.
use stream_client.Common.{
  ℕ, zero, suc, ◌-◌, ◌<◌, ◌≡◌, sym, ◌∙◌, ◌⊎◌, inl, inr, true, false, none, some, arith, ◌==◌,
  Bool-cases, Option-cases,
}
use stream_client.ErrorCode.{ErrorCode, failed}
use stream_client.Http.Defs.{Serializer, write_next, consumed, send_request}

-- Documented behaviour of the serializer: some bytes are left until it is done, handing out buffers
-- keeps them, consuming takes bytes off, and an error is one.
pub record SerializerLaws {R : Type 0} (serializer : Serializer R) : Type 0 where
  pub left : R → ℕ
  pub is_done_lem : (r : R) → serializer.is_done r ≡ (left r == 0)
  pub next_lem : (r : R) → left (serializer.next r).0 ≡ left r
  pub consume_lem : (n : ℕ) (r : R) → left (serializer.consume n r) ≡ left r - n
  pub error_lem : (r : R) (e : ErrorCode) → (serializer.next r).1 ≡ some e → failed e ≡ true

-- Documented behaviour of a write to a stream in use: it takes some bytes and leaves it in use, or
-- gives an error.
abbrev pub WritesSome : {T : Type 0} → (T → Type 0) → (T → T × ℕ × ErrorCode) → Type 0
WritesSome {T} InUse write_some =
    (t : T)
    → InUse t
    → failed (write_some t).2 ≡ false
    → (0 < (write_some t).1) × InUse (write_some t).0

module _ {R T : Type 0} (serializer : Serializer R) (laws : SerializerLaws serializer)
    (write_some : T → T × ℕ × ErrorCode) (InUse : T → Type 0)
    (writes : WritesSome InUse write_some) where
  wrote :
      (r : R) (t : T)
      → (serializer.next r).1 ≡ none
      → write_next serializer write_some r t
        ≡ ((serializer.next r).0, (write_some t).0, (write_some t).1, (write_some t).2)
  unfolding write_next
  wrote r t h = rw (h, write_next)

  not_handed :
      (r : R) (t : T) (e : ErrorCode)
      → (serializer.next r).1 ≡ some e
      → failed (write_next serializer write_some r t).3 ≡ true
  unfolding write_next
  not_handed r t e h = rw (h, write_next) (laws.error_lem r e h)

  consumed-left :
      (n : ℕ) (r : R) → 0 < n → laws.left (consumed serializer write_some n r) ≡ laws.left r - n
  unfolding consumed
  consumed-left n r h = let e : (n == 0) ≡ false = ground arith in rw e (laws.consume_lem n r)

  -- A turn without an error takes bytes off.
  progress :
      (r : R) (t : T)
      → InUse t
      → serializer.is_done r ≡ false
      → failed (write_next serializer write_some r t).3 ≡ false
      → (laws.left (
            consumed serializer write_some
              (write_next serializer write_some r t).2
              (write_next serializer write_some r t).0)
          < laws.left r)
        × InUse (write_next serializer write_some r t).1
  progress r t used busy fine = elim (Option-cases (serializer.next r).1) [
    | inr (e, h) ↦ absurd (ground (arith, not_handed r t e h))
    | inl h ↦
        let w = writes t used (rw (wrote r t h) at fine) in
        let some_left : (laws.left r == 0) ≡ false = sym (laws.is_done_lem r) ∙ busy in
        let positive : 0 < laws.left r = ground arith in
        rw (wrote r t h) (
          omega (arith, consumed-left (write_some t).1 (serializer.next r).0 w.0, laws.next_lem r),
          w.1,
        )
  ]

  -- If the serializer behaves as documented and every write without an error to a stream in use
  -- takes some bytes and leaves it in use, send_request on a stream in use ends within as many
  -- turns as bytes are left and one more: with an error, or with the serializer done and the stream
  -- in use.
  pub send_request-ends :
      (fuel : ℕ) (r : R) (t : T) (ec : ErrorCode)
      → InUse t
      → laws.left r < fuel
      → (x : R × T × ErrorCode) × (send_request serializer write_some fuel r t ec ≡ some x)
        × ((failed x.2 ≡ true) ⊎ ((serializer.is_done x.0 ≡ true) × InUse x.1))
  unfolding send_request
  send_request-ends zero r t ec used h = absurd (omega arith)
  send_request-ends (suc fuel) r t ec used h =
      let w = write_next serializer write_some r t in
      let next = consumed serializer write_some w.2 w.0 in
      elim (Bool-cases (serializer.is_done r)) [
        | inl done ↦ ((r, t, ec), rw (done, send_request), inr (done, used))
        | inr busy ↦ elim (Bool-cases (failed w.3)) [
          | inl bad ↦ ((next, w.1, w.3), rw (busy, bad, send_request), inl bad)
          | inr fine ↦
              let (less, still) = progress r t used busy fine in
              let (x, e, end_) = send_request-ends fuel next w.1 w.3 still (omega (arith, less)) in
              (x, rw (busy, fine, send_request) e, end_)
        ]
      ]
