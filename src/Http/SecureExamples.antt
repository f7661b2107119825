-- ===== src/Http/SecureExamples.antt =====
-- The request and the response of Fixtures over a TLS stream, each of whose calls carries out one
-- operation of the socket below.
use stream_client.Common.{
  ℕ, zero, suc, min, Option, ◌≡◌, refl, ◌∙◌, ◌⊎◌, Bool, true, false, some, arith, [], ◌∷◌, pos,
}
use stream_client.ErrorCode.{ErrorCode, success, timed_out}
use stream_client.Socket.Fixtures.{from_now, from_now-NeverDue, idle}
use stream_client.Ssl.Deadline.{IsIdle}
use stream_client.Ssl.Engine.{Inner, IsInner}
use stream_client.Ssl.Fixtures.{carries, carries-Drives, carries-bytes}
use stream_client.Http.Defs.{perform}
use stream_client.Http.Responses.{IsResponse}
use stream_client.Http.Fixtures.{serializer, laws, parser, buffer, receiving}
use stream_client.Http.Secure.Defs.{Exchange, Wire, secure_write, secure_read, IsExchange}
use stream_client.Http.Secure.{perform-SurvivesTls}

-- Two operations that complete, and then those that the deadline stops.
abbrev in_time : Bool → ℕ → Inner
in_time writes n = record {
  writes = writes;
  starts = pos 100;
  readings = pos 2_000 ∷ [];
  ends = pos 3_000;
  error = success;
  bytes = n;
}

abbrev too_late : Bool → ℕ → Inner
too_late writes n = record (in_time writes n) {
  readings = pos 2_000 ∷ pos 1_000_100 ∷ [];
  ends = pos 1_000_300;
}

abbrev inner : ℕ → Bool → ℕ → Inner
inner zero = in_time
inner (suc zero) = in_time
inner (suc (suc i)) = too_late

inner-IsInner : (i : ℕ) (writes : Bool) (n : ℕ) → IsInner from_now false (inner i writes n)
inner-IsInner zero writes n = record { times = omega arith; final = refl }
inner-IsInner (suc zero) writes n = record { times = omega arith; final = refl }
inner-IsInner (suc (suc i)) writes n = record { times = omega arith; final = refl }

inner-bytes : (i : ℕ) (writes : Bool) (n : ℕ) → (inner i writes n).bytes ≡ n
inner-bytes zero writes n = refl
inner-bytes (suc zero) writes n = refl
inner-bytes (suc (suc i)) writes n = refl

abbrev plan : ℕ → Exchange
plan i = record {
  starts = pos 100;
  ends = pos 1_000_400;
  write = carries (inner i true 9);
  read = λ size. carries (inner i false (min size 20));
}

plan-IsExchange : (i : ℕ) → IsExchange from_now false (pos 1_000_000) plan (plan i)
plan-IsExchange i = record {
  end_clock = omega arith;
  write_drives =
      λ t posted untimed. carries-Drives (inner i true 9) (inner-IsInner i true 9) t posted untimed;
  read_drives = λ size t posted untimed.
      carries-Drives (inner i false (min size 20)) (inner-IsInner i false (min size 20)) t posted
        untimed;
  writes = λ t posted untimed h.
      let e =
        carries-bytes (inner i true 9) (inner-IsInner i true 9) t posted untimed
        ∙ inner-bytes i true 9 in
      omega (arith, e);
  reads = λ size t posted untimed room h.
      let e =
        carries-bytes (inner i false (min size 20)) (inner-IsInner i false (min size 20)) t posted
          untimed
        ∙ inner-bytes i false (min size 20) in
      (omega (arith, e), omega (arith, e));
}

abbrev wire : Wire
wire = record { socket = idle; turn = 0 }

wire-IsIdle : IsIdle idle true wire.socket
wire-IsIdle = record {
  open_mode = refl;
  disarmed = λ now le. le;
  still_posted = omega arith;
  same_timeout = refl;
  same_mode = refl;
}

perform-SurvivesTls_example :
    let write = secure_write from_now false (pos 1_000_000) plan in
    let read = secure_read from_now false (pos 1_000_000) plan in
    (x : ℕ × Wire × Option (ℕ × Bool) × ErrorCode) × (perform serializer parser buffer write read
        200 9
        (0, false)
        5
        wire
        success
      ≡ some x)
    × IsResponse parser buffer read x.2 x.3
    × (IsIdle idle true x.1.socket ⊎ (IsIdle idle false x.1.socket × (x.3 ≡ timed_out)))
perform-SurvivesTls_example =
    perform-SurvivesTls from_now from_now-NeverDue false (pos 1_000_000) plan plan-IsExchange idle
      serializer laws parser buffer receiving 200 9 (0, false) 5 wire success refl wire-IsIdle
      (omega arith) (omega arith)
