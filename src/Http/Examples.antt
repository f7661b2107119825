-- ===== src/Http/Examples.antt =====
-- A request of 9 bytes, and a response that ends with the connection.
use stream_client.Common.{
  ◌==◌, ℕ, zero, suc, min, Option, ◌≡◌, refl, ◌⊎◌, Bool, true, false, none, some, arith, [], ◌∷◌,
  pos,
}
use stream_client.ErrorCode.{ErrorCode, success, eof, timed_out, failed}
use stream_client.Http.Defs.{send_request, perform}
use stream_client.Socket.Fixtures.{from_now, from_now-NeverDue, idle}
use stream_client.Timed.Operation.{run_until_set, run_one}
use stream_client.Socket.Defs.{deadline_actor}
use stream_client.Socket.Stream.{
  write_some as tcp_write_some, read_some as tcp_read_some, start_operation, concluded,
}
use stream_client.Http.Fixtures.{serializer, laws, parser, buffer, receiving}
use stream_client.Http.Wire.Defs.{Exchange, Wire, wire_write, wire_read, IsExchange, IsBetween}
use stream_client.Http.Wire.{perform-Survives}
use stream_client.Http.Requests.{send_request-ends}
use stream_client.Http.Responses.{IsResponse}
use stream_client.Http.Receives.{ReadsSome}
use stream_client.Http.Performs.{perform-ends}

-- The stream takes 4 bytes a call.
abbrev write_some : ℕ → ℕ × ℕ × ErrorCode
write_some calls = (suc calls, 4, success)

send_request-ends_example :
    (x : ℕ × ℕ × ErrorCode) × (send_request serializer write_some 10 9 0 success ≡ some x)
    × ((failed x.2 ≡ true) ⊎ (((x.0 == 0) ≡ true) × Unit {0}))
send_request-ends_example =
    send_request-ends serializer laws write_some (λ t. Unit) (λ t u h. (omega arith, tt)) 10 9 0
      success tt (omega arith)

-- The stream gives 20 bytes, and then the end of file.
abbrev read_some : ℕ → ℕ → ℕ × ℕ × ErrorCode
read_some n zero = (1, min n 20, success)
read_some n (suc calls) = (suc calls, 0, eof)

reads : ReadsSome (λ t. Unit) read_some
reads k zero used h fine = (omega arith, omega arith, tt)
reads k (suc calls) used h fine = absurd (ground (arith, fine))

-- The write calls go elsewhere here: the stream starts at 0 for reading.
abbrev write_all : ℕ → ℕ × ℕ × ErrorCode
write_all calls = (calls, 9, success)

perform-ends_example :
    (x : ℕ × ℕ × Option (ℕ × Bool) × ErrorCode) × (perform serializer parser buffer write_all
        read_some 200 9
        (0, false)
        5
        0
        success
      ≡ some x)
    × IsResponse parser buffer read_some x.2 x.3
perform-ends_example =
    perform-ends serializer laws parser buffer receiving write_all read_some (λ t. Unit)
      (λ t u h. (omega arith, tt)) reads 200 9 (0, false) 5 0 success refl tt (omega arith)
      (omega arith)

-- 20 bytes and the end of the file make a response.
gets_response :
    perform serializer parser buffer write_all read_some 20 9 (0, false) 5 0 success
    ≡ some (0, 1, some (20, true), success)
unfolding perform
gets_response = refl

-- A socket that writes 9 bytes, reads 20, and then reads until the deadline fires.
abbrev in_time : Exchange
in_time = record {
  starts = pos 100;
  readings = pos 2_000 ∷ [];
  ends = pos 3_000;
  error = success;
  written = 9;
  read = λ size. min size 20;
}

abbrev too_late : Exchange
too_late = record in_time { readings = pos 2_000 ∷ pos 1_000_100 ∷ []; ends = pos 1_000_300 }

abbrev plan : ℕ → Exchange
plan zero = in_time
plan (suc zero) = in_time
plan (suc (suc i)) = too_late

in_time-IsExchange : IsExchange from_now false (pos 1_000_000) plan in_time
in_time-IsExchange = record {
  times = omega arith;
  end_clock = omega arith;
  final = refl;
  writes = λ h. omega arith;
  reads = λ size h e. (omega arith, omega arith);
}

plan-IsExchange : (i : ℕ) → IsExchange from_now false (pos 1_000_000) plan (plan i)
plan-IsExchange zero = in_time-IsExchange
plan-IsExchange (suc zero) = in_time-IsExchange
plan-IsExchange (suc (suc i)) = record {
  times = omega arith;
  end_clock = omega arith;
  final = refl;
  writes = λ h. omega arith;
  reads = λ size h e. (omega arith, omega arith);
}

abbrev wire : Wire
wire = record { socket = idle; turn = 0 }

wire-IsBetween : IsBetween idle true wire
wire-IsBetween = record {
  open_mode = refl;
  disarmed = λ now le. le;
  still_posted = omega arith;
  same_timeout = refl;
  same_mode = refl;
}

perform-Survives_example :
    let write = wire_write from_now false (pos 1_000_000) plan in
    let read = wire_read from_now false (pos 1_000_000) plan in
    (x : ℕ × Wire × Option (ℕ × Bool) × ErrorCode) × (perform serializer parser buffer write read
        200 9
        (0, false)
        5
        wire
        success
      ≡ some x)
    × IsResponse parser buffer read x.2 x.3
    × (IsBetween idle true x.1 ⊎ (IsBetween idle false x.1 × (x.3 ≡ timed_out)))
perform-Survives_example =
    perform-Survives from_now from_now-NeverDue false (pos 1_000_000) plan plan-IsExchange idle
      serializer laws parser buffer receiving 200 9 (0, false) 5 wire success refl wire-IsBetween
      (omega arith) (omega arith)

-- The deadline fires in the second read: the code is timed_out, and the socket is closed.
abbrev code_of : Option (ℕ × Wire × Option (ℕ × Bool) × ErrorCode) → Option (Bool × ErrorCode)
code_of none = none
code_of (some x) = some (x.1.socket.is_open, x.3)

stops_late :
    code_of (
      perform serializer parser buffer
        (wire_write from_now false (pos 1_000_000) plan)
        (wire_read from_now false (pos 1_000_000) plan)
        20
        9
        (0, false)
        5
        wire
        success)
    ≡ some (false, timed_out)
unfolding perform wire_write wire_read tcp_write_some tcp_read_some start_operation concluded
    run_until_set run_one deadline_actor
stops_late = refl
