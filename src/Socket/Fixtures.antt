-- ===== src/Socket/Fixtures.antt =====
-- A timer and a socket for concrete schedules.
use stream_client.Common.{
  refl, true, false, List, [], ◌∷◌, arith, if◌then◌else◌, ℤ, pos, ◌+ℤ◌, ltb_ℤ, +ℤ_parts,
}
use stream_client.ErrorCode.{success, eof}
use stream_client.Clock.{IsNow, k_infinite_duration}
use stream_client.Timed.Defs.{NeverDue, lasting, until}
use stream_client.Socket.Runs.{Call, sends, reads_some, AllCalls}
use stream_client.Timed.Deadline.{AllNow}
use stream_client.Socket.Defs.{BaseSocket}
use stream_client.Socket.Timeouts.{IsScheduled}

-- A timer that does not go past the end of its word.
abbrev pub from_now : ℤ → ℤ → ℤ
from_now now d = if ltb_ℤ k_infinite_duration (now +ℤ d) then k_infinite_duration else now +ℤ d

pub from_now-NeverDue : NeverDue from_now
from_now-NeverDue now n t h = ground (arith, +ℤ_parts now k_infinite_duration)

abbrev pub idle : BaseSocket
idle = record {
  timed = record { deadline_fired = false; expires_at = k_infinite_duration; posted = 1 };
  is_open = true;
  connection_timeout = pos 1_000_000;
  io_operation_timeout = pos 1_000_000;
  io_timeouted = true;
}

pub idle-IsScheduled :
    (ts : List ℤ) (end_time : ℤ) → AllNow ts → IsNow end_time → IsScheduled idle ts end_time
idle-IsScheduled ts end_time h k = record {
  disarmed = λ now le. le;
  posted = omega arith;
  readings = h;
  ends = k;
}

abbrev pub readings : List ℤ
readings = pos 2_000 ∷ pos 900_000 ∷ []

abbrev pub late_readings : List ℤ
late_readings = pos 2_000 ∷ pos 1_000_100 ∷ pos 1_000_200 ∷ []

-- A write in time, and a read whose deadline fires.
abbrev pub calls : List Call
calls =
    record {
      method = sends;
      limit = lasting (pos 1_000_000);
      starts = pos 100;
      readings = readings;
      ends = pos 950_000;
      error = success;
      bytes = 10;
    }
    ∷ record {
      method = reads_some;
      limit = until (pos 960_000);
      starts = pos 950_000;
      readings = late_readings;
      ends = pos 1_000_300;
      error = eof;
      bytes = 4;
    }
    ∷ []

pub calls-AllCalls : AllCalls from_now false calls
calls-AllCalls = (
  record {
    accepted = refl;
    times = omega arith;
    end_clock = omega arith;
    final = refl;
    last = refl;
  },
  (
    record {
      accepted = refl;
      times = omega arith;
      end_clock = omega arith;
      final = refl;
      last = refl;
    },
    tt,
  ),
)
