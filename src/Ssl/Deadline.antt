-- ===== src/Ssl/Deadline.antt =====
-- The deadline of write_some and read_some of stream/ssl_stream_socket.hpp, through the operations
-- of the socket below.
use stream_client.Common.{
  ◌≢◌, ℕ, ◌<◌, ◌≡◌, refl, sym, ap, ◌∙◌, ◌⊎◌, inl, inr, Bool, true, false, Option, none, some, List,
  [], ◌∷◌, ℤ, arith,
}
use stream_client.ErrorCode.{ErrorCode, eof, timed_out, Throws, value, failed}
use stream_client.Clock.{IsNow}
use stream_client.Timed.Defs.{Limit, NeverDue, IsDisarmed, release}
use stream_client.Timed.Operation.{Outcome, returns, returns-inj}
use stream_client.Timed.Limits.{is_accepted, arms, expiry_under}
use stream_client.Timed.Deadline.{first_due}
use stream_client.Socket.Defs.{BaseSocket}
use stream_client.Socket.Stream.{Transfer}
use stream_client.Ssl.Defs.{limited, write_some, read_some}
use stream_client.Ssl.Modes.{under_limit, limited_lem}
use stream_client.Ssl.Engine.{
  Inner, inner_operation, IsInner, operations, IsInTime, AllInTime, LastIsLate, Drives, ends, stops,
  goes_on, IsUnder, Ends, inner_operation-Ends,
}

-- A socket between two operations, with the settings of `s`.
pub record IsIdle (s : BaseSocket) (is_open : Bool) (t : BaseSocket) : Type 0 where
  pub open_mode : t.is_open ≡ is_open
  pub disarmed : IsDisarmed t.timed
  pub still_posted : 0 < t.timed.posted
  pub same_timeout : t.io_operation_timeout ≡ s.io_operation_timeout
  pub same_mode : t.io_timeouted ≡ s.io_timeouted

-- The call of the TLS stream that carries out the operations `ops` gives something. Either all of
-- them are in time, and the socket is left as it was; or the last of them is late, the others are in
-- time, and the socket is stopped.
pub record Conducts (deadline : ℤ) (ops : List Inner) (s : BaseSocket)
    (r : BaseSocket × Throws (ℕ × ErrorCode)) : Type 0 where
  pub bytes : ℕ
  pub code : ErrorCode
  pub reports : r.1 ≡ value (bytes, code)
  pub leaves :
      (AllInTime deadline ops × IsIdle s s.is_open r.0)
      ⊎ (LastIsLate deadline ops × IsIdle s false r.0 × (code ≡ timed_out))

module _ (from_now : ℤ → ℤ → ℤ) (never_due : NeverDue from_now) (same : Bool) (s : BaseSocket)
    (deadline : ℤ) where
  -- A socket under the deadline.
  abbrev Runs : BaseSocket → Type 0
  Runs t = IsUnder s s.is_open t × (t.timed.expires_at ≡ deadline)

  -- What one operation leaves.
  abbrev LeavesOne : Inner → BaseSocket → ErrorCode → Type 0
  LeavesOne x t ec =
      (IsInTime deadline x × Runs t)
      ⊎ (LastIsLate deadline (x ∷ []) × IsUnder s false t × (ec ≡ timed_out))

  -- What several leave.
  abbrev LeavesUnder : List Inner → BaseSocket → ErrorCode → Type 0
  LeavesUnder ops t ec =
      (AllInTime deadline ops × IsUnder s s.is_open t)
      ⊎ (LastIsLate deadline ops × IsUnder s false t × (ec ≡ timed_out))

  Ends-Leaves :
      (x : Inner) (t u : BaseSocket) (fired : Option ℤ) (error ec : ErrorCode) (m n : ℕ)
      (out : Outcome Transfer)
      → Runs t
      → first_due deadline x.readings ≡ fired
      → Ends t fired error m out
      → out ≡ returns (u, n, ec)
      → LeavesOne x u ec
  Ends-Leaves x t u none error ec m n out (h, due) in_time y e =
      let same_socket : y.after ≡ u = ap (λ z. z.0) (returns-inj (sym y.gives ∙ e)) in
      rw (← same_socket) (
        inl (
          in_time,
          (
            record {
              open_mode = y.opened ∙ h.open_mode;
              still_posted = y.still_posted;
              same_timeout = y.same_timeout ∙ h.same_timeout;
              untimed = y.same_mode ∙ h.untimed;
            },
            y.same_expiry refl ∙ due,
          ),
        ))
  Ends-Leaves x t u (some late) error ec m n out (h, due) is_late y e =
      let same_result = returns-inj (sym y.gives ∙ e) in
      let same_socket : y.after ≡ u = ap (λ z. z.0) same_result in
      let same_code : timed_out ≡ ec = ap (λ z. z.2) same_result in
      rw (← same_socket) (
        inr (
          (late, is_late),
          record {
            open_mode = y.opened;
            still_posted = y.still_posted;
            same_timeout = y.same_timeout ∙ h.same_timeout;
            untimed = y.same_mode ∙ h.untimed;
          },
          sym same_code,
        ))

  inner_operation-Leaves :
      (x : Inner) (t u : BaseSocket) (n : ℕ) (ec : ErrorCode)
      → IsInner from_now same x
      → inner_operation from_now same x t ≡ returns (u, n, ec)
      → Runs t
      → LeavesOne x u ec
  inner_operation-Leaves x t u n ec is e (h, due) =
      Ends-Leaves x t u _ x.error ec x.bytes n _ (h, due)
        (ap (λ v. first_due v x.readings) (sym due))
        (inner_operation-Ends from_now never_due same x t is h.still_posted h.untimed) e

  mapped-LeavesUnder :
      (x : Inner) (t : BaseSocket) (ec code : ErrorCode)
      → (ec ≢ eof → code ≡ ec)
      → LeavesOne x t ec
      → LeavesUnder (x ∷ []) t code
  mapped-LeavesUnder x t ec code mapped (inl (in_time, runs)) = inl ((in_time, tt), runs.0)
  mapped-LeavesUnder x t ec code mapped (inr (is_late, h, late)) =
      inr (is_late, h, mapped (λ e. cc) ∙ late)

  fine-InTime :
      (x : Inner) (t : BaseSocket) (ec : ErrorCode)
      → LeavesOne x t ec
      → failed ec ≡ false
      → IsInTime deadline x × Runs t
  fine-InTime x t ec (inl h) fine = h
  fine-InTime x t ec (inr (is_late, h, late)) fine =
      absurd (let bad = ap failed late in ground arith)

  LastIsLate-cons :
      (x : Inner) (xs : List Inner)
      → IsInTime deadline x
      → LastIsLate deadline xs
      → LastIsLate deadline (x ∷ xs)
  LastIsLate-cons x [] in_time h = absurd h
  LastIsLate-cons x (y ∷ ys) in_time h = (in_time, h)

  Drives-Leaves :
      {t u : BaseSocket} {ec : ErrorCode} (drives : Drives from_now same t u ec)
      → Runs t
      → LeavesUnder (operations from_now same drives) u ec
  Drives-Leaves (ends ec e) h = rw e (inl (tt, h.0))
  Drives-Leaves (stops x {s = t} {t = u} n ec {code} is e bad mapped) h =
      mapped-LeavesUnder x u ec code mapped (inner_operation-Leaves x t u n ec is e h)
  Drives-Leaves (goes_on x {s = t} u n ec is e fine more) h =
      let (in_time, runs) = fine-InTime x u ec (inner_operation-Leaves x t u n ec is e h) fine in
      elim (Drives-Leaves more runs) [
        | inl (all, k) ↦ inl ((in_time, all), k)
        | inr (is_late, k, late) ↦ inr (LastIsLate-cons x _ in_time is_late, k, late)
      ]

module _ (from_now : ℤ → ℤ → ℤ) (never_due : NeverDue from_now) (same : Bool) (s : BaseSocket) where
  module _ (now : ℤ) (limit : Limit) (layer : BaseSocket → BaseSocket × ℕ × ErrorCode)
      (drives : (t : BaseSocket)
        → 0 < t.timed.posted
        → t.io_timeouted ≡ false
        → Drives from_now same t (layer t).0 (layer t).2)
      (end_time : ℤ) where
    release-IsIdle :
        (is_open : Bool) (t : BaseSocket)
        → IsNow end_time
        → IsUnder s is_open t
        → IsIdle s is_open (record t {
          timed = release from_now end_time (record { armed = true }) t.timed;
          io_timeouted = s.io_timeouted;
        })
    unfolding release
    release-IsIdle is_open t clock h = record {
      open_mode = h.open_mode;
      disarmed = λ u k. never_due end_time clock u k;
      still_posted = h.still_posted;
      same_timeout = h.same_timeout;
      same_mode = refl;
    }

    -- When the timer is due, and what is carried out until then.
    abbrev pub due_at : ℤ
    due_at = expiry_under from_now now limit s.timed

    abbrev pub carried_out : 0 < s.timed.posted → List Inner
    carried_out posted =
        operations from_now same (drives (under_limit from_now now limit s) posted refl)

    limited-Conducts :
        is_accepted limit ≡ true
        → arms limit ≡ true
        → IsNow end_time
        → (posted : 0 < s.timed.posted)
        → Conducts due_at (carried_out posted) s (limited from_now now limit layer end_time s)
    limited-Conducts accepted armed clock posted =
        let under = under_limit from_now now limit s in
        let done = layer under in
        let is_under : IsUnder s s.is_open under = record {
          open_mode = refl;
          still_posted = posted;
          same_timeout = refl;
          untimed = refl;
        } in
        let left =
          Drives-Leaves from_now never_due same s due_at (drives under posted refl)
            (is_under, refl) in
        rw (limited_lem from_now never_due now limit layer end_time s accepted, armed)
          (record {
            bytes = done.1;
            code = done.2;
            reports = refl;
            leaves = elim left [
              | inl (all, h) ↦ inl (all, release-IsIdle s.is_open done.0 clock h)
              | inr (last, h, late) ↦ inr (last, release-IsIdle false done.0 clock h, late)
            ];
          })

    -- If a call of the TLS stream carries out operations of the socket below it by that socket's
    -- own write_some and read_some, each ending for good, and passes on the error of the first that
    -- fails, but for an end of the file, then write_some and read_some of the TLS socket, under an
    -- accepted limit other than the infinite duration, give bytes and a code. Either the timer
    -- shows none of these operations a time at or behind the one deadline of the call, and the
    -- socket below is open or closed as before; or it shows such a time to the last of them only,
    -- and the socket below is closed and the code is timed_out. In both cases no deadline is left
    -- on the timer, a wait is posted and the settings are as before.
    pub write_some-Conducts :
        is_accepted limit ≡ true
        → arms limit ≡ true
        → IsNow end_time
        → (posted : 0 < s.timed.posted)
        → Conducts due_at (carried_out posted) s (write_some from_now now limit layer end_time s)
          × Conducts due_at (carried_out posted) s (read_some from_now now limit layer end_time s)
    unfolding write_some read_some
    write_some-Conducts accepted armed clock posted =
        let both = limited-Conducts accepted armed clock posted in (both, both)
