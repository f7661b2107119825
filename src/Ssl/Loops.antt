-- ===== src/Ssl/Loops.antt =====
-- How much send and receive of the TLS socket transfer.
use stream_client.Common.{
  ◌≡◌, refl, ◌∙◌, ap, ℕ, ◌+◌, ◌%◌, ◌<◌, false, List, [], ◌∷◌, arith, ℤ, ◌==◌,
}
use stream_client.ErrorCode.{ErrorCode, success, Throws, value}
use stream_client.Timed.Defs.{until, NeverDue}
use stream_client.Timed.Operation.{blocks}
use stream_client.Socket.Defs.{BaseSocket}
use stream_client.Ssl.Defs.{size_mod, Call, transfer_loop, send, write_some}
use stream_client.Ssl.Modes.{limited_lem}

module _ (transfer_some : Call → BaseSocket → BaseSocket × Throws (ℕ × ErrorCode)) (size : ℕ) where
  -- While bytes are missing, a call that succeeds is followed by the rest of the loop.
  goes_on :
      (c : Call) (cs : List Call) (n m : ℕ) (ec : ErrorCode) (s : BaseSocket)
      → (n == size) ≡ false
      → n + m < size_mod
      → (transfer_some c s).1 ≡ value (m, success)
      → transfer_loop transfer_some size (c ∷ cs) n ec s
        ≡ transfer_loop transfer_some size cs (n + m) success (transfer_some c s).0
  unfolding transfer_loop
  goes_on c cs n m ec s open_ small t =
      let exact : (n + m) % size_mod ≡ n + m = omega arith in rw (open_, t, exact)

  -- Calls that all succeed, with a count of bytes, `n` at first, that stays in its word.
  abbrev AllSucceed : ℕ → List Call → Type 0
  AllSucceed n [] = Unit
  AllSucceed n (c ∷ cs) =
      (m : ℕ) × ((s : BaseSocket) → (transfer_some c s).1 ≡ value (m, success))
      × (n + m < size_mod)
      × AllSucceed (n + m) cs

  -- Past the size the loop does not end as long as its calls succeed.
  past_size :
      (cs : List Call) (n : ℕ) (ec : ErrorCode) (s : BaseSocket)
      → size < n
      → AllSucceed n cs
      → transfer_loop transfer_some size cs n ec s ≡ blocks
  unfolding transfer_loop
  past_size [] n ec s h all = let e : (n == size) ≡ false = ground arith in rw e
  past_size (c ∷ cs) n ec s h (m, t, small, all) =
      let e : (n == size) ≡ false = ground arith in
      goes_on c cs n m ec s e small (t s)
      ∙ past_size cs (n + m) success (transfer_some c s).0 (omega arith) all

-- A call of the TLS stream that transfers `n` bytes without an error, whatever the socket below.
abbrev pub Reports : Call → ℕ → Type 0
Reports c n = (s : BaseSocket) → ((c.layer s).1 ≡ n) × ((c.layer s).2 ≡ success)

-- Such calls, after `n` bytes; all that they transfer is counted within a word.
abbrev pub AllSmooth : ℕ → List Call → Type 0
AllSmooth n [] = Unit
AllSmooth n (c ∷ cs) = (m : ℕ) × Reports c m × (n + m < size_mod) × AllSmooth (n + m) cs

module _ (from_now : ℤ → ℤ → ℤ) (never_due : NeverDue from_now) (size : ℕ) (deadline : ℤ) where
  abbrev step : Call → BaseSocket → BaseSocket × Throws (ℕ × ErrorCode)
  step c = write_some from_now c.now (until deadline) c.layer c.end_time

  step-value :
      (c : Call) (s : BaseSocket)
      → (t : BaseSocket) × ((step c s).1 ≡ value ((c.layer t).1, (c.layer t).2))
  unfolding write_some
  step-value c s = (
    _,
    ap (λ x. x.1) (limited_lem from_now never_due c.now (until deadline) c.layer c.end_time s refl),
  )

  step-Reports :
      (c : Call) (n : ℕ) → Reports c n → (s : BaseSocket) → (step c s).1 ≡ value (n, success)
  step-Reports c n h s = let (t, e) = step-value c s in e ∙ rw ((h t).0, (h t).1)

  smooth-AllSucceed : (n : ℕ) (cs : List Call) → AllSmooth n cs → AllSucceed step size n cs
  smooth-AllSucceed n [] h = tt
  smooth-AllSucceed n (c ∷ cs) (m, h, small, all) =
      (m, step-Reports c m h, small, smooth-AllSucceed (n + m) cs all)

  -- If the first call of the TLS stream's write_some takes fewer bytes than the buffers hold, and
  -- the second takes more than are left, as it is given the whole of the buffers again, then send
  -- does not end however many calls succeed after them, as long as all the bytes that it counts
  -- stay below 2^64.
  pub send-overshoots :
      (first second : Call) (n m : ℕ) (rest : List Call) (s : BaseSocket)
      → Reports first n
      → Reports second m
      → n + m < size_mod
      → AllSmooth (n + m) rest
      → 0 < size
      → n < size
      → size < n + m
      → send from_now size deadline (first ∷ second ∷ rest) success s ≡ blocks
  unfolding send
  send-overshoots first second n m rest s h k few smooth nonzero short over =
      goes_on step size first (second ∷ rest) 0 n success s (ground arith) (omega arith)
        (step-Reports first n h s)
      ∙ ap (λ k. transfer_loop step size (second ∷ rest) k success (step first s).0) (omega arith)
      ∙ goes_on step size second rest n m success (step first s).0 (ground arith) few
          (step-Reports second m k (step first s).0)
      ∙ past_size step size rest (n + m) success _ (omega arith)
          (smooth-AllSucceed (n + m) rest smooth)
