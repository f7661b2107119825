-- ===== src/Ssl/Fixtures.antt =====
-- A TLS stream for concrete schedules that carries out one operation of the socket below.
use stream_client.Common.{
  ◌⊎◌, true, ◌∷◌, [], ℕ, ◌<◌, ◌≡◌, refl, sym, ◌∙◌, ap, inl, inr, false, Bool-cases,
}
use stream_client.ErrorCode.{ErrorCode, success, failed}
use stream_client.Timed.Operation.{Outcome, returns, throws, blocks}
use stream_client.Timed.Deadline.{first_due}
use stream_client.Socket.Defs.{BaseSocket}
use stream_client.Socket.Stream.{Transfer}
use stream_client.Socket.Timeouts.{reported}
use stream_client.Socket.Fixtures.{from_now, from_now-NeverDue}
use stream_client.Ssl.Engine.{
  Inner, inner_operation, IsInner, operations, Drives, ends, stops, goes_on, Ends,
  inner_operation-Ends,
}

abbrev of_outcome : BaseSocket → Outcome Transfer → BaseSocket × ℕ × ErrorCode
of_outcome s (returns r) = r
of_outcome s (throws ec) = (s, 0, ec)
of_outcome s blocks = (s, 0, success)

abbrev pub carries : Inner → BaseSocket → BaseSocket × ℕ × ErrorCode
carries x s = of_outcome s (inner_operation from_now false x s)

module _ (x : Inner) (is : IsInner from_now false x) (t : BaseSocket) (posted : 0 < t.timed.posted)
    (untimed : t.io_timeouted ≡ false) where
  result :
      Ends t
        (first_due t.timed.expires_at x.readings)
        x.error
        x.bytes
        (inner_operation from_now false x t)
  result = inner_operation-Ends from_now from_now-NeverDue false x t is posted untimed

  abbrev code : ErrorCode
  code = reported (first_due t.timed.expires_at x.readings) x.error

  same : carries x t ≡ ((result).after, x.bytes, code)
  same = ap (of_outcome t) (result).gives

  drives_by :
      (failed code ≡ true) ⊎ (failed code ≡ false)
      → Drives from_now false t (carries x t).0 (carries x t).2
  drives_by (inl bad) =
      stops x x.bytes code is
        ((result).gives ∙ ap (λ u. returns (u, x.bytes, code)) (sym (ap (λ r. r.0) same))) bad
        (λ h. ap (λ r. r.2) same)
  drives_by (inr fine) =
      goes_on x (result).after x.bytes code is (result).gives fine
        (ends (carries x t).2 (ap (λ r. r.0) same))

  pub carries-Drives : Drives from_now false t (carries x t).0 (carries x t).2
  carries-Drives = drives_by (Bool-cases (failed code))

  drives_by-operations :
      (h : (failed code ≡ true) ⊎ (failed code ≡ false))
      → operations from_now false (drives_by h) ≡ x ∷ []
  unfolding drives_by
  drives_by-operations (inl bad) = refl
  drives_by-operations (inr fine) = refl

  pub carries-operations : operations from_now false carries-Drives ≡ x ∷ []
  unfolding carries-Drives
  carries-operations = drives_by-operations (Bool-cases (failed code))

  pub carries-bytes : (carries x t).1 ≡ x.bytes
  carries-bytes = ap (λ r. (of_outcome t r).1) (result).gives
