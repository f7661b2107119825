-- ===== src/ErrorCode.antt =====
-- The values of boost::system::error_code that the library sets or compares with, and the
-- result of an overload that throws boost::system::system_error.
use stream_client.Common.{ℕ, Bool, true, false, ◌≡◌, refl, ◌⊎◌, inl, inr}

-- `success` is the value 0, for which `if (ec)` fails; `other` is any code the library passes on.
pub data ErrorCode : Type 0 where
  success would_block try_again timed_out not_found operation_aborted not_connected : ErrorCode
  eof end_of_stream need_more buffer_overflow stream_truncated bad_alloc : ErrorCode
  other : ℕ → ErrorCode

-- `explicit operator bool` of error_code
abbrev pub failed : ErrorCode → Bool
failed success = false
failed _ = true

-- What a throwing function does: return a value, or throw system_error with a code.
pub data Throws {ℓ} (A : Type ℓ) : Type ℓ where
  value : A → Throws A
  thrown : ErrorCode → Throws A

pub Throws-cases {ℓ} :
    {A : Type ℓ} (t : Throws A) → ((a : A) × (t ≡ value a)) ⊎ ((e : ErrorCode) × (t ≡ thrown e))
Throws-cases (value a) = inl (a, refl)
Throws-cases (thrown e) = inr (e, refl)
