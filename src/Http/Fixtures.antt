-- ===== src/Http/Fixtures.antt =====
-- A serializer, a parser and a buffer that count bytes. Requests are the numbers of bytes left, and
-- parsers the number of bytes that they have taken and whether they are done.
use stream_client.Common.{
  ℕ, ◌+◌, ap, sym, not, leb, if◌then◌else◌, ◌-◌, ◌≡◌, ◌≤◌, refl, Bool, true, false, none, some,
  arith, ◌==◌,
}
use stream_client.ErrorCode.{ErrorCode, success, other, failed}
use stream_client.Http.Defs.{Serializer, Parser, Buffer}
use stream_client.Http.Requests.{SerializerLaws}
use stream_client.Http.Receives.{is_final, ReceiveLaws}

abbrev pub serializer : Serializer ℕ
serializer = record { is_done = λ n. n == 0; next = λ n. (n, none); consume = λ n left. left - n }

pub no_error : (e : ErrorCode) → none ≡ some e → failed e ≡ true
no_error e h = absurd (ground (arith, h))

abbrev pub laws : SerializerLaws serializer
laws = record {
  left = λ n. n;
  is_done_lem = λ n. refl;
  next_lem = λ n. refl;
  consume_lem = λ n r. refl;
  error_lem = λ r e h. no_error e h;
}

-- A parser that takes 100 bytes at most, and is done at the end of the file.
abbrev pub parser : Parser (ℕ × Bool) ℕ
parser = record {
  is_done = λ p. p.1;
  got_some = λ p. not (p.0 == 0);
  put_eof = λ p. ((p.0, true), success);
  put = λ b p. ((p.0 + b, false), b, (if leb (p.0 + b) 100 then success else other 1));
}

abbrev pub buffer : Buffer ℕ
buffer = record {
  size = λ b. b;
  max_size = λ b. 1000;
  prepare = λ n b. some b;
  commit = λ n b. b + n;
  consume = λ n b. b - n;
}

pub within : (n : ℕ) → is_final (if leb n 100 then success else other 1) ≡ false → n ≤ 100
within n h = ground arith

abbrev pub receiving : ReceiveLaws parser buffer
receiving = record {
  max = 1000;
  limit = 100;
  waiting = 0;
  parsed = λ p. p.0;
  max_lem = λ b. refl;
  word_lem = omega arith;
  room_lem = omega arith;
  prepare_lem = λ n b out e. ap (λ o. elim o [ none ↦ b | some x ↦ x ]) (sym e);
  commit_lem = λ n k b out e h. refl;
  consume_lem = λ n b. refl;
  put_takes = λ b p. omega arith;
  put_counts = λ b p. refl;
  put_limits = λ b p h. (within (p.0 + b) h, omega arith);
  put_eof_lem = λ p h. refl;
}
