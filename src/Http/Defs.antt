-- ===== src/Http/Defs.antt =====
-- include/stream-client/stream/http_socket.hpp and impl/http_socket.ipp.
-- The serializer, the parser and the buffer of beast are parameters, as is the stream below: what a
-- call of it under the deadline transfers and reports.
use stream_client.Common.{
  ℕ, zero, suc, ◌+◌, ◌-◌, ◌*◌, ◌%◌, ◌^◌, min, Bool, true, false, not, ◌&&◌, Option, none, some,
  ◌==◌, if◌then◌else◌,
}
use stream_client.ErrorCode.{
  ErrorCode, eof, end_of_stream, need_more, buffer_overflow, operation_aborted, Throws, value,
  thrown, failed,
}

abbrev pub k_header_limit : ℕ
k_header_limit = 2 ^ 20

abbrev pub k_body_limit : ℕ
k_body_limit = 10 * 2 ^ 20

abbrev pub word : ℕ
word = 2 ^ 64

-- request_serializer. `next`: the error that keeps it from handing out buffers, if any.
pub record Serializer (R : Type 0) : Type 0 where
  pub is_done : R → Bool
  pub next : R → R × Option ErrorCode
  pub consume : ℕ → R → R

-- response_parser over a buffer
pub record Parser (P B : Type 0) : Type 0 where
  pub is_done : P → Bool
  pub got_some : P → Bool
  pub put_eof : P → P × ErrorCode
  pub put : B → P → P × ℕ × ErrorCode

-- basic_flat_buffer; prepare gives `none` where it throws length_error.
pub record Buffer (B : Type 0) : Type 0 where
  pub size : B → ℕ
  pub max_size : B → ℕ
  pub prepare : ℕ → B → Option B
  pub commit : ℕ → B → B
  pub consume : ℕ → B → B

module _ {R T : Type 0} (serializer : Serializer R) (write_some : T → T × ℕ × ErrorCode) where
  -- serializer.next with the lambda that writes: the serializer, the stream, `n_bytes` and `ec`.
  unfoldable pub write_next : R → T → R × T × ℕ × ErrorCode
  write_next r t =
      let handed = serializer.next r in
      let wrote = write_some t in
      elim handed.1 [
        | some ec ↦ (handed.0, t, 0, ec)
        | none ↦ (handed.0, wrote.0, wrote.1, wrote.2)
      ]

  unfoldable pub consumed : ℕ → R → R
  consumed n r = if n == 0 then r else serializer.consume n r

  -- send_request, on fuel
  unfoldable pub send_request : ℕ → R → T → ErrorCode → Option (R × T × ErrorCode)
  unfolding write_next consumed
  send_request zero r t ec = none
  send_request (suc fuel) r t ec =
      let x = write_next r t in
      elim (serializer.is_done r) [
        | true ↦ some (r, t, ec)
        | false ↦ elim (failed x.3) [
          | true ↦ some (consumed x.2 x.0, x.1, x.3)
          | false ↦ send_request fuel (consumed x.2 x.0) x.1 x.3
        ]
      ]

-- How a turn of the loop of recv_response ends.
pub data Turn (P B T : Type 0) : Type 0 where
  continues : P → B → T → ErrorCode → Turn P B T
  breaks : P → B → T → ErrorCode → Turn P B T

-- `ec == eof`, `ec == need_more`
abbrev pub is_eof : ErrorCode → Bool
is_eof eof = true
is_eof _ = false

abbrev pub is_need_more : ErrorCode → Bool
is_need_more need_more = true
is_need_more _ = false

module _ {P B T : Type 0} (parser : Parser P B) (buffer : Buffer B)
    (read_some : ℕ → T → T × ℕ × ErrorCode) where
  -- `std::min(65536, buffer.max_size() - buffer.size() - 1)` in size_t
  unfoldable pub read_size : B → ℕ
  read_size b = min 65536 ((buffer.max_size b + 2 * word - buffer.size b - 1) % word)

  -- The end of file, after put_eof or without it.
  unfoldable pub at_eof : P → B → T → Turn P B T
  at_eof p b t =
      let ended = parser.put_eof p in
      if parser.got_some p
      then if not (failed ended.1)
        then continues ended.0 b t ended.1
        else breaks ended.0 b t ended.1
      else breaks p b t end_of_stream

  -- commit, put and consume
  unfoldable pub parse : ℕ → P → B → T → Turn P B T
  parse n p b t =
      let committed = buffer.commit n b in
      let parsed = parser.put committed p in
      let left = buffer.consume parsed.1 committed in
      if failed parsed.2 && not (is_need_more parsed.2)
      then breaks parsed.0 left t parsed.2
      else continues parsed.0 left t parsed.2

  -- One turn of the loop.
  unfoldable pub recv_turn : P → B → T → ErrorCode → Turn P B T
  unfolding read_size at_eof parse
  recv_turn p b t ec = elim (buffer.prepare (read_size b) b) [
    | none ↦ breaks p b t buffer_overflow
    | some out_buff ↦
        let got = read_some (read_size b) t in
        if is_eof got.2
        then at_eof p out_buff got.0
        else if failed got.2
        then breaks p out_buff got.0 got.2
        else parse got.1 p out_buff got.0
  ]

  -- recv_response(response_parser, buffer, ec, deadline), on fuel
  unfoldable pub recv_loop : ℕ → P → B → T → ErrorCode → Option (P × B × T × ErrorCode)
  unfolding recv_turn
  recv_loop zero p b t ec = none
  recv_loop (suc fuel) p b t ec = elim (parser.is_done p) [
    | true ↦ some (p, b, t, ec)
    | false ↦ elim (recv_turn p b t ec) [
      | continues q c u e ↦ recv_loop fuel q c u e
      | breaks q c u e ↦ some (q, c, u, e)
    ]
  ]

  -- recv_response(ec, deadline), from a new parser: the buffer, the stream, the response and `ec`.
  unfoldable pub recv_response :
      ℕ → (fresh : P) → B → T → ErrorCode → Option (B × T × Option P × ErrorCode)
  unfolding recv_loop
  recv_response fuel fresh b t ec =
      elim (recv_loop fuel fresh (buffer.consume (buffer.size b) b) t ec) [
        | none ↦ none
        | some x ↦ some (x.1, x.2, (if failed x.3 then none else some x.0), x.3)
      ]

module _ {R P B T : Type 0} (serializer : Serializer R) (parser : Parser P B) (buffer : Buffer B)
    (write_some : T → T × ℕ × ErrorCode) (read_some : ℕ → T → T × ℕ × ErrorCode) where
  -- perform(request, ec, deadline)
  unfoldable pub perform :
      ℕ → R → (fresh : P) → B → T → ErrorCode → Option (B × T × Option P × ErrorCode)
  unfolding send_request recv_response
  perform fuel request fresh b t ec = elim (send_request serializer write_some fuel request t ec) [
    | none ↦ none
    | some x ↦ elim (failed x.2) [
      | true ↦ some (b, x.1, none, x.2)
      | false ↦ recv_response parser buffer read_some fuel fresh b x.1 x.2
    ]
  ]

-- perform(request): the checks on what the others gave.
unfoldable pub response_or_throw : {P : Type 0} → Option P → ErrorCode → Throws P
response_or_throw response ec =
    if failed ec
    then thrown ec
    else elim response [ none ↦ thrown operation_aborted | some p ↦ value p ]
