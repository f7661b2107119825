-- ===== src/Http/Responses.antt =====
-- What recv_response and perform give.
use stream_client.Common.{
  ℕ, zero, suc, ◌≡◌, refl, ◌⊎◌, inl, inr, true, false, Option, none, some, arith, if◌then◌else◌,
  Bool-cases, Option-cases,
}
use stream_client.ErrorCode.{ErrorCode, failed}
use stream_client.Http.Defs.{
  Serializer, Parser, Buffer, Turn, continues, breaks, is_eof, is_need_more, at_eof, parse,
  recv_turn, read_size, recv_loop, recv_response, send_request, perform,
}

module _ {P B T : Type 0} (parser : Parser P B) (buffer : Buffer B)
    (read_some : ℕ → T → T × ℕ × ErrorCode) where
  -- A turn that breaks has an error.
  abbrev Breaks : Turn P B T → Type 0
  Breaks (continues q c u e) = Unit
  Breaks (breaks q c u e) = failed e ≡ true

  at_eof-Breaks : (p : P) (b : B) (t : T) → Breaks (at_eof parser buffer read_some p b t)
  unfolding at_eof
  at_eof-Breaks p b t = elim (Bool-cases (parser.got_some p)) [
    | inr none_got ↦ rw (none_got, at_eof) refl
    | inl got ↦ elim (Bool-cases (failed (parser.put_eof p).1)) [
      | inl bad ↦ rw (got, bad, at_eof) bad
      | inr fine ↦ rw (got, fine, at_eof) tt
    ]
  ]

  parse-Breaks : (n : ℕ) (p : P) (b : B) (t : T) → Breaks (parse parser buffer read_some n p b t)
  unfolding parse
  parse-Breaks n p b t =
      let e = (parser.put (buffer.commit n b) p).2 in
      elim (Bool-cases (failed e)) [
        | inr fine ↦ rw (fine, parse) tt
        | inl bad ↦ elim (Bool-cases (is_need_more e)) [
          | inl more ↦ rw (bad, more, parse) tt
          | inr final ↦ rw (bad, final, parse) bad
        ]
      ]

  recv_turn-Breaks :
      (p : P) (b : B) (t : T) (ec : ErrorCode) → Breaks (recv_turn parser buffer read_some p b t ec)
  unfolding recv_turn
  recv_turn-Breaks p b t ec =
      elim (Option-cases (buffer.prepare (read_size parser buffer read_some b) b)) [
        | inl full ↦ rw (full, recv_turn) refl
        | inr (out_buff, room) ↦
            let got = read_some (read_size parser buffer read_some b) t in
            elim (Bool-cases (is_eof got.2)) [
              | inl end_ ↦ rw (room, end_, recv_turn) (at_eof-Breaks p out_buff got.0)
              | inr more ↦ elim (Bool-cases (failed got.2)) [
                | inl bad ↦ rw (room, more, bad, recv_turn) bad
                | inr fine ↦ rw (room, more, fine, recv_turn) (parse-Breaks got.1 p out_buff got.0)
              ]
            ]
      ]

  turn-cases :
      (x : Turn P B T)
      → Breaks x
      → ((q : P) × (c : B) × (u : T) × (e : ErrorCode) × (x ≡ continues q c u e))
        ⊎ ((q : P) × (c : B) × (u : T) × (e : ErrorCode) × (x ≡ breaks q c u e) × (failed e ≡ true))
  turn-cases (continues q c u e) h = inl (q, c, u, e, refl)
  turn-cases (breaks q c u e) h = inr (q, c, u, e, refl, h)

  -- The loop ends with an error or with a parser that is done.
  abbrev IsFinal : Option (P × B × T × ErrorCode) → Type 0
  IsFinal none = Unit
  IsFinal (some x) = (failed x.3 ≡ true) ⊎ (parser.is_done x.0 ≡ true)

  recv_loop-IsFinal :
      (fuel : ℕ) (p : P) (b : B) (t : T) (ec : ErrorCode)
      → IsFinal (recv_loop parser buffer read_some fuel p b t ec)
  unfolding recv_loop
  recv_loop-IsFinal zero p b t ec = tt
  recv_loop-IsFinal (suc fuel) p b t ec = elim (Bool-cases (parser.is_done p)) [
    | inl done ↦ rw (done, recv_loop) (inr done)
    | inr busy ↦
        elim (turn-cases (recv_turn parser buffer read_some p b t ec) (recv_turn-Breaks p b t ec)) [
          | inl (q, c, u, e, k) ↦ rw (busy, k, recv_loop) (recv_loop-IsFinal fuel q c u e)
          | inr (q, c, u, e, k, bad) ↦ rw (busy, k, recv_loop) (inl bad)
        ]
  ]

  -- A response is that of a parser that is done, and there is none exactly with an error.
  abbrev pub IsResponse : Option P → ErrorCode → Type 0
  IsResponse none ec = failed ec ≡ true
  IsResponse (some p) ec = (failed ec ≡ false) × (parser.is_done p ≡ true)

  abbrev pub Responds : Option (B × T × Option P × ErrorCode) → Type 0
  Responds none = Unit
  Responds (some x) = IsResponse x.2 x.3

  given :
      (p : P) (ec : ErrorCode)
      → (failed ec ≡ true) ⊎ (parser.is_done p ≡ true)
      → IsResponse (if failed ec then none else some p) ec
  given p ec h = elim (Bool-cases (failed ec)) [
    | inl bad ↦ rw bad bad
    | inr fine ↦ rw fine (fine, ground (arith, h))
  ]

  recv_response-Responds :
      (fuel : ℕ) (fresh : P) (b : B) (t : T) (ec : ErrorCode)
      → Responds (recv_response parser buffer read_some fuel fresh b t ec)
  unfolding recv_response
  recv_response-Responds fuel fresh b t ec =
      let loop =
        recv_loop parser buffer read_some fuel fresh (buffer.consume (buffer.size b) b) t ec in
      let final = recv_loop-IsFinal fuel fresh (buffer.consume (buffer.size b) b) t ec in
      elim (Option-cases loop) [
        | inl e ↦ rw (e, recv_response) tt
        | inr (x, e) ↦ rw (e, recv_response) (given x.0 x.3 (rw e at final))
      ]

module _ {R P B T : Type 0} (serializer : Serializer R) (parser : Parser P B) (buffer : Buffer B)
    (write_some : T → T × ℕ × ErrorCode) (read_some : ℕ → T → T × ℕ × ErrorCode) where
  pub perform-Responds :
      (fuel : ℕ) (request : R) (fresh : P) (b : B) (t : T) (ec : ErrorCode)
      → Responds parser buffer read_some
          (perform serializer parser buffer write_some read_some fuel request fresh b t ec)
  unfolding perform
  perform-Responds fuel request fresh b t ec =
      elim (Option-cases (send_request serializer write_some fuel request t ec)) [
        | inl e ↦ rw (e, perform) tt
        | inr (x, e) ↦ elim (Bool-cases (failed x.2)) [
          | inl bad ↦ rw (e, bad, perform) bad
          | inr fine ↦
              rw (e, fine, perform)
                (recv_response-Responds parser buffer read_some fuel fresh b x.1 x.2)
        ]
      ]

  -- When perform returns a response, no error is set and the parser is done; when it returns none,
  -- an error is set.
  pub perform-IsResponse :
      (fuel : ℕ) (request : R) (fresh : P) (b c : B) (t u : T) (ec code : ErrorCode)
      (response : Option P)
      → perform serializer parser buffer write_some read_some fuel request fresh b t ec
        ≡ some (c, u, response, code)
      → IsResponse parser buffer read_some response code
  perform-IsResponse fuel request fresh b c t u ec code response h =
      rw h at (perform-Responds fuel request fresh b t ec)
