-- ===== src/Http/Receives.antt =====
-- The loop of recv_response of impl/http_socket.ipp, and perform, end.
use stream_client.Common.{
  ℕ, zero, suc, ◌+◌, ◌-◌, ◌≤◌, ◌<◌, ◌≡◌, refl, ◌⊎◌, inl, inr, Bool, true, false, not, ◌&&◌, Option,
  none, some, arith, if◌then◌else◌, Bool-cases, Option-cases,
}
use stream_client.ErrorCode.{ErrorCode, failed}
use stream_client.Http.Defs.{
  Parser, Buffer, word, Turn, continues, breaks, is_eof, is_need_more, read_size, at_eof, parse,
  recv_turn, recv_loop, recv_response,
}

-- An error that ends the parsing.
abbrev pub is_final : ErrorCode → Bool
is_final ec = failed ec && not (is_need_more ec)

-- Documented behaviour of the buffer and of the parser: `prepare` keeps what is there, and fails
-- past the buffer's maximum; a parser takes bytes from the front, fails past the limit on what it
-- takes in all, and leaves at most `waiting` bytes that it cannot parse yet (an unfinished header);
-- at the end of the file it fails or is done.
pub record ReceiveLaws {P B : Type 0} (parser : Parser P B) (buffer : Buffer B) : Type 0 where
  pub max : ℕ
  pub limit : ℕ
  pub waiting : ℕ
  pub parsed : P → ℕ
  pub max_lem : (b : B) → buffer.max_size b ≡ max
  pub word_lem : max < word
  pub room_lem : waiting + 1 < max
  pub prepare_lem :
      (n : ℕ) (b out : B) → buffer.prepare n b ≡ some out → buffer.size out ≡ buffer.size b
  pub commit_lem :
      (n k : ℕ) (b out : B)
      → buffer.prepare k b ≡ some out
      → n ≤ k
      → buffer.size (buffer.commit n out) ≡ buffer.size out + n
  pub consume_lem : (n : ℕ) (b : B) → buffer.size (buffer.consume n b) ≡ buffer.size b - n
  pub put_takes : (b : B) (p : P) → (parser.put b p).1 ≤ buffer.size b
  pub put_counts : (b : B) (p : P) → parsed (parser.put b p).0 ≡ parsed p + (parser.put b p).1
  pub put_limits :
      (b : B) (p : P)
      → is_final (parser.put b p).2 ≡ false
      → (parsed (parser.put b p).0 ≤ limit) × (buffer.size b ≤ waiting + (parser.put b p).1)
  pub put_eof_lem :
      (p : P) → failed (parser.put_eof p).1 ≡ false → parser.is_done (parser.put_eof p).0 ≡ true

-- Documented behaviour of a read from a stream in use: into a buffer that is not empty, it gives some
-- bytes and leaves the stream in use, or gives an error.
abbrev pub ReadsSome : {T : Type 0} → (T → Type 0) → (ℕ → T → T × ℕ × ErrorCode) → Type 0
ReadsSome {T} InUse read_some =
    (k : ℕ) (t : T)
    → InUse t
    → 0 < k
    → failed (read_some k t).2 ≡ false
    → (0 < (read_some k t).1) × ((read_some k t).1 ≤ k) × InUse (read_some k t).0

module _ {P B T : Type 0} (parser : Parser P B) (buffer : Buffer B)
    (laws : ReceiveLaws parser buffer) (read_some : ℕ → T → T × ℕ × ErrorCode) (InUse : T → Type 0)
    (reads : ReadsSome InUse read_some) where
  -- Bytes that have been read.
  abbrev total : P → B → ℕ
  total p b = laws.parsed p + buffer.size b

  abbrev IsWithin : P → B → Type 0
  IsWithin p b = (laws.parsed p ≤ laws.limit) × (buffer.size b ≤ laws.waiting)

  -- A turn that goes on has read bytes and is within the limits, or the parser is done.
  abbrev Progresses : P → B → Turn P B T → Type 0
  Progresses p b (breaks q c u e) = Unit
  Progresses p b (continues q c u e) =
      (IsWithin q c × (total p b < total q c) × InUse u) ⊎ (parser.is_done q ≡ true)

  read_size-pos : (b : B) → buffer.size b ≤ laws.waiting → 0 < read_size parser buffer read_some b
  unfolding read_size
  read_size-pos b h = omega (arith, laws.max_lem b, laws.word_lem, laws.room_lem)

  at_eof-Progresses :
      (p : P) (b out : B) (t : T) → Progresses p b (at_eof parser buffer read_some p out t)
  unfolding at_eof
  at_eof-Progresses p b out t = elim (Bool-cases (parser.got_some p)) [
    | inr none_got ↦ rw (none_got, at_eof) tt
    | inl got ↦ elim (Bool-cases (failed (parser.put_eof p).1)) [
      | inl bad ↦ rw (got, bad, at_eof) tt
      | inr fine ↦ rw (got, fine, at_eof) (inr (laws.put_eof_lem p fine))
    ]
  ]

  parse-Progresses :
      (n k : ℕ) (p : P) (b out : B) (t : T)
      → buffer.prepare k b ≡ some out
      → 0 < n
      → n ≤ k
      → InUse t
      → Progresses p b (parse parser buffer read_some n p out t)
  unfolding parse
  parse-Progresses n k p b out t room some_read fits used =
      let committed = buffer.commit n out in
      elim (Bool-cases (is_final (parser.put committed p).2)) [
        | inl final ↦ rw (final, parse) tt
        | inr goes_on ↦
            let (within, left) = laws.put_limits committed p goes_on in
            let size_out = laws.prepare_lem k b out room in
            let size_committed = laws.commit_lem n k b out room fits in
            let size_left = laws.consume_lem (parser.put committed p).1 committed in
            let takes = laws.put_takes committed p in
            let counts = laws.put_counts committed p in
            rw (goes_on, parse) (inl ((within, omega arith), omega arith, used))
      ]

  recv_turn-Progresses :
      (p : P) (b : B) (t : T) (ec : ErrorCode)
      → IsWithin p b
      → InUse t
      → Progresses p b (recv_turn parser buffer read_some p b t ec)
  unfolding recv_turn
  recv_turn-Progresses p b t ec within used =
      let k = read_size parser buffer read_some b in
      elim (Option-cases (buffer.prepare k b)) [
        | inl full ↦ rw (full, recv_turn) tt
        | inr (out, room) ↦ elim (Bool-cases (is_eof (read_some k t).2)) [
          | inl end_ ↦ rw (room, end_, recv_turn) (at_eof-Progresses p b out (read_some k t).0)
          | inr more ↦ elim (Bool-cases (failed (read_some k t).2)) [
            | inl bad ↦ rw (room, more, bad, recv_turn) tt
            | inr fine ↦
                let (some_read, fits, still) = reads k t used (read_size-pos b within.1) fine in
                rw (room, more, fine, recv_turn)
                  (parse-Progresses (read_some k t).1 k p b out (read_some k t).0 room some_read
                    fits still)
          ]
        ]
      ]

  done-ends :
      (fuel : ℕ) (p : P) (b : B) (t : T) (ec : ErrorCode)
      → 0 < fuel
      → parser.is_done p ≡ true
      → (x : P × B × T × ErrorCode) × (recv_loop parser buffer read_some fuel p b t ec ≡ some x)
  unfolding recv_loop
  done-ends zero p b t ec h done = absurd (omega arith)
  done-ends (suc fuel) p b t ec h done = ((p, b, t, ec), rw (done, recv_loop))

  turn-cases :
      (x : Turn P B T)
      → ((q : P) × (c : B) × (u : T) × (e : ErrorCode) × (x ≡ continues q c u e))
        ⊎ ((q : P) × (c : B) × (u : T) × (e : ErrorCode) × (x ≡ breaks q c u e))
  turn-cases (continues q c u e) = inl (q, c, u, e, refl)
  turn-cases (breaks q c u e) = inr (q, c, u, e, refl)

  pub recv_loop-ends :
      (fuel : ℕ) (p : P) (b : B) (t : T) (ec : ErrorCode)
      → IsWithin p b
      → InUse t
      → laws.limit + laws.waiting + 1 < fuel + total p b
      → (x : P × B × T × ErrorCode) × (recv_loop parser buffer read_some fuel p b t ec ≡ some x)
  unfolding recv_loop
  recv_loop-ends zero p b t ec within used enough = absurd (omega arith)
  recv_loop-ends (suc fuel) p b t ec within used enough = elim (Bool-cases (parser.is_done p)) [
    | inl done ↦ ((p, b, t, ec), rw (done, recv_loop))
    | inr busy ↦
        let progress = recv_turn-Progresses p b t ec within used in
        elim (turn-cases (recv_turn parser buffer read_some p b t ec)) [
          | inr (q, c, u, e, k) ↦ ((q, c, u, e), rw (busy, k, recv_loop))
          | inl (q, c, u, e, k) ↦
              let later : (x : P × B × T × ErrorCode) × (recv_loop parser buffer read_some fuel q c
                      u e
                    ≡ some x) =
                elim (rw k at progress) [
                  | inl (still, more, in_use) ↦
                      recv_loop-ends fuel q c u e still in_use (omega arith)
                  | inr done ↦ done-ends fuel q c u e (omega arith) done
                ] in
              (later.0, rw (busy, k, recv_loop) later.1)
        ]
  ]

  pub recv_response-ends :
      (fuel : ℕ) (fresh : P) (b : B) (t : T) (ec : ErrorCode)
      → laws.parsed fresh ≡ 0
      → InUse t
      → laws.limit + laws.waiting + 1 < fuel
      → (x : B × T × Option P × ErrorCode) × (recv_response parser buffer read_some fuel fresh b t
            ec
          ≡ some x)
  unfolding recv_response
  recv_response-ends fuel fresh b t ec new used enough =
      let empty : B = buffer.consume (buffer.size b) b in
      let none_left : buffer.size empty ≡ 0 = omega (arith, laws.consume_lem (buffer.size b) b) in
      let (x, e) =
        recv_loop-ends fuel fresh empty t ec (omega arith, omega arith) used (omega arith) in
      ((x.1, x.2, (if failed x.3 then none else some x.0), x.3), rw (e, recv_response))
