-- ===== src/Connector/Progress.antt =====
-- No call of new_session (impl/connector.ipp) waits for endpoints that cannot come.
use stream_client.Common.{
  ◌≡◌, refl, sym, ◌∙◌, ap, ◌≢◌, ℕ, true, false, List, [], ◌∷◌, ◌++◌, Bool-cases, inl, inr, arith,
}
use stream_client.ErrorCode.{ErrorCode, success, Throws, failed}
use stream_client.Connector.Defs.{act, act_all}
use stream_client.Connector.Threads.{Does, Run-Does, rounds-IsLive}
use stream_client.Connector.System.{
  Label, rests, Resolving, idle, resolving, resolved, told, taken, updated, unlocked, stopped,
  called, admitted, ThreadStep, starts, gets, tells, fails, takes, stores, unlocks, announces,
  enters, apply, System, start, Step, moved, thread_step, call_step, Run, here, next,
}

module _ {E S : Type 0} (connect : ℕ → E → Throws S) (shuffle : ℕ → List E → List E) where
  Run-first :
      {s t u : System E S} {tr : List (Label E)} {e : Label E}
      → Step connect shuffle s e t
      → Run connect shuffle t tr u
      → Run connect shuffle s (tr ++ e ∷ []) u
  Run-first step here = next here step
  Run-first step (next run later) = next (Run-first step run) later

  module _ (i : ℕ) where
    -- Some way to go on leads the call behind its wait.
    pub record CanEnter (s : System E S) : Type 0 where
      pub trace : List (Label E)
      pub after : System E S
      pub run : Run connect shuffle s trace after
      pub is_admitted : after.calls i ≡ admitted

    -- A step of the resolving thread from the place where it stands.
    thread_first :
        (s : System E S) {p q : Resolving E} {e : Label E}
        → s.thread ≡ p
        → ThreadStep s.connector p e q
        → CanEnter (record s { connector = apply e s.connector; thread = q })
        → CanEnter s
    thread_first s {e = e} at step h = record {
      trace = h.trace ++ e ∷ [];
      after = h.after;
      run = Run-first (thread_step (rw at step)) h.run;
      is_admitted = h.is_admitted;
    }

    enters-CanEnter :
        (s : System E S) → s.connector.resolve_done ≡ true → s.calls i ≡ called → CanEnter s
    enters-CanEnter s is_done waits = record {
      trace = rests ∷ [];
      after = record s { connector = apply rests s.connector; calls = moved s.calls i admitted };
      run = next here (call_step i {e = rests} {p = admitted} (rw waits (enters is_done)));
      is_admitted = ground arith;
    }

    from_unlocked : (s : System E S) → s.thread ≡ unlocked → s.calls i ≡ called → CanEnter s
    unfolding apply act
    from_unlocked s at waits = thread_first s at announces (enters-CanEnter _ refl waits)

    from_updated : (s : System E S) → s.thread ≡ updated → s.calls i ≡ called → CanEnter s
    from_updated s at waits = thread_first s at unlocks (from_unlocked _ refl waits)

    from_taken :
        (s : System E S) (es : List E) → s.thread ≡ taken es → s.calls i ≡ called → CanEnter s
    from_taken s es at waits = thread_first s at (stores es) (from_updated _ refl waits)

    from_told :
        (s : System E S) (ec : ErrorCode) (es : List E)
        → s.thread ≡ told ec es
        → failed ec ≡ false
        → s.calls i ≡ called
        → CanEnter s
    from_told s ec es at fine waits =
        thread_first s at (takes ec es fine) (from_taken _ es refl waits)

    from_resolving : (s : System E S) → s.thread ≡ resolving → s.calls i ≡ called → CanEnter s
    from_resolving s at waits =
        thread_first s at (gets success [])
          (thread_first _ refl (tells success []) (from_told _ success [] refl refl waits))

    from_idle :
        (s : System E S)
        → s.thread ≡ idle
        → s.connector.resolve_needed ≡ true
        → s.calls i ≡ called
        → CanEnter s
    unfolding apply
    from_idle s at needed waits = thread_first s at (starts needed) (from_resolving _ refl waits)

    -- The thread tells of a failure and starts again.
    from_failed :
        (s : System E S) (ec : ErrorCode) (es : List E)
        → s.thread ≡ told ec es
        → failed ec ≡ true
        → s.connector.resolve_needed ≡ true
        → s.calls i ≡ called
        → CanEnter s
    unfolding apply
    from_failed s ec es at bad needed waits =
        thread_first s at (fails ec es bad) (from_idle _ refl needed waits)

    from_resolved :
        (s : System E S) (ec : ErrorCode) (es : List E)
        → s.thread ≡ resolved ec es
        → s.connector.resolve_needed ≡ true
        → s.calls i ≡ called
        → CanEnter s
    unfolding apply act
    from_resolved s ec es at needed waits =
        thread_first s at (tells ec es) (elim (Bool-cases (failed ec)) [
          | inl bad ↦ from_failed _ ec es refl bad needed waits
          | inr fine ↦ from_told _ ec es refl fine waits
        ])

    from_any :
        (p : Resolving E) (s : System E S)
        → s.thread ≡ p
        → Does p s.connector
        → p ≢ stopped
        → s.calls i ≡ called
        → CanEnter s
    unfolding act_all act
    from_any idle s at h runs waits = elim (rounds-IsLive h) [
      | inl is_done ↦ enters-CanEnter s is_done waits
      | inr needed ↦ from_idle s at needed waits
    ]
    from_any resolving s at h runs waits = from_resolving s at waits
    from_any (resolved ec es) s at h runs waits =
        from_resolved s ec es at (ap (λ x. x.resolve_needed) (sym h.leads) ∙ h.needed) waits
    from_any (told ec es) s at h runs waits = elim (Bool-cases (failed ec)) [
      | inl bad ↦
          from_failed s ec es at bad (ap (λ x. x.resolve_needed) (sym h.leads) ∙ h.needed) waits
      | inr fine ↦ from_told s ec es at fine waits
    ]
    from_any (taken es) s at h runs waits = from_taken s es at waits
    from_any updated s at h runs waits = from_updated s at waits
    from_any unlocked s at h runs waits = from_unlocked s at waits
    from_any stopped s at h runs waits = absurd (runs refl)

  -- From every state that the resolving thread and any number of threads in new_session reach from
  -- a new connector, in any interleaving, and in which the resolving thread has not stopped, each
  -- call of new_session that still waits for endpoints can get behind its wait: some steps, of this
  -- call and of the resolving thread, lead there.
  pub Run-CanEnter :
      {tr : List (Label E)} {s : System E S} (i : ℕ)
      → Run connect shuffle start tr s
      → s.thread ≢ stopped
      → s.calls i ≡ called
      → CanEnter i s
  Run-CanEnter {s} i run runs waits =
      from_any i s.thread s refl (Run-Does connect shuffle run) runs waits
