-- ===== src/Connector/Origins.antt =====
-- Where the endpoints that the threads of new_session dial come from.
use stream_client.Common.{
  ◌≡◌, refl, sym, ◌∙◌, ◌⊎◌, inl, inr, ℕ, Bool, true, none, some, List, [], ◌∷◌,
}
use stream_client.ErrorCode.{ErrorCode, Throws, value}
use stream_client.Connector.Defs.{
  Connector, takes_up, updates, notifies_done, notifies_needed, sets_error, base_connector, act,
}
use stream_client.Connector.System.{
  Label, begins, acts, rests, Resolving, idle, resolving, resolved, told, taken, updated, unlocked,
  stopped, Calling, called, denied, admitted, dialing, lost, asking, done, ThreadStep, misses,
  stops, starts, gets, tells, fails, takes, stores, unlocks, announces, CallStep, expires, enters,
  reports, reads, ends_empty, connects, breaks, decides, asks, apply, System, start, thread_step,
  call_step, Run, here, next, moved-All,
}

module _ {E : Type 0} where
  -- The resolving thread has stored these endpoints at some time of the trace.
  abbrev pub WasStored : List E → List (Label E) → Type 0
  WasStored es [] = ⊥
  WasStored es (acts (updates found) ∷ tr) = (found ≡ es) ⊎ WasStored es tr
  WasStored es (_ ∷ tr) = WasStored es tr

  WasStored-later :
      (es : List E) (e : Label E) (tr : List (Label E)) → WasStored es tr → WasStored es (e ∷ tr)
  WasStored-later es begins tr h = h
  WasStored-later es rests tr h = h
  WasStored-later es (acts (updates found)) tr h = inr h
  WasStored-later es (acts (sets_error ec)) tr h = h
  WasStored-later es (acts takes_up) tr h = h
  WasStored-later es (acts notifies_done) tr h = h
  WasStored-later es (acts notifies_needed) tr h = h

  endpoints-apply :
      (e : Label E) (c : Connector E) (tr : List (Label E))
      → WasStored c.endpoints tr
      → WasStored (apply e c).endpoints (e ∷ tr)
  unfolding apply act
  endpoints-apply begins c tr h = h
  endpoints-apply rests c tr h = h
  endpoints-apply (acts (updates found)) c tr h = inl refl
  endpoints-apply (acts (sets_error ec)) c tr h = h
  endpoints-apply (acts takes_up) c tr h = h
  endpoints-apply (acts notifies_done) c tr h = h
  endpoints-apply (acts notifies_needed) c tr h = h

  -- The endpoints of the connector have been stored if the thread is behind update_endpoints.
  abbrev Stores : Resolving E → Connector E → List (Label E) → Type 0
  Stores updated c tr = WasStored c.endpoints tr
  Stores unlocked c tr = WasStored c.endpoints tr
  Stores _ c tr = Unit

  record Holds (p : Resolving E) (c : Connector E) (tr : List (Label E)) : Type 0 where
    of_thread : Stores p c tr
    of_flag : c.resolve_done ≡ true → WasStored c.endpoints tr

  ThreadStep-Holds :
      {c : Connector E} {p q : Resolving E} {e : Label E} (tr : List (Label E))
      → ThreadStep c p e q
      → Holds p c tr
      → Holds q (apply e c) (e ∷ tr)
  unfolding apply act
  ThreadStep-Holds tr misses h = record { of_thread = tt; of_flag = h.of_flag }
  ThreadStep-Holds tr stops h = record { of_thread = tt; of_flag = h.of_flag }
  ThreadStep-Holds tr (starts _) h = record { of_thread = tt; of_flag = h.of_flag }
  ThreadStep-Holds tr (gets _ _) h = record { of_thread = tt; of_flag = h.of_flag }
  ThreadStep-Holds tr (tells _ _) h = record { of_thread = tt; of_flag = h.of_flag }
  ThreadStep-Holds tr (fails _ _ _) h = record { of_thread = tt; of_flag = h.of_flag }
  ThreadStep-Holds tr (takes _ _ _) h = record { of_thread = tt; of_flag = h.of_flag }
  ThreadStep-Holds tr (stores es) h = record { of_thread = inl refl; of_flag = λ k. inl refl }
  ThreadStep-Holds tr unlocks h = record { of_thread = h.of_thread; of_flag = h.of_flag }
  ThreadStep-Holds tr announces h = record { of_thread = tt; of_flag = λ k. h.of_thread }

  Stores-later :
      (p : Resolving E) (e : Label E) (c : Connector E) (tr : List (Label E))
      → Stores p c tr
      → Stores p (apply e c) (e ∷ tr)
  Stores-later updated e c tr h = endpoints-apply e c tr h
  Stores-later unlocked e c tr h = endpoints-apply e c tr h
  Stores-later idle e c tr h = tt
  Stores-later resolving e c tr h = tt
  Stores-later (resolved _ _) e c tr h = tt
  Stores-later (told _ _) e c tr h = tt
  Stores-later (taken _) e c tr h = tt
  Stores-later stopped e c tr h = tt

module _ {E S : Type 0} (connect : E → Throws S) (shuffle_vector : List E → List E) where
  -- A session was connected to the first of shuffled endpoints that the thread had stored.
  pub record Dialed (s : S) (tr : List (Label E)) : Type 0 where
    pub found : List E
    pub peer : E
    pub rest : List E
    pub was_stored : WasStored found tr
    pub shuffled : shuffle_vector found ≡ peer ∷ rest
    pub connected : connect peer ≡ value s

  abbrev IsFrom : Calling E S → Connector E → List (Label E) → Type 0
  IsFrom admitted c tr = WasStored c.endpoints tr
  IsFrom (dialing es) c tr = (found : List E) × WasStored found tr × (shuffle_vector found ≡ es)
  IsFrom (done (some s) ec) c tr = Dialed s tr
  IsFrom _ c tr = Unit

  IsFrom-later :
      (p : Calling E S) (e : Label E) (c : Connector E) (tr : List (Label E))
      → IsFrom p c tr
      → IsFrom p (apply e c) (e ∷ tr)
  IsFrom-later admitted e c tr h = endpoints-apply e c tr h
  IsFrom-later (dialing es) e c tr h = (h.0, WasStored-later h.0 e tr h.1, h.2)
  IsFrom-later (done (some s) ec) e c tr h = record {
    found = h.found;
    peer = h.peer;
    rest = h.rest;
    was_stored = WasStored-later h.found e tr h.was_stored;
    shuffled = h.shuffled;
    connected = h.connected;
  }
  IsFrom-later (done none ec) e c tr h = tt
  IsFrom-later called e c tr h = tt
  IsFrom-later denied e c tr h = tt
  IsFrom-later (lost _) e c tr h = tt
  IsFrom-later (asking _) e c tr h = tt

  CallStep-IsFrom :
      {held : Bool} {c : Connector E} {p q : Calling E S} {e : Label E} (tr : List (Label E))
      → CallStep connect shuffle_vector held c p e q
      → (c.resolve_done ≡ true → WasStored c.endpoints tr)
      → IsFrom p c tr
      → IsFrom q (apply e c) (e ∷ tr)
  unfolding apply act
  CallStep-IsFrom tr expires known h = tt
  CallStep-IsFrom tr (enters is_done) known h = known is_done
  CallStep-IsFrom tr reports known h = tt
  CallStep-IsFrom {c} tr reads known h = (c.endpoints, h, refl)
  CallStep-IsFrom tr ends_empty known h = tt
  CallStep-IsFrom tr (connects peer rest s given) known h = record {
    found = h.0;
    peer = peer;
    rest = rest;
    was_stored = h.1;
    shuffled = h.2;
    connected = given;
  }
  CallStep-IsFrom tr (breaks _ _ _ _) known h = tt
  CallStep-IsFrom tr (decides _) known h = tt
  CallStep-IsFrom tr (asks _ _) known h = tt

  resolve_done-CallStep :
      {held : Bool} {c : Connector E} {p q : Calling E S} {e : Label E}
      → CallStep connect shuffle_vector held c p e q
      → (apply e c).resolve_done ≡ c.resolve_done
  unfolding apply act
  resolve_done-CallStep expires = refl
  resolve_done-CallStep (enters _) = refl
  resolve_done-CallStep reports = refl
  resolve_done-CallStep reads = refl
  resolve_done-CallStep ends_empty = refl
  resolve_done-CallStep (connects _ _ _ _) = refl
  resolve_done-CallStep (breaks _ _ _ _) = refl
  resolve_done-CallStep (decides _) = refl
  resolve_done-CallStep (asks _ _) = refl

module _ {E S : Type 0} (connect : ℕ → E → Throws S) (shuffle : ℕ → List E → List E) where
  record IsSound (s : System E S) (tr : List (Label E)) : Type 0 where
    shared : Holds s.thread s.connector tr
    of_calls : (i : ℕ) → IsFrom (connect i) (shuffle i) (s.calls i) s.connector tr

  Run-IsSound :
      {tr : List (Label E)} {s : System E S} → Run connect shuffle start tr s → IsSound s tr
  unfolding start base_connector
  Run-IsSound here = record {
    shared = record { of_thread = tt; of_flag = λ h. cc };
    of_calls = λ i. tt;
  }
  Run-IsSound (next {tr} {e} {t} run (thread_step step)) =
      let before = Run-IsSound run in
      record {
        shared = ThreadStep-Holds tr step before.shared;
        of_calls = λ i.
            IsFrom-later (connect i) (shuffle i) (t.calls i) e t.connector tr (before.of_calls i);
      }
  Run-IsSound (next {tr} {e} {t} run (call_step i {p} step)) =
      let before = Run-IsSound run in
      record {
        shared = record {
          of_thread = Stores-later t.thread e t.connector tr before.shared.of_thread;
          of_flag = λ h. endpoints-apply e t.connector tr (
              before.shared.of_flag (sym (resolve_done-CallStep (connect i) (shuffle i) step) ∙ h));
        };
        of_calls =
            moved-All (λ j q. IsFrom (connect j) (shuffle j) q (apply e t.connector) (e ∷ tr))
              t.calls i p
              (CallStep-IsFrom (connect i) (shuffle i) tr step before.shared.of_flag
                (before.of_calls i))
              (λ j.
                IsFrom-later (connect j) (shuffle j) (t.calls j) e t.connector tr
                  (before.of_calls j));
      }

  -- In every state that the resolving thread and any number of threads in new_session reach from a
  -- new connector, in any interleaving, a session that a call of new_session has given was
  -- connected to the first of the shuffled endpoints of a list that update_endpoints had stored.
  pub Run-Dialed :
      {tr : List (Label E)} {t : System E S} (i : ℕ) (s : S) (ec : ErrorCode)
      → Run connect shuffle start tr t
      → t.calls i ≡ done (some s) ec
      → Dialed (connect i) (shuffle i) s tr
  Run-Dialed {tr} {t} i s ec run e =
      let known : IsFrom (connect i) (shuffle i) (t.calls i) t.connector tr =
        (Run-IsSound run).of_calls i in
      rw e at known
