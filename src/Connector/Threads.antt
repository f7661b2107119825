-- ===== src/Connector/Threads.antt =====
-- What the resolving thread does among the interleaved threads of a connector is what
-- resolve_routine of the model does in some rounds.
use stream_client.Common.{inr, ◌≡◌, refl, sym, ◌∙◌, ap, ℕ, true, false, List, [], ◌∷◌, ◌++◌}
use stream_client.ErrorCode.{ErrorCode, Throws, failed}
use stream_client.Connector.Defs.{
  Connector, Action, takes_up, updates, notifies_done, notifies_needed, sets_error, act, act_all,
  after_resolve, resolve_routine, base_connector,
}
use stream_client.Connector.Actions.{act_all-append}
use stream_client.Connector.Rounds.{IsRounds, IsRounds-asked, IsRounds-resolved}
use stream_client.Connector.Resolving.{AreClients, IsLive, resolve_routine-IsLive}
use stream_client.Connector.System.{
  Label, Resolving, idle, resolving, resolved, told, taken, updated, unlocked, stopped, Calling,
  holds, ThreadStep, misses, stops, starts, gets, tells, fails, takes, stores, unlocks, announces,
  CallStep, expires, enters, reports, reads, ends_empty, connects, breaks, decides, asks, apply,
  System, start, thread_step, call_step, Run, here, next,
}

module _ {E : Type 0} where
  -- After rounds, resolve() was called as endpoints were wanted, and some sections followed.
  pub record Begun (as_ : List (Action E)) (c : Connector E) : Type 0 where
    pub found : Connector E
    pub rounds : IsRounds found
    pub needed : found.resolve_needed ≡ true
    pub leads : act_all as_ found ≡ c

  -- The sections of a round that has resolved, up to update_endpoints.
  abbrev pub stored : ErrorCode → List E → List (Action E)
  stored ec es = sets_error ec ∷ takes_up ∷ updates es ∷ []

  abbrev pub Does : Resolving E → Connector E → Type 0
  Does idle c = IsRounds c
  Does stopped c = IsRounds c
  Does resolving c = Begun [] c
  Does (resolved ec es) c = Begun [] c
  Does (told ec es) c = Begun (sets_error ec ∷ []) c
  Does (taken es) c =
      (ec : ErrorCode) × (failed ec ≡ false) × Begun (sets_error ec ∷ takes_up ∷ []) c
  Does updated c = (ec : ErrorCode) × (es : List E) × (failed ec ≡ false) × Begun (stored ec es) c
  Does unlocked c =
      (ec : ErrorCode) × (es : List E) × (asked : List (Action E)) × (failed ec ≡ false)
      × AreClients asked
      × Begun (stored ec es ++ asked) c

  Begun-acts :
      (as_ : List (Action E)) (c : Connector E) (a : Action E)
      → Begun as_ c
      → Begun (as_ ++ a ∷ []) (act a c)
  unfolding act_all
  Begun-acts as_ c a h = record {
    found = h.found;
    rounds = h.rounds;
    needed = h.needed;
    leads = act_all-append as_ (a ∷ []) h.found ∙ ap (act a) h.leads;
  }

  -- notify_resolve_done may as well stand before others' requests.
  announced_before :
      (asked : List (Action E)) (c : Connector E)
      → AreClients asked
      → act notifies_done (act_all asked c) ≡ act_all asked (act notifies_done c)
  unfolding act_all act
  announced_before [] c h = refl
  announced_before (notifies_needed ∷ asked) c h =
      announced_before asked (record c { resolve_needed = true }) h
  announced_before (sets_error err ∷ asked) c h = absurd h
  announced_before (takes_up ∷ asked) c h = absurd h
  announced_before (updates es ∷ asked) c h = absurd h
  announced_before (notifies_done ∷ asked) c h = absurd h

  AreClients-append :
      (asked : List (Action E)) → AreClients asked → AreClients (asked ++ notifies_needed ∷ [])
  AreClients-append [] h = tt
  AreClients-append (notifies_needed ∷ asked) h = AreClients-append asked h
  AreClients-append (sets_error err ∷ asked) h = absurd h
  AreClients-append (takes_up ∷ asked) h = absurd h
  AreClients-append (updates es ∷ asked) h = absurd h
  AreClients-append (notifies_done ∷ asked) h = absurd h

  fails-IsRounds :
      (ec : ErrorCode) (es : List E) (c : Connector E)
      → failed ec ≡ true
      → Begun (sets_error ec ∷ []) c
      → IsRounds c
  unfolding after_resolve
  fails-IsRounds ec es c bad h =
      let round = IsRounds-resolved ec es h.needed h.rounds in rw (bad, h.leads) at round

  announces-IsRounds :
      (ec : ErrorCode) (es : List E) (asked : List (Action E)) (c : Connector E)
      → failed ec ≡ false
      → AreClients asked
      → Begun (stored ec es ++ asked) c
      → IsRounds (act notifies_done c)
  unfolding after_resolve act_all
  announces-IsRounds ec es asked c fine clients h =
      let round = IsRounds-asked asked clients (IsRounds-resolved ec es h.needed h.rounds) in
      let same : act_all asked (act_all (stored ec es ++ notifies_done ∷ []) h.found)
          ≡ act notifies_done c =
        sym (announced_before asked (act_all (stored ec es) h.found) clients)
        ∙ ap (act notifies_done) h.leads in
      rw (fine, same) at round

  ThreadStep-Does :
      {c : Connector E} {p q : Resolving E} {e : Label E}
      → ThreadStep c p e q
      → Does p c
      → Does q (apply e c)
  unfolding apply act_all
  ThreadStep-Does misses h = h
  ThreadStep-Does stops h = h
  ThreadStep-Does {c} (starts needed) h = record {
    found = c;
    rounds = h;
    needed = needed;
    leads = refl;
  }
  ThreadStep-Does (gets ec es) h = h
  ThreadStep-Does {c} (tells ec es) h = Begun-acts [] c (sets_error ec) h
  ThreadStep-Does {c} (fails ec es bad) h = fails-IsRounds ec es c bad h
  ThreadStep-Does {c} (takes ec es fine) h =
      (ec, fine, Begun-acts (sets_error ec ∷ []) c takes_up h)
  ThreadStep-Does {c} (stores es) h =
      (h.0, es, h.1, Begun-acts (sets_error h.0 ∷ takes_up ∷ []) c (updates es) h.2)
  ThreadStep-Does unlocks h = (h.0, h.1, [], h.2, tt, h.3)
  ThreadStep-Does {c} announces h = announces-IsRounds h.0 h.1 h.2 c h.3 h.4 h.5

  request-Does :
      (p : Resolving E) (c : Connector E)
      → holds p ≡ false
      → Does p c
      → Does p (act notifies_needed c)
  unfolding holds act_all
  request-Does idle c h k = IsRounds-asked (notifies_needed ∷ []) tt k
  request-Does stopped c h k = IsRounds-asked (notifies_needed ∷ []) tt k
  request-Does unlocked c h k = (
    k.0,
    k.1,
    k.2 ++ notifies_needed ∷ [],
    k.3,
    AreClients-append k.2 k.4,
    Begun-acts (stored k.0 k.1 ++ k.2) c notifies_needed k.5,
  )
  request-Does resolving c h k = absurd (cc)
  request-Does (resolved ec es) c h k = absurd (cc)
  request-Does (told ec es) c h k = absurd (cc)
  request-Does (taken es) c h k = absurd (cc)
  request-Does updated c h k = absurd (cc)

  CallStep-Does :
      {S : Type 0} {connect : E → Throws S} {shuffle_vector : List E → List E} {c : Connector E}
      {p q : Calling E S} {e : Label E} (r : Resolving E)
      → CallStep connect shuffle_vector (holds r) c p e q
      → Does r c
      → Does r (apply e c)
  unfolding apply
  CallStep-Does r expires h = h
  CallStep-Does r (enters _) h = h
  CallStep-Does r reports h = h
  CallStep-Does r reads h = h
  CallStep-Does r ends_empty h = h
  CallStep-Does r (connects _ _ _ _) h = h
  CallStep-Does r (breaks _ _ _ _) h = h
  CallStep-Does r (decides _) h = h
  CallStep-Does {c} r (asks _ free) h = request-Does r c free h

  pub rounds-IsLive : {c : Connector E} → IsRounds c → IsLive c
  unfolding base_connector
  rounds-IsLive r =
      rw (← r.leads) (resolve_routine-IsLive r.envs base_connector r.clients (inr refl))
  -- In every state that the resolving thread and any number of threads in new_session reach from a
  -- new connector, in any interleaving, when the thread is between two rounds: the shared state is
  -- what the sequential function resolve_routine makes of a new connector in some rounds beside
  -- which other threads only ask for endpoints; and endpoints are there or wanted.

module _ {E S : Type 0} (connect : ℕ → E → Throws S) (shuffle : ℕ → List E → List E) where
  pub Run-Does :
      {tr : List (Label E)} {s : System E S}
      → Run connect shuffle start tr s
      → Does s.thread s.connector
  unfolding start resolve_routine
  Run-Does here = record { envs = []; running = tt; clients = tt; leads = refl }
  Run-Does (next run (thread_step step)) = ThreadStep-Does step (Run-Does run)
  Run-Does (next {t} run (call_step i step)) = CallStep-Does t.thread step (Run-Does run)

  -- In every state that the resolving thread and any number of threads in new_session reach from a
  -- new connector, in any interleaving, when the thread is between two rounds: the shared state is
  -- what the sequential function resolve_routine makes of a new connector in some rounds beside
  -- which other threads only ask for endpoints; and endpoints are there or wanted.
  pub Run-IsRounds :
      {tr : List (Label E)} {s : System E S}
      → Run connect shuffle start tr s
      → s.thread ≡ idle
      → IsRounds s.connector × IsLive s.connector
  Run-IsRounds {s} run e =
      let done : Does s.thread s.connector = Run-Does run in
      let rounds : IsRounds s.connector = rw e at done in (rounds, rounds-IsLive rounds)
