-- ===== src/Connector/Requests.antt =====
-- What becomes of the requests for endpoints while threads of new_session and the resolving thread
-- run beside each other.
use stream_client.Common.{◌≡◌, refl, sym, ◌∙◌, ℕ, Bool, true, false, List, [], ◌∷◌}
use stream_client.ErrorCode.{Throws}
use stream_client.Connector.Defs.{Connector, updates, notifies_needed, base_connector, act}
use stream_client.Connector.System.{
  Label, begins, acts, rests, Resolving, idle, resolving, resolved, told, taken, updated, unlocked,
  stopped, Calling, holds, ThreadStep, misses, stops, starts, gets, tells, fails, takes, stores,
  unlocks, announces, CallStep, expires, enters, reports, reads, ends_empty, connects, breaks,
  decides, asks, apply, System, start, thread_step, call_step, Run, here, next,
}

module _ {E : Type 0} where
  -- Of a trace, the latest event first: a request has come since resolve() was called last. The
  -- connector is made with a request.
  abbrev pub asked_since : List (Label E) → Bool
  asked_since [] = true
  asked_since (begins ∷ tr) = false
  asked_since (acts notifies_needed ∷ tr) = true
  asked_since (_ ∷ tr) = asked_since tr

  -- There is a request that no resolve() called after it has answered with endpoints.
  abbrev pub unanswered : List (Label E) → Bool
  unanswered [] = true
  unanswered (acts notifies_needed ∷ tr) = true
  unanswered (acts (updates es) ∷ tr) = asked_since tr
  unanswered (_ ∷ tr) = unanswered tr

  -- What the flag tells, for each place of the resolving thread.
  abbrev Tells : Resolving E → Bool → List (Label E) → Type 0
  Tells (taken es) needed tr = (needed ≡ false) × (asked_since tr ≡ false)
  Tells idle needed tr = needed ≡ unanswered tr
  Tells unlocked needed tr = needed ≡ unanswered tr
  Tells stopped needed tr = needed ≡ unanswered tr
  Tells _ needed tr = (needed ≡ unanswered tr) × (asked_since tr ≡ false)

  ThreadStep-Tells :
      {c : Connector E} {p q : Resolving E} {e : Label E} (tr : List (Label E))
      → ThreadStep c p e q
      → Tells p c.resolve_needed tr
      → Tells q (apply e c).resolve_needed (e ∷ tr)
  unfolding apply act
  ThreadStep-Tells tr misses h = h
  ThreadStep-Tells tr stops h = h
  ThreadStep-Tells tr (starts needed) h = (h, refl)
  ThreadStep-Tells tr (gets ec es) h = h
  ThreadStep-Tells tr (tells ec es) h = h
  ThreadStep-Tells tr (fails ec es bad) h = h.0
  ThreadStep-Tells tr (takes ec es fine) h = (refl, h.1)
  ThreadStep-Tells tr (stores es) h = (h.0 ∙ sym h.1, h.1)
  ThreadStep-Tells tr unlocks h = h.0
  ThreadStep-Tells tr announces h = h

  -- A step that shows nothing, and a request while the mutex is free.
  request-Tells :
      (p : Resolving E) (needed : Bool) (tr : List (Label E))
      → holds p ≡ false
      → Tells p needed tr
      → Tells p true (acts notifies_needed ∷ tr)
  unfolding holds
  request-Tells idle needed tr h k = refl
  request-Tells unlocked needed tr h k = refl
  request-Tells stopped needed tr h k = refl
  request-Tells resolving needed tr h k = absurd (cc)
  request-Tells (resolved ec es) needed tr h k = absurd (cc)
  request-Tells (told ec es) needed tr h k = absurd (cc)
  request-Tells (taken es) needed tr h k = absurd (cc)
  request-Tells updated needed tr h k = absurd (cc)

  rests-Tells :
      (p : Resolving E) (needed : Bool) (tr : List (Label E))
      → Tells p needed tr
      → Tells p needed (rests ∷ tr)
  rests-Tells idle needed tr k = k
  rests-Tells unlocked needed tr k = k
  rests-Tells stopped needed tr k = k
  rests-Tells resolving needed tr k = k
  rests-Tells (resolved ec es) needed tr k = k
  rests-Tells (told ec es) needed tr k = k
  rests-Tells (taken es) needed tr k = k
  rests-Tells updated needed tr k = k

  free-Tells :
      (p : Resolving E) (needed : Bool) (tr : List (Label E))
      → holds p ≡ false
      → Tells p needed tr
      → needed ≡ unanswered tr
  unfolding holds
  free-Tells idle needed tr h k = k
  free-Tells unlocked needed tr h k = k
  free-Tells stopped needed tr h k = k
  free-Tells resolving needed tr h k = absurd (cc)
  free-Tells (resolved ec es) needed tr h k = absurd (cc)
  free-Tells (told ec es) needed tr h k = absurd (cc)
  free-Tells (taken es) needed tr h k = absurd (cc)
  free-Tells updated needed tr h k = absurd (cc)

module _ {E S : Type 0} where
  CallStep-Tells :
      {connect : E → Throws S} {shuffle_vector : List E → List E} {c : Connector E}
      {p q : Calling E S} {e : Label E} (r : Resolving E) (tr : List (Label E))
      → CallStep connect shuffle_vector (holds r) c p e q
      → Tells r c.resolve_needed tr
      → Tells r (apply e c).resolve_needed (e ∷ tr)
  unfolding apply act
  CallStep-Tells {c} r tr expires h = rests-Tells r c.resolve_needed tr h
  CallStep-Tells {c} r tr (enters _) h = rests-Tells r c.resolve_needed tr h
  CallStep-Tells {c} r tr reports h = rests-Tells r c.resolve_needed tr h
  CallStep-Tells {c} r tr reads h = rests-Tells r c.resolve_needed tr h
  CallStep-Tells {c} r tr ends_empty h = rests-Tells r c.resolve_needed tr h
  CallStep-Tells {c} r tr (connects _ _ _ _) h = rests-Tells r c.resolve_needed tr h
  CallStep-Tells {c} r tr (breaks _ _ _ _) h = rests-Tells r c.resolve_needed tr h
  CallStep-Tells {c} r tr (decides _) h = rests-Tells r c.resolve_needed tr h
  CallStep-Tells {c} r tr (asks _ free) h = request-Tells r c.resolve_needed tr free h

module _ {E S : Type 0} (connect : ℕ → E → Throws S) (shuffle : ℕ → List E → List E) where
  Run-Tells :
      {tr : List (Label E)} {s : System E S}
      → Run connect shuffle start tr s
      → Tells s.thread s.connector.resolve_needed tr
  unfolding start base_connector
  Run-Tells here = refl
  Run-Tells (next {tr} run (thread_step step)) = ThreadStep-Tells tr step (Run-Tells run)
  Run-Tells (next {tr} {t} run (call_step i step)) = CallStep-Tells t.thread tr step (Run-Tells run)

  -- In every state that the resolving thread and any number of threads in new_session reach from a
  -- new connector, in any interleaving, while the thread does not hold resolve_needed_mutex_:
  -- resolve_needed_ is set exactly if some request for endpoints, that of the constructor counted,
  -- has not been followed by a call of resolve() whose endpoints were stored.
  pub Run-answers :
      {tr : List (Label E)} {s : System E S}
      → Run connect shuffle start tr s
      → holds s.thread ≡ false
      → s.connector.resolve_needed ≡ unanswered tr
  Run-answers {tr} {s} run free =
      free-Tells s.thread s.connector.resolve_needed tr free (Run-Tells run)
