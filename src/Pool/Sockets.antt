-- ===== src/Pool/Sockets.antt =====
-- A pool of stream sockets and its clients: impl/connection_pool.ipp with impl/stream_socket.ipp.
use stream_client.Common.{
  ℕ, ◌<◌, ◌≡◌, refl, sym, ap, ◌∙◌, Bool, true, false, inl, inr, Option, some, some-inj, List, [],
  ◌∷◌, ◌++◌, map, keep, arith, Bool-cases, ◌&&◌, ℤ, if◌then◌else◌,
}
use stream_client.ErrorCode.{ErrorCode, success}
use stream_client.Timed.Defs.{NeverDue, IsDisarmed}
use stream_client.Timed.Operation.{returns, returns-inj}
use stream_client.Socket.Defs.{BaseSocket, IsReady}
use stream_client.Socket.Runs.{Call, AllCalls, run_calls, run_calls-Survives}
use stream_client.Pool.Defs.{Pool, return_session, try_get_session, connection_pool}
use stream_client.Pool.Sweep.{erase_idle_lem, is_fresh}
use stream_client.Pool.Take.{Gets, lock_timed_out, was_empty, took, try_get_session-Gets}
use stream_client.Pool.Fifo.{sessions, sessions-return_session}
use stream_client.Pool.Watch.{swept}

-- A socket between two operations, open or not.
pub record IsSettled (operation_timeout : ℤ) (s : BaseSocket) : Type 0 where
  pub no_deadline : IsDisarmed s.timed
  pub still_posted : 0 < s.timed.posted
  pub mode : s.io_timeouted ≡ true
  pub operations : s.io_operation_timeout ≡ operation_timeout

IsReady-IsSettled : {t : ℤ} (s : BaseSocket) → IsReady t s → IsSettled t s
IsReady-IsSettled s r = record {
  no_deadline = r.no_deadline;
  still_posted = r.still_posted;
  mode = r.mode;
  operations = r.operations;
}

IsSettled-IsReady : {t : ℤ} (s : BaseSocket) → IsSettled t s → s.is_open ≡ true → IsReady t s
IsSettled-IsReady s r e = record {
  is_opened = e;
  no_deadline = r.no_deadline;
  still_posted = r.still_posted;
  mode = r.mode;
  operations = r.operations;
}

abbrev pub AllReady : ℤ → List BaseSocket → Type 0
AllReady t [] = Unit
AllReady t (s ∷ ss) = IsReady t s × AllReady t ss

abbrev pub AllSettled : ℤ → List BaseSocket → Type 0
AllSettled t [] = Unit
AllSettled t (s ∷ ss) = IsSettled t s × AllSettled t ss

-- `held`: what clients have got and not given back.
pub record Clients : Type 0 where
  pub pool : Pool BaseSocket
  pub held : List BaseSocket

-- A client takes a session, uses one it has by any calls that return, or gives one back; the watcher
-- adds a new session, or sweeps.
pub data Step (from_now : ℤ → ℤ → ℤ) (same : Bool) (operation_timeout : ℤ) (x : Clients)
    : Clients → Type 0 where
  gets :
      (s : BaseSocket) (q : Pool BaseSocket) (ec : ErrorCode)
      → try_get_session true success x.pool ≡ (q, some s, ec)
      → Step from_now same operation_timeout x (record { pool = q; held = s ∷ x.held })
  uses :
      (before : List BaseSocket) (s : BaseSocket) (behind : List BaseSocket) (cs : List Call)
      (after : BaseSocket) (results : List (ℕ × ErrorCode))
      → x.held ≡ before ++ s ∷ behind
      → AllCalls from_now same cs
      → run_calls from_now same cs s ≡ returns (after, results)
      → Step from_now same operation_timeout x (record x { held = before ++ after ∷ behind })
  gives_back :
      (before : List BaseSocket) (s : BaseSocket) (behind : List BaseSocket) (locked : Bool)
      (now : ℤ)
      → x.held ≡ before ++ s ∷ behind
      → Step from_now same operation_timeout x (record {
        pool = return_session (λ s. s.is_open) (some s) locked now x.pool;
        held = before ++ behind;
      })
  refills :
      (s : BaseSocket) (locked : Bool) (now : ℤ)
      → IsReady operation_timeout s
      → Step from_now same operation_timeout x
          (record x { pool = return_session (λ s. s.is_open) (some s) locked now x.pool })
  sweeps : (now : ℤ) → Step from_now same operation_timeout x (record x { pool = swept now x.pool })

pub data Reach (from_now : ℤ → ℤ → ℤ) (same : Bool) (operation_timeout : ℤ) (size : ℕ) (idle : ℤ)
    : Clients → Type 0 where
  start :
      Reach from_now same operation_timeout size idle
        (record { pool = connection_pool size idle; held = [] })
  later :
      {x y : Clients}
      → Reach from_now same operation_timeout size idle x
      → Step from_now same operation_timeout x y
      → Reach from_now same operation_timeout size idle y

AllReady-append :
    (t : ℤ) (xs ys : List BaseSocket) → AllReady t xs → AllReady t ys → AllReady t (xs ++ ys)
AllReady-append t [] ys h k = k
AllReady-append t (x ∷ xs) ys h k = (h.0, AllReady-append t xs ys h.1 k)

AllReady-keep :
    (t : ℤ) (p : ℤ × BaseSocket → Bool) (xs : List (ℤ × BaseSocket))
    → AllReady t (map (λ e. e.1) xs)
    → AllReady t (map (λ e. e.1) (keep p xs))
AllReady-keep t p [] h = tt
AllReady-keep t p (x ∷ xs) h = elim (Bool-cases (p x)) [
  | inl e ↦ rw e (h.0, AllReady-keep t p xs h.1)
  | inr e ↦ rw e (AllReady-keep t p xs h.1)
]

-- The sessions beside one of a list.
beside :
    (t : ℤ) (before : List BaseSocket) (s : BaseSocket) (behind : List BaseSocket)
    → AllSettled t (before ++ s ∷ behind)
    → IsSettled t s
      × AllSettled t (before ++ behind)
      × ((r : BaseSocket) → IsSettled t r → AllSettled t (before ++ r ∷ behind))
beside t [] s behind h = (h.0, h.1, λ r k. (k, h.1))
beside t (x ∷ before) s behind h =
    let (one, others, with_) = beside t before s behind h.1 in
    (one, (h.0, others), λ r k. (h.0, with_ r k))

module _ (from_now : ℤ → ℤ → ℤ) (never_due : NeverDue from_now) (same : Bool)
    (operation_timeout : ℤ) where
  abbrev pub AreSound : Clients → Type 0
  AreSound x = AllReady operation_timeout (sessions x.pool) × AllSettled operation_timeout x.held

  stored :
      (opened locked : Bool) (s : BaseSocket) (xs : List BaseSocket)
      → s.is_open ≡ opened
      → IsSettled operation_timeout s
      → AllReady operation_timeout xs
      → AllReady operation_timeout (if opened && locked then xs ++ s ∷ [] else xs)
  stored false locked s xs e settled ready = ready
  stored true false s xs e settled ready = ready
  stored true true s xs e settled ready =
      AllReady-append operation_timeout xs (s ∷ []) ready (IsSettled-IsReady s settled e, tt)

  returned-AllReady :
      (s : BaseSocket) (locked : Bool) (now : ℤ) (p : Pool BaseSocket)
      → IsSettled operation_timeout s
      → AllReady operation_timeout (sessions p)
      → AllReady operation_timeout
          (sessions (return_session (λ s. s.is_open) (some s) locked now p))
  returned-AllReady s locked now p settled ready =
      rw (sessions-return_session (λ (x : BaseSocket). x.is_open) s locked now p)
        (stored s.is_open locked s (sessions p) refl settled ready)

  swept-AllReady :
      (now : ℤ) (p : Pool BaseSocket)
      → AllReady operation_timeout (sessions p)
      → AllReady operation_timeout (sessions (swept now p))
  unfolding swept
  swept-AllReady now p h =
      rw (erase_idle_lem now p.idle_timeout p.sesson_pool)
        (AllReady-keep operation_timeout (is_fresh now p.idle_timeout) p.sesson_pool h)

  taken-AllReady :
      (p q : Pool BaseSocket) (s : BaseSocket) (ec : ErrorCode)
      (r : Pool BaseSocket × Option BaseSocket × ErrorCode)
      → Gets true success p r
      → r ≡ (q, some s, ec)
      → AllReady operation_timeout (sessions p)
      → IsReady operation_timeout s × AllReady operation_timeout (sessions q)
  taken-AllReady p q s ec r (lock_timed_out h k) e ready = absurd (ground (arith, sym k ∙ e))
  taken-AllReady p q s ec r (was_empty h l k) e ready = absurd (ground (arith, sym k ∙ e))
  taken-AllReady p q s ec r (took t s' rest h l k) e ready =
      let whole : AllReady operation_timeout (s' ∷ map (λ x. x.1) rest) = rw l at ready in
      let same_session : s' ≡ s = some-inj (ap (λ x. x.1) (sym k ∙ e)) in
      let same_pool : map (λ x. x.1) rest ≡ sessions q = ap (λ x. sessions x.0) (sym k ∙ e) in
      (rw same_session at whole.0, rw same_pool at whole.1)

  used-IsSettled :
      (s : BaseSocket) (cs : List Call) (after : BaseSocket) (results : List (ℕ × ErrorCode))
      → IsSettled operation_timeout s
      → AllCalls from_now same cs
      → run_calls from_now same cs s ≡ returns (after, results)
      → IsSettled operation_timeout after
  used-IsSettled s cs after results settled calls gives =
      let run =
        run_calls-Survives from_now never_due same cs s calls settled.no_deadline
          settled.still_posted in
      let same_socket : run.after ≡ after = ap (λ x. x.0) (returns-inj (sym run.gives ∙ gives)) in
      let done : IsSettled operation_timeout run.after = record {
        no_deadline = run.disarmed;
        still_posted = run.still_posted;
        mode = run.same_mode ∙ settled.mode;
        operations = run.same_timeout ∙ settled.operations;
      } in
      rw same_socket at done

  Step-AreSound :
      {x y : Clients} → Step from_now same operation_timeout x y → AreSound x → AreSound y
  Step-AreSound {x = x} (gets s q ec e) sound =
      let (ready, rest) =
        taken-AllReady x.pool q s ec (try_get_session true success x.pool)
          (try_get_session-Gets true success x.pool) e sound.0 in
      (rest, (IsReady-IsSettled s ready, sound.1))
  Step-AreSound {x = x} (uses before s behind cs after results e calls gives) sound =
      let (settled, _, with_) = beside operation_timeout before s behind (rw e at sound.1) in
      (sound.0, with_ after (used-IsSettled s cs after results settled calls gives))
  Step-AreSound {x = x} (gives_back before s behind locked now e) sound =
      let (settled, others, _) = beside operation_timeout before s behind (rw e at sound.1) in
      (returned-AllReady s locked now x.pool settled sound.0, others)
  Step-AreSound {x = x} (refills s locked now ready) sound =
      (returned-AllReady s locked now x.pool (IsReady-IsSettled s ready) sound.0, sound.1)
  Step-AreSound {x = x} (sweeps now) sound = (swept-AllReady now x.pool sound.0, sound.1)

  -- In every state that a pool of stream sockets and its clients reach, by taking sessions, using
  -- them in any sequence of calls under accepted limits whose operations end for good, giving them
  -- back, adding new sessions that are ready for their first operation, and sweeping, in any order:
  -- every session in the pool was open when it came and has no deadline on its timer, the timeouts
  -- of its operations switched on and the operation timeout it was made with; and so have the
  -- sessions of the clients, but for being open.
  pub Reach-AreSound :
      {size : ℕ} {idle : ℤ} {x : Clients}
      → Reach from_now same operation_timeout size idle x
      → AreSound x
  unfolding connection_pool
  Reach-AreSound start = (tt, tt)
  Reach-AreSound (later r st) = Step-AreSound st (Reach-AreSound r)
