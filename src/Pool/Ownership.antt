-- ===== src/Pool/Ownership.antt =====
-- Who owns a session: threads that share one pool, a critical section at a time, in any order.
-- Sessions are numbered in the order in which the connector makes them.
use stream_client.Common.{
  ℕ, suc, ◌+◌, ◌≡◌, sym, ap, ◌∙◌, Bool, true, not, ◌&&◌, Option, some, List, [], ◌∷◌, ◌++◌, map,
  arith, ltb, ◌==◌, if◌then◌else◌, keep, ℤ,
}
use mathlib.Core.List.{map-append}
use stream_client.ErrorCode.{ErrorCode, success}
use stream_client.Pool.Defs.{Pool, act, return_session, try_get_session, connection_pool}
use stream_client.Pool.Sweep.{erase_idle_lem, is_fresh}
use stream_client.Pool.Take.{Gets, lock_timed_out, was_empty, took, try_get_session-Gets}
use stream_client.Pool.Fifo.{sessions}
use stream_client.Pool.Watch.{swept}

-- `held`: what clients have got and not given back; `gone`: what has been destroyed; `fresh`: the
-- number of the next new session.
pub record System : Type 0 where
  pub pool : Pool ℕ
  pub held : List ℕ
  pub gone : List ℕ
  pub fresh : ℕ

-- The sessions that a sweep destroys, and the one that a return destroys.
abbrev pub erased : ℤ → Pool ℕ → List ℕ
erased now p = map (λ e. e.1) (keep (λ e. not (is_fresh now p.idle_timeout e)) p.sesson_pool)

abbrev pub refused : Bool → List ℕ → ℕ → List ℕ
refused stored gone s = if stored then gone else s ∷ gone

-- One critical section of one thread. A return may miss the lock, and may find the session closed.
pub data Step (is_open : ℕ → Bool) (x : System) : System → Type 0 where
  gets :
      {s : ℕ} {q : Pool ℕ} {ec : ErrorCode}
      → try_get_session true success x.pool ≡ (q, some s, ec)
      → Step is_open x (record x { pool = q; held = s ∷ x.held })
  gives_back :
      (before : List ℕ) (s : ℕ) (behind : List ℕ) (locked : Bool) (now : ℤ)
      → x.held ≡ before ++ s ∷ behind
      → Step is_open x (record x {
        pool = return_session is_open (some s) locked now x.pool;
        held = before ++ behind;
        gone = refused (is_open s && locked) x.gone s;
      })
  discards :
      (before : List ℕ) (s : ℕ) (behind : List ℕ)
      → x.held ≡ before ++ s ∷ behind
      → Step is_open x (record x { held = before ++ behind; gone = s ∷ x.gone })
  refills :
      (locked : Bool) (now : ℤ)
      → Step is_open x (record x {
        pool = return_session is_open (some x.fresh) locked now x.pool;
        gone = refused (is_open x.fresh && locked) x.gone x.fresh;
        fresh = suc x.fresh;
      })
  erases :
      (now : ℤ)
      → Step is_open x (record x { pool = swept now x.pool; gone = erased now x.pool ++ x.gone })

pub data Reach (is_open : ℕ → Bool) (size : ℕ) (idle : ℤ) : System → Type 0 where
  start :
      Reach is_open size idle
        (record { pool = connection_pool size idle; held = []; gone = []; fresh = 0 })
  later : {x y : System} → Reach is_open size idle x → Step is_open x y → Reach is_open size idle y

unfoldable pub count : ℕ → List ℕ → ℕ
count a [] = 0
count a (x ∷ xs) = (if x == a then 1 else 0) + count a xs

pub count-append : (a : ℕ) (xs ys : List ℕ) → count a (xs ++ ys) ≡ count a xs + count a ys
unfolding count
count-append a [] ys = omega arith
count-append a (x ∷ xs) ys = omega (arith, count-append a xs ys)

-- How many places session `a` has: in the pool, at clients, among the destroyed.
abbrev pub places : ℕ → System → ℕ
places a x = count a (sessions x.pool) + count a x.held + count a x.gone

-- A session that was made has exactly one place, another none.
abbrev pub Owned : System → Type 0
Owned x = (a : ℕ) → places a x ≡ (if ltb a x.fresh then 1 else 0)

count-keep :
    (a : ℕ) (p : ℤ × ℕ → Bool) (xs : List (ℤ × ℕ))
    → count a (map (λ e. e.1) (keep p xs)) + count a (map (λ e. e.1) (keep (λ e. not (p e)) xs))
      ≡ count a (map (λ e. e.1) xs)
unfolding count
count-keep a p [] = omega arith
count-keep a p (x ∷ xs) = ground (arith, count-keep a p xs)

count-swept :
    (a : ℕ) (now : ℤ) (p : Pool ℕ)
    → count a (sessions (swept now p)) + count a (erased now p) ≡ count a (sessions p)
unfolding swept
count-swept a now p =
    rw (erase_idle_lem now p.idle_timeout p.sesson_pool)
      (count-keep a (is_fresh now p.idle_timeout) p.sesson_pool)

-- A session that is put in, or handed to return_session in vain, is in the pool or destroyed.
count-return_session :
    (a : ℕ) (is_open : ℕ → Bool) (s : ℕ) (locked : Bool) (now : ℤ) (p : Pool ℕ) (gone : List ℕ)
    → count a (sessions (return_session is_open (some s) locked now p))
        + count a (refused (is_open s && locked) gone s)
      ≡ count a (sessions p) + count a gone + (if s == a then 1 else 0)
unfolding return_session act count
count-return_session a is_open s locked now p gone = ground (
  arith,
  map-append (λ (e : ℤ × ℕ). e.1) p.sesson_pool ((now, s) ∷ []),
  count-append a (sessions p) (s ∷ []),
)

count-Gets :
    (a : ℕ) (p q : Pool ℕ) (s : ℕ) (ec : ErrorCode) (r : Pool ℕ × Option ℕ × ErrorCode)
    → Gets true success p r
    → r ≡ (q, some s, ec)
    → count a (sessions q) + (if s == a then 1 else 0) ≡ count a (sessions p)
unfolding count
count-Gets a p q s ec r (lock_timed_out h k) e = cc
count-Gets a p q s ec r (was_empty h l k) e = cc
count-Gets a p q s ec r (took t s' rest h l k) e =
    let e' : (record p { sesson_pool = rest }, some s', success) ≡ (q, some s, ec) = sym k ∙ e in
    ground (arith, ap sessions (ap (λ x. x.0) e'), ap (λ x. x.1) e', ap (map (λ x. x.1)) l)

-- What try_get_session gives was in the pool, and is there no more.
count-try_get_session :
    (a : ℕ) (p q : Pool ℕ) (s : ℕ) (ec : ErrorCode)
    → try_get_session true success p ≡ (q, some s, ec)
    → count a (sessions q) + (if s == a then 1 else 0) ≡ count a (sessions p)
count-try_get_session a p q s ec e =
    count-Gets a p q s ec (try_get_session true success p) (try_get_session-Gets true success p) e

count-split :
    (a : ℕ) (held before : List ℕ) (s : ℕ) (behind : List ℕ)
    → held ≡ before ++ s ∷ behind
    → count a held ≡ count a (before ++ behind) + (if s == a then 1 else 0)
unfolding count
count-split a held before s behind e =
    rw e (omega (arith, count-append a before (s ∷ behind), count-append a before behind))

pub Step-Owned : {is_open : ℕ → Bool} {x y : System} → Step is_open x y → Owned x → Owned y
unfolding count
Step-Owned {x = x} (gets {s} {q} {ec} e) v a =
    omega (arith, v a, count-try_get_session a x.pool q s ec e)
Step-Owned {is_open} {x = x} (gives_back before s behind locked now e) v a = omega (
  arith,
  v a,
  count-split a x.held before s behind e,
  count-return_session a is_open s locked now x.pool x.gone,
)
Step-Owned {x = x} (discards before s behind e) v a =
    omega (arith, v a, count-split a x.held before s behind e)
Step-Owned {is_open} {x = x} (refills locked now) v a =
    ground (arith, v a, count-return_session a is_open x.fresh locked now x.pool x.gone)
Step-Owned {x = x} (erases now) v a =
    omega (arith, v a, count-swept a now x.pool, count-append a (erased now x.pool) x.gone)

-- In every state that critical sections of try_get_session, return_session, the sweep and the
-- appending of new sessions reach from the empty pool, in any order, each session that was made has
-- exactly one place: in the pool, at a client, or among those that a closed or unlocked return, a
-- client or the sweep has destroyed; and a session that was not made has none.
pub Reach-Owned :
    {is_open : ℕ → Bool} {size : ℕ} {idle : ℤ} {x : System} → Reach is_open size idle x → Owned x
unfolding count connection_pool
Reach-Owned start a = ground arith
Reach-Owned (later r st) a = Step-Owned st (Reach-Owned r) a
