-- ===== src/Breaker/Interleaving.antt =====
-- Any number of calls of `execute` on one breaker, in any order of their two halves.
use systems_engineering_lab.Prelude.{
  ℕ, suc, ◌+◌, ◌≡◌, ◌≢◌, refl, Bool, false, List, [], ◌∷◌, ◌++◌, arith, subst, if◌then◌else◌,
}
use systems_engineering_lab.Breaker.{
  CircuitState, closed, CircuitBreakerOptions, CircuitBreaker, constructor, Place, probe, normal,
  Admission, circuit_open_error, calls, begin, settle, transition,
}

-- The breaker, and the calls of `fn` that have not settled.
pub record World : Type 0 where
  pub breaker : CircuitBreaker
  pub in_flight : List Place

unfoldable pub init : CircuitBreakerOptions → World
init opts = record { breaker = constructor opts; in_flight = [] }

abbrev pub begun : List Place → Admission × CircuitBreaker → World
begun ps (circuit_open_error st, b) = record { breaker = b; in_flight = ps }
begun ps (calls p, b) = record { breaker = b; in_flight = p ∷ ps }

-- A call of `execute` begins, or one of the calls of `fn` in flight settles.
pub data Step (w : World) (u : World) : Type 0 where
  begins : (now : ℕ) → u ≡ begun w.in_flight (begin now w.breaker) → Step w u
  settles :
      (ps : List Place) (p : Place) (qs : List Place) (ok : Bool) (now : ℕ)
      → w.in_flight ≡ ps ++ p ∷ qs
      → u ≡ record { breaker = settle p ok now w.breaker; in_flight = ps ++ qs }
      → Step w u

pub data Reach (w : World) : World → Type 0 where
  here : Reach w w
  next : {u v : World} → Reach w u → Step u v → Reach w v

abbrev pub probes : List Place → ℕ
probes [] = 0
probes (probe ∷ ps) = suc (probes ps)
probes (normal ∷ ps) = probes ps

probes-append : (ps qs : List Place) → probes (ps ++ qs) ≡ probes ps + probes qs
probes-append [] qs = omega arith
probes-append (probe ∷ ps) qs = omega (arith, probes-append ps qs)
probes-append (normal ∷ ps) qs = probes-append ps qs

-- The changes that the callback saw, newest first, lead from `closed` to the state.
abbrev pub Chained : CircuitState → List (CircuitState × CircuitState) → Type 0
Chained st [] = st ≡ closed
Chained st ((f, t) ∷ cs) = (t ≡ st) × (f ≢ t) × Chained f cs

pub record Inv (w : World) : Type 0 where
  pub one_probe : probes w.in_flight ≡ (if w.breaker.half_open_probe_in_flight then 1 else 0)
  pub closed_idle : w.breaker.state ≡ closed → w.breaker.half_open_probe_in_flight ≡ false
  pub chained : Chained w.breaker.state w.breaker.changes

transition-Chained :
    (to : CircuitState) (b : CircuitBreaker)
    → Chained b.state b.changes
    → Chained to (transition to b).changes
unfolding transition
transition-Chained to b h = ground arith

begin-Inv :
    (now : ℕ) (b : CircuitBreaker) (ps : List Place)
    → Inv (record { breaker = b; in_flight = ps })
    → Inv (begun ps (begin now b))
unfolding begin
begin-Inv now b ps v = ground arith

settle-Inv :
    (p : Place) (ok : Bool) (now : ℕ) (b : CircuitBreaker) (ps qs : List Place)
    → Inv (record { breaker = b; in_flight = ps ++ p ∷ qs })
    → Inv (record { breaker = settle p ok now b; in_flight = ps ++ qs })
unfolding settle
settle-Inv p ok now b ps qs v = ground (arith, probes-append ps qs, probes-append ps (p ∷ qs))

Step-Inv : {w u : World} → Step w u → Inv w → Inv u
Step-Inv {w} (begins now e) v = rw e (begin-Inv now w.breaker w.in_flight v)
Step-Inv {w} (settles ps p qs ok now f e) v =
    rw e (settle-Inv p ok now w.breaker ps qs (subst At f v))
  where
    At : List Place → Type 0
    At is = Inv (record { breaker = w.breaker; in_flight = is })

init-Inv : (opts : CircuitBreakerOptions) → Inv (init opts)
unfolding init constructor
init-Inv opts = record { one_probe = refl; closed_idle = λ _. refl; chained = refl }

-- Whatever the order in which calls begin and settle, from a new breaker: the flag
-- `halfOpenProbeInFlight` is set exactly while one probe is in flight, and there are never two; in
-- `CLOSED` there is none; and the changes that `onStateChange` saw form a path from `CLOSED` to
-- the present state, in which each change is to another state.
pub Reach-Inv : (opts : CircuitBreakerOptions) {w : World} → Reach (init opts) w → Inv w
Reach-Inv opts here = init-Inv opts
Reach-Inv opts (next r st) = Step-Inv st (Reach-Inv opts r)
