-- ===== src/Lease/Exclusion.antt =====
-- One owner at a time, for the lease time: basic-lock.ts and lease-renewal.ts.
use systems_engineering_lab.Prelude.{
  ℕ, ◌+◌, ◌≤◌, ◌<◌, ◌≡◌, ◌≢◌, refl, Bool, true, false, Option, none, some, List, [], ◌∷◌, ltb,
  arith, Bool-cases, ◌⊎◌, inl, inr, ◌∙◌, sym, ap,
}
use systems_engineering_lab.Lease.Redis.{Key, Redis, lock_key_for, fencing_counter_key_for}
use systems_engineering_lab.Lease.Locks.{acquire_lock, release_lock, renew_lock, owns}

-- What a client with a token of its own may call.
pub data Call : Type 0 where
  acquire : ℕ → ℕ → Call
  release : ℕ → Call
  renew : ℕ → ℕ → Call

abbrev pub token_of : Call → ℕ
token_of (acquire token ttl_ms) = token
token_of (release token) = token
token_of (renew token ttl_ms) = token

-- Calls with their times and keys: all at times from `lo` on and before `e`, none with the token `a`.
abbrev pub Foreign : ℕ → ℕ → ℕ → List (ℕ × Key × Call) → Type 0
Foreign a lo e [] = Unit
Foreign a lo e ((t, k, c) ∷ cs) = (token_of c ≢ a) × (lo ≤ t) × (t < e) × Foreign a lo e cs

keys : (j k : Key) → (j ≡ k) ⊎ (j ≢ k)
keys (lock_key_for m) (lock_key_for n) = ground arith
keys (lock_key_for m) (fencing_counter_key_for n) = inr (λ p. ground (arith, p))
keys (fencing_counter_key_for m) (lock_key_for n) = inr (λ p. ground (arith, p))
keys (fencing_counter_key_for m) (fencing_counter_key_for n) = ground arith

module _ {Store : Type 0} (R : Redis Store) where
  open R use {get, set_px_nx, del, pexpire}

  abbrev pub call : ℕ → Key → Call → Store → Bool × Store
  call t k (acquire token ttl_ms) s = acquire_lock R t k token ttl_ms s
  call t k (release token) s = release_lock R t k token s
  call t k (renew token ttl_ms) s = renew_lock R t k token ttl_ms s

  abbrev pub call_all : List (ℕ × Key × Call) → Store → Store
  call_all [] s = s
  call_all ((t, k, c) ∷ cs) s = call_all cs (call t k c s).1

  -- The lock is `a`'s at every time from `lo` on and before `e`.
  abbrev pub Holds : ℕ → ℕ → ℕ → Key → Store → Type 0
  Holds a lo e k s = (t : ℕ) → lo ≤ t → t < e → get t k s ≡ some a

  other_owner : (a b : ℕ) → b ≢ a → owns b (some a) ≡ false
  other_owner a b h = ground (arith, h)

  pub owner_owns : (a : ℕ) → owns a (some a) ≡ true
  owner_owns a = ground arith

  owner_known : (a : ℕ) (o : Option ℕ) → owns a o ≡ true → o ≡ some a
  owner_known a none e = ground (arith, e)
  owner_known a (some v) e = ground (arith, e)

  within : (t e : ℕ) → t < e → ltb t e ≡ true
  within t e l = ground (arith, l)

  taken :
      (t : ℕ) (k : Key) (a ttl_ms : ℕ) (s : Store) (o : Option ℕ)
      → get t k s ≡ o
      → (set_px_nx t k a ttl_ms s).0 ≡ true
      → get t k s ≡ none
  taken t k a ttl_ms s none g e = g
  taken t k a ttl_ms s (some v) g e =
      ground (arith, ap (λ r. r.0) (R.set_taken t k a ttl_ms s v g), e)

  pub call_foreign :
      (a t : ℕ) (k : Key) (c : Call) (s : Store)
      → get t k s ≡ some a
      → token_of c ≢ a
      → call t k c s ≡ (false, s)
  unfolding acquire_lock release_lock renew_lock
  call_foreign a t k (acquire b ttl_ms) s g h = R.set_taken t k b ttl_ms s a g
  call_foreign a t k (release b) s g h = rw g (rw (other_owner a b h) refl)
  call_foreign a t k (renew b ttl_ms) s g h = rw g (rw (other_owner a b h) refl)

  call_other_key :
      (t u : ℕ) (j k : Key) (c : Call) (s : Store) → j ≢ k → get u j (call t k c s).1 ≡ get u j s
  unfolding acquire_lock release_lock renew_lock
  call_other_key t u j k (acquire b ttl_ms) s h = R.get-set_ne t u j k b ttl_ms s h
  call_other_key t u j k (release b) s h = ground (arith, R.get-del_ne t u j k s h)
  call_other_key t u j k (renew b ttl_ms) s h = ground (arith, R.get-pexpire_ne t u j k ttl_ms s h)

  call-Holds :
      (a lo e t : ℕ) (j k : Key) (c : Call) (s : Store)
      → token_of c ≢ a
      → lo ≤ t
      → t < e
      → Holds a lo e j s
      → Holds a lo e j (call t k c s).1
  call-Holds a lo e t j k c s h l m hs u lu ue = elim (keys j k) [
    | inl same ↦
        ap (λ r. get u j r.1) (call_foreign a t k c s (ap (λ i. get t i s) (sym same) ∙ hs t l m) h)
        ∙ hs u lu ue
    | inr other ↦ call_other_key t u j k c s other ∙ hs u lu ue
  ]

  call_all-Holds :
      (a lo e : ℕ) (j : Key) (cs : List (ℕ × Key × Call)) (s : Store)
      → Foreign a lo e cs
      → Holds a lo e j s
      → Holds a lo e j (call_all cs s)
  call_all-Holds a lo e j [] s f hs = hs
  call_all-Holds a lo e j ((t, k, c) ∷ cs) s (h, l, m, f) hs =
      call_all-Holds a lo e j cs (call t k c s).1 f (call-Holds a lo e t j k c s h l m hs)

  pub acquire_lock-Holds :
      (a t ttl_ms : ℕ) (k : Key) (s : Store)
      → 0 < ttl_ms
      → (acquire_lock R t k a ttl_ms s).0 ≡ true
      → Holds a t (t + ttl_ms) k (acquire_lock R t k a ttl_ms s).1
  unfolding acquire_lock
  acquire_lock-Holds a t ttl_ms k s pos e u lu ue =
      R.get-set t u k a ttl_ms s pos (taken t k a ttl_ms s (get t k s) refl e) lu
      ∙ rw (within u (t + ttl_ms) ue) refl

  renewed :
      (a t ttl_ms : ℕ) (k : Key) (s : Store)
      → (renew_lock R t k a ttl_ms s).0 ≡ true
      → get t k s ≡ some a
  unfolding renew_lock
  renewed a t ttl_ms k s e = elim (Bool-cases (owns a (get t k s))) [
    | inl own ↦ owner_known a (get t k s) own
    | inr not_own ↦ ground (arith, not_own, e)
  ]

  renew_lock-Holds :
      (a t ttl_ms : ℕ) (k : Key) (s : Store)
      → (renew_lock R t k a ttl_ms s).0 ≡ true
      → Holds a t (t + ttl_ms) k (renew_lock R t k a ttl_ms s).1
  unfolding renew_lock
  renew_lock-Holds a t ttl_ms k s e u lu ue = elim (Bool-cases (owns a (get t k s))) [
    | inl own ↦ rw own (
        R.get-pexpire t u k ttl_ms s a (owner_known a (get t k s) own) lu
        ∙ rw (within u (t + ttl_ms) ue) refl)
    | inr not_own ↦ ground (arith, not_own, e)
  ]

  -- `renewLock` returns true only to the owner; then, whatever clients with other tokens call during
  -- the new lease time, the lock stays the owner's for all of it, counted from the renewal.
  pub renew_lock_extends :
      (a t ttl_ms : ℕ) (k : Key) (cs : List (ℕ × Key × Call)) (s : Store)
      → (renew_lock R t k a ttl_ms s).0 ≡ true
      → Foreign a t (t + ttl_ms) cs
      → (u : ℕ) → t ≤ u
      → u < t + ttl_ms
      → (get t k s ≡ some a) × (get u k (call_all cs (renew_lock R t k a ttl_ms s).1) ≡ some a)
  renew_lock_extends a t ttl_ms k cs s e f u lu ue = (
    renewed a t ttl_ms k s e,
    call_all-Holds a t (t + ttl_ms) k cs (renew_lock R t k a ttl_ms s).1 f
        (renew_lock-Holds a t ttl_ms k s e) u lu ue,
  )
