-- ===== src/Overload/Window.antt =====
-- How many requests rate-limit/sliding-window.ts lets through in a window.
use systems_engineering_lab.Prelude.{
  ℕ, ◌+◌, ◌≤◌, ◌≡◌, refl, Bool, List, [], ◌∷◌, leb, ltb, if◌then◌else◌, keep, length, arith,
  Bool-cases, inl, inr, ap, ◌∙◌, sym,
}
use systems_engineering_lab.Overload.SlidingWindow.{
  SlidingWindowConfig, RateLimitDecision, RequestLog, in_window, admit, check,
}

-- A run of checks, each so many milliseconds after the one before it, on one clock.
pub record Run : Type 0 where
  pub now : ℕ
  pub log : RequestLog
  -- the times of the requests let through, newest first
  pub admitted : List ℕ

-- A client without a key: an empty log.
abbrev pub begin : SlidingWindowConfig → ℕ → Run
begin config now = record {
  now = now;
  log = record { scores = []; expires_at = now + config.window_ms };
  admitted = [];
}

abbrev pub checked : ℕ → List ℕ → RateLimitDecision × RequestLog → Run
checked now admitted (d, log) = record {
  now = now;
  log = log;
  admitted = if d.allowed then now ∷ admitted else admitted;
}

abbrev pub check_all : SlidingWindowConfig → List ℕ → Run → Run
check_all config [] r = r
check_all config (d ∷ ds) r =
    check_all config ds
      (checked (r.now + d) r.admitted (check config (r.now + d) (r.now + d) r.log))

keep-keep :
    (w s t : ℕ) (xs : List ℕ)
    → s ≤ t
    → keep (in_window w t) (keep (in_window w s) xs) ≡ keep (in_window w t) xs
keep-keep w s t [] l = refl
keep-keep w s t (x ∷ xs) l = ground (arith, l, keep-keep w s t xs l)

fewer_later :
    (w s t : ℕ) (xs : List ℕ)
    → s ≤ t
    → length (keep (in_window w t) xs) ≤ length (keep (in_window w s) xs)
fewer_later w s t [] l = omega arith
fewer_later w s t (x ∷ xs) l = ground (arith, l, fewer_later w s t xs l)

abbrev Before : ℕ → List ℕ → Type 0
Before t [] = Unit
Before t (x ∷ xs) = (x ≤ t) × Before t xs

all_over : (w s t : ℕ) (xs : List ℕ) → Before s xs → s + w ≤ t → keep (in_window w t) xs ≡ []
all_over w s t [] b l = refl
all_over w s t (x ∷ xs) b l = ground (arith, l, b.0, all_over w s t xs b.1 l)

keep-Before : (p : ℕ → Bool) (s t : ℕ) (xs : List ℕ) → s ≤ t → Before s xs → Before t (keep p xs)
keep-Before p s t [] l b = tt
keep-Before p s t (x ∷ xs) l b = elim (Bool-cases (p x)) [
  | inl kept ↦ rw kept (omega (arith, l, b.0), keep-Before p s t xs l b.1)
  | inr dropped ↦ rw dropped (keep-Before p s t xs l b.1)
]

cons_keep :
    (w t : ℕ) (xs ys : List ℕ)
    → keep (in_window w t) xs ≡ keep (in_window w t) ys
    → keep (in_window w t) (t ∷ xs) ≡ keep (in_window w t) (t ∷ ys)
cons_keep w t xs ys e = rw e refl

one_more :
    (w t n : ℕ) (xs : List ℕ)
    → length (keep (in_window w t) xs) + 1 ≤ n
    → length (keep (in_window w t) (t ∷ xs)) ≤ n
one_more w t n xs l = ground (arith, l)

record Inv (config : SlidingWindowConfig) (r : Run) : Type 0 where
  same :
      keep (in_window config.window_ms r.now) r.admitted
      ≡ keep (in_window config.window_ms r.now) r.log.scores
  within : length (keep (in_window config.window_ms r.now) r.admitted) ≤ config.limit
  before : Before r.now r.log.scores
  expires : r.now + config.window_ms ≤ r.log.expires_at

-- Reading the log after it has expired loses nothing that is in the window.
read_keeps :
    (w now t e : ℕ) (xs : List ℕ)
    → Before now xs
    → now + w ≤ e
    → keep (in_window w t) (if leb e t then [] else xs) ≡ keep (in_window w t) xs
read_keeps w now t e xs b l = elim (Bool-cases (leb e t)) [
  | inl over ↦ rw over (sym (all_over w now t xs b (ground (arith, over, l))))
  | inr there ↦ rw there refl
]

begin-Inv : (config : SlidingWindowConfig) (now : ℕ) → Inv config (begin config now)
begin-Inv config now = record {
  same = refl;
  within = omega arith;
  before = tt;
  expires = omega arith;
}

-- What a check leaves, when `xs` is what it has found in the window.
admit-Inv :
    (config : SlidingWindowConfig) (t : ℕ) (xs admitted : List ℕ)
    → keep (in_window config.window_ms t) admitted ≡ xs
    → keep (in_window config.window_ms t) xs ≡ xs
    → length xs ≤ config.limit
    → Before t xs
    → Inv config (checked t admitted (admit config t t xs))
admit-Inv config t xs admitted h k l b = elim (Bool-cases (ltb (length xs) config.limit)) [
  | inl room ↦ rw room (record {
    same = cons_keep config.window_ms t admitted xs (h ∙ sym k);
    within = one_more config.window_ms t config.limit admitted (ground (arith, room, ap length h));
    before = (omega arith, b);
    expires = omega arith;
  })
  | inr full ↦
      rw full (record { same = h ∙ sym k; within = rw h l; before = b; expires = omega arith })
]

check-Inv :
    (config : SlidingWindowConfig) (d : ℕ) (r : Run)
    → Inv config r
    → Inv config (checked (r.now + d) r.admitted (check config (r.now + d) (r.now + d) r.log))
unfolding check
check-Inv config d r v =
    let w = config.window_ms in
    let t = r.now + d in
    let s = r.log.scores in
    let later : r.now ≤ t = omega arith in
    let found = read_keeps w r.now t r.log.expires_at s v.before v.expires in
    let same =
      sym (keep-keep w r.now t r.admitted later)
      ∙ ap (keep (in_window w t)) v.same
      ∙ keep-keep w r.now t s later in
    rw found (
      admit-Inv config t (keep (in_window w t) s) r.admitted same (keep-keep w t t s (omega arith))
        (rw⁻¹ same (omega (arith, v.within, fewer_later w r.now t r.admitted later)))
        (keep-Before (in_window w t) r.now t s later v.before))

check_all-Inv :
    (config : SlidingWindowConfig) (ds : List ℕ) (r : Run)
    → Inv config r
    → Inv config (check_all config ds r)
check_all-Inv config [] r v = v
check_all-Inv config (d ∷ ds) r v =
    check_all-Inv config ds
      (checked (r.now + d) r.admitted (check config (r.now + d) (r.now + d) r.log))
      (check-Inv config d r v)

-- On one clock, whatever the times of a client's requests: at the end of a run of checks, and at any
-- time `t` after it, at most `limit` of the requests let through lie in the window of `windowMs`
-- that ends at `t`.
pub check_all_within :
    (config : SlidingWindowConfig) (start : ℕ) (ds : List ℕ) (t : ℕ)
    → (check_all config ds (begin config start)).now ≤ t
    → length
        (keep (in_window config.window_ms t) (check_all config ds (begin config start)).admitted)
      ≤ config.limit
check_all_within config start ds t l =
    let r = check_all config ds (begin config start) in
    omega (
      arith,
      (check_all-Inv config ds (begin config start) (begin-Inv config start)).within,
      fewer_later config.window_ms r.now t r.admitted l,
    )
