-- ===== src/Perfquery/Retry/Laws.antt =====
-- The retry policy.
use infiniband_exporter.Prelude.{
  ℕ, zero, suc, ◌+◌, ◌≤◌, ◌<◌, ◌≡◌, refl, ◌⊎◌, inl, inr, Option, none, some, arith, true, false,
  Bool-cases,
}
use infiniband_exporter.Prelude.Int.{ℤ, pos, negsuc, pos_part, at_least}
use native.Mathlib.Decide.{ℕ_discrete}
use infiniband_exporter.Text.{Text}
use infiniband_exporter.Exec.{ExecError, deadline_exceeded, exit_error, Outcome}
use infiniband_exporter.Perfquery.Retry.{Retried, retry_loop, perfquery_with_retry}

-- An answer that is worth another attempt.
abbrev pub IsTransient : Outcome → Type 0
IsTransient o = (e : Text) × (o.1 ≡ some (exit_error e))

-- The loop answers with attempt `r.1`: the attempts between `first` and it were all transient, and
-- it was not, or no retry was left.
pub record Settles (exec : ℕ → Outcome) (max_retries : ℤ) (first : ℕ) (r : Retried) : Type 0 where
  pub begins : first ≤ r.1
  pub within : r.1 ≤ pos_part max_retries
  pub before : (k : ℕ) → first ≤ k → k < r.1 → IsTransient (exec k)
  pub out_is : (exec r.1).0 ≡ r.0
  pub error_is : (exec r.1).1 ≡ r.2
  pub stops : (r.2 ≡ none) ⊎ (r.2 ≡ some deadline_exceeded) ⊎ (pos_part max_retries ≤ r.1)

Error-cases :
    (e : Option ExecError)
    → (e ≡ none) ⊎ (e ≡ some deadline_exceeded) ⊎ ((m : Text) × (e ≡ some (exit_error m)))
Error-cases none = inl refl
Error-cases (some deadline_exceeded) = inr (inl refl)
Error-cases (some (exit_error m)) = inr (inr (m, refl))

at_least-ge : (n : ℕ) (z : ℤ) → at_least n z ≡ true → pos_part z ≤ n
at_least-ge n (pos m) h = ground arith
at_least-ge n (negsuc m) h = omega arith

at_least-lt : (n : ℕ) (z : ℤ) → at_least n z ≡ false → n < pos_part z
at_least-lt n (pos m) h = ground arith
at_least-lt n (negsuc m) h = cc

module _ (exec : ℕ → Outcome) (max_retries : ℤ) where
  stop_here :
      (a : ℕ) {e : Option ExecError}
      → a ≤ pos_part max_retries
      → (exec a).1 ≡ e
      → (e ≡ none) ⊎ (e ≡ some deadline_exceeded) ⊎ (pos_part max_retries ≤ a)
      → Settles exec max_retries a ((exec a).0, a, e)
  stop_here a le e s = record {
    begins = omega arith;
    within = le;
    before = λ k lo hi. absurd (omega arith);
    out_is = refl;
    error_is = e;
    stops = s;
  }

  go_on :
      (a : ℕ) {r : Retried}
      → IsTransient (exec a)
      → Settles exec max_retries (suc a) r
      → Settles exec max_retries a r
  go_on a {r} t s = record {
    begins = omega (arith, s.begins);
    within = s.within;
    before =
        λ k lo hi. elim (ℕ_discrete k a) [ yes e ↦ rw e t | no ne ↦ s.before k (omega arith) hi ];
    out_is = s.out_is;
    error_is = s.error_is;
    stops = s.stops;
  }

  pub retry_loop-Settles :
      (fuel a : ℕ)
      → a + fuel ≡ suc (pos_part max_retries)
      → a ≤ pos_part max_retries
      → (r : Retried) × (retry_loop exec max_retries fuel a ≡ some r) × Settles exec max_retries a r
  unfolding retry_loop
  retry_loop-Settles zero a h le = absurd (omega arith)
  retry_loop-Settles (suc fuel) a h le = elim (Error-cases (exec a).1) [
    | inl e ↦ (((exec a).0, a, none), rw e, stop_here a le e (inl refl))
    | inr (inl e) ↦
        (((exec a).0, a, some deadline_exceeded), rw e, stop_here a le e (inr (inl refl)))
    | inr (inr (m, e)) ↦ elim (Bool-cases (at_least a max_retries)) [
      | inl t ↦ (
        ((exec a).0, a, some (exit_error m)),
        rw (e, t),
        stop_here a le e (inr (inr (at_least-ge a max_retries t))),
      )
      | inr f ↦
          let (r, eq, s) =
            retry_loop-Settles fuel (suc a) (omega arith) (at_least-lt a max_retries f) in
          (r, rw (e, f) eq, go_on a (m, e) s)
    ]
  ]

  perfquery_with_retry-Settles : Settles exec max_retries 0 (perfquery_with_retry exec max_retries)
  unfolding perfquery_with_retry
  perfquery_with_retry-Settles =
      let (r, e, s) =
        retry_loop-Settles (suc (pos_part max_retries)) 0 (omega arith) (omega arith) in
      rw e s

  later_not_Settles :
      {r s : Retried} → Settles exec max_retries 0 r → Settles exec max_retries 0 s → ¬ (r.1 < s.1)
  later_not_Settles {r} {s} hr hs lt =
      let (m, t) = hs.before r.1 (omega arith) lt in
      elim hr.stops [
        | inl e ↦ cc (hr.error_is)
        | inr (inl e) ↦ cc (hr.error_is)
        | inr (inr le) ↦ absurd (omega (arith, hs.within))
      ]

  Settles-unique :
      (r s : Retried)
      → Settles exec max_retries 0 r
      → Settles exec max_retries 0 s
      → (r.0 ≡ s.0) × (r.1 ≡ s.1) × (r.2 ≡ s.2)
  Settles-unique r s hr hs =
      let e : r.1 ≡ s.1 = omega (arith, later_not_Settles hr hs, later_not_Settles hs hr) in
      (cc (hr.out_is, hs.out_is), e, cc (hr.error_is, hs.error_is))

  -- The call with retries answers as the first attempt that succeeds or meets the deadline, or as
  -- the last one that the flag allows, when every attempt before it failed with another error.
  pub perfquery_with_retry_lem : Settles exec max_retries 0 (perfquery_with_retry exec max_retries)
  perfquery_with_retry_lem = perfquery_with_retry-Settles

  -- An answer that is so is the output, the retries and the error of the call with retries.
  perfquery_with_retry_unique :
      (r : Retried)
      → Settles exec max_retries 0 r
      → let s = perfquery_with_retry exec max_retries in (r.0 ≡ s.0) × (r.1 ≡ s.1) × (r.2 ≡ s.2)
  perfquery_with_retry_unique r h = Settles-unique r _ h perfquery_with_retry-Settles
