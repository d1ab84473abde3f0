-- ===== src/Queues/Middleware/Order.antt =====
-- internal/queues/middleware.go: the proofs on Chain and OnRetriesExhausted.
use digital_wallet.Prelude.{
  ℕ, ◌≤◌, ◌≡◌, ◌⊎◌, inl, inr, refl, sym, ◌∙◌, ap, Bool, true, false, not, ◌&&◌, Option, none, some,
  List, [], ◌∷◌, leb, arith, Bool-cases,
}
use digital_wallet.Shared.{Error, is_skip_retry}
use digital_wallet.Exec.{Result, ok, err, pure, raise, attempt}
use digital_wallet.Queues.Middleware.{
  Attempt, Handler, MiddlewareFunc, ExhaustedFunc, is_final_attempt, used_up, chain_from,
  reverse_onto, chain, after_next, report, drop_error, on_retries_exhausted,
}

-- the attempt fails, does not ask for no retry, and has no retry left
abbrev pub RunsOut : Attempt → Result (Unit {0}) → Type 0
RunsOut ctx r =
    (e : Error) × (retried : ℕ) × (max_retry : ℕ) × (r ≡ err e)
    × (is_skip_retry e ≡ false)
    × (ctx.retried ≡ some retried)
    × (ctx.max_retry ≡ some max_retry)
    × (max_retry ≤ retried)

used_up_counts :
    (a b : Option ℕ)
    → used_up a b ≡ true
    → (retried : ℕ) × (max_retry : ℕ) × (a ≡ some retried)
      × (b ≡ some max_retry)
      × (max_retry ≤ retried)
used_up_counts none b h = cc
used_up_counts (some r) none h = cc
used_up_counts (some r) (some m) h = (r, m, refl, refl, ground arith)

leb-true : (a b : ℕ) → a ≤ b → leb a b ≡ true
leb-true a b h = ground arith

final_counts :
    (ctx : Attempt) (e : Error)
    → (not (is_skip_retry e) && is_final_attempt ctx (err e)) ≡ true
    → RunsOut ctx (err e)
unfolding is_final_attempt
final_counts ctx e h = elim (Bool-cases (is_skip_retry e)) [
  | inl skipped ↦ (let bad : false ≡ true = rw skipped at h in cc)
  | inr kept ↦
      let (retried, max_retry, a, b, le) =
        used_up_counts ctx.retried ctx.max_retry (rw kept at h) in
      (e, retried, max_retry, refl, kept, a, b, le)
]

module _ {S : Type 0} where
  chain_from-reverse :
      (h : Handler S) (ms acc : List (MiddlewareFunc S))
      → chain_from h (reverse_onto ms acc) ≡ chain_from (chain_from h (reverse_onto ms [])) acc
  chain_from-reverse h [] acc = refl
  chain_from-reverse h (m ∷ ms) acc =
      chain_from-reverse h ms (m ∷ acc)
      ∙ sym (ap (λ g. chain_from g acc) (chain_from-reverse h ms (m ∷ [])))

  -- Chaining a handler in middlewares makes the first of them the outermost.
  pub chain-first :
      (h : Handler S) (m : MiddlewareFunc S) (ms : List (MiddlewareFunc S))
      → chain h (m ∷ ms) ≡ m (chain h ms)
  unfolding chain
  chain-first h m ms = chain_from-reverse h ms (m ∷ [])

  -- What the middleware does after the attempt, for the result and the state that the attempt left.
  after_next-result :
      (fn : ExhaustedFunc S) (ctx : Attempt) (r : Result (Unit {0})) (s : S)
      → (after_next fn ctx r s).0 ≡ r
  unfolding attempt pure raise
  after_next-result fn ctx (ok _) s = refl
  after_next-result fn ctx (err e) s =
      report-result (not (is_skip_retry e) && is_final_attempt ctx (err e))
    where
      report-result : (b : Bool) → (report (drop_error fn) ctx b e s).0 ≡ err e
      report-result true = refl
      report-result false = refl

  after_next-state :
      (fn : ExhaustedFunc S) (ctx : Attempt) (r : Result (Unit {0})) (s : S)
      → ((after_next fn ctx r s).1 ≡ s)
        ⊎ ((e : Error) × (r ≡ err e) × RunsOut ctx r × ((after_next fn ctx r s).1 ≡ (fn ctx e s).1))
  unfolding attempt pure raise
  after_next-state fn ctx (ok _) s = inl refl
  after_next-state fn ctx (err e) s =
      report-state (not (is_skip_retry e) && is_final_attempt ctx (err e)) refl
    where
      report-state :
          (b : Bool)
          → (not (is_skip_retry e) && is_final_attempt ctx (err e)) ≡ b
          → ((report (drop_error fn) ctx b e s).1 ≡ s)
            ⊎ ((e' : Error) × (◌≡◌ {A = Result (Unit {0})} (err e) (err e'))
                × RunsOut ctx (err e)
                × ((report (drop_error fn) ctx b e s).1 ≡ (fn ctx e' s).1))
      report-state true h = inr (e, refl, final_counts ctx e h, refl)
      report-state false h = inl refl

  after_next-runs :
      (fn : ExhaustedFunc S) (ctx : Attempt) (e : Error) (s : S)
      → (not (is_skip_retry e) && is_final_attempt ctx (err e)) ≡ true
      → (after_next fn ctx (err e) s).1 ≡ (fn ctx e s).1
  unfolding attempt pure raise
  after_next-runs fn ctx e s h = rw h refl

  -- The middleware never changes the result of an attempt. It leaves the state as the attempt left it,
  -- or, if the attempt failed with an error that allows a retry and no retry is left, as the function
  -- for the last attempt leaves it.
  pub on_retries_exhausted_lem :
      (fn : ExhaustedFunc S) (next : Handler S) (ctx : Attempt) (s : S)
      → ((on_retries_exhausted fn next ctx s).0 ≡ (next ctx s).0)
        × (((on_retries_exhausted fn next ctx s).1 ≡ (next ctx s).1)
            ⊎ ((e : Error) × ((next ctx s).0 ≡ err e)
                × RunsOut ctx (next ctx s).0
                × ((on_retries_exhausted fn next ctx s).1 ≡ (fn ctx e (next ctx s).1).1)))
  unfolding on_retries_exhausted attempt
  on_retries_exhausted_lem fn next ctx s = (
    after_next-result fn ctx (next ctx s).0 (next ctx s).1,
    after_next-state fn ctx (next ctx s).0 (next ctx s).1,
  )

  -- An attempt that fails with an error that allows a retry, when no retry is left, is always followed
  -- by the function for the last attempt.
  pub on_retries_exhausted-RunsOut :
      (fn : ExhaustedFunc S) (next : Handler S) (ctx : Attempt) (s s' : S) (e : Error)
      (retried max_retry : ℕ)
      → next ctx s ≡ (err e, s')
      → is_skip_retry e ≡ false
      → ctx.retried ≡ some retried
      → ctx.max_retry ≡ some max_retry
      → max_retry ≤ retried
      → (on_retries_exhausted fn next ctx s).1 ≡ (fn ctx e s').1
  unfolding on_retries_exhausted attempt is_final_attempt
  on_retries_exhausted-RunsOut fn next ctx s s' e retried max_retry ran kept a b le =
      ap (λ p. (after_next fn ctx p.0 p.1).1) ran
      ∙ after_next-runs fn ctx e s' (rw (kept, a, b) (leb-true max_retry retried le))
