-- ===== src/Queues/Middleware.antt =====
-- internal/queues/middleware.go: what stands between the task server and a handler. A handler is run
-- for one attempt at one task. Of `LoggingMiddleware` there is what it would log; as a middleware it stands
-- with the registration of the handlers, in Queues.Worker.
pub mod Order
use digital_wallet.Prelude.{
  ℕ, ◌≡◌, refl, String, Bool, true, false, not, ◌&&◌, Option, none, some, List, [], ◌∷◌, ◌++◌, leb,
  ltb, str_eq, if◌then◌else◌,
}
use digital_wallet.Shared.{Error, is_retry_later, is_skip_retry}
use digital_wallet.Exec.{Result, ok, err, Exec, pure, raise, attempt, ◌>>=◌, ◌>>◌}

-- what `asynq.GetRetryCount` and `asynq.GetMaxRetry` find in the context
pub record Attempt : Type 0 where
  pub retried : Option ℕ
  pub max_retry : Option ℕ

abbrev pub Handler : Type 0 → Type 0
Handler S = Attempt → Exec S Unit

abbrev pub MiddlewareFunc : Type 0 → Type 0
MiddlewareFunc S = Handler S → Handler S

abbrev pub ExhaustedFunc : Type 0 → Type 0
ExhaustedFunc S = Attempt → Error → Exec S Unit

-- whether both counts are known and the retries used up
abbrev pub used_up : Option ℕ → Option ℕ → Bool
used_up none max_retry = false
used_up (some retried) none = false
used_up (some retried) (some max_retry) = leb max_retry retried

unfoldable pub is_final_attempt : Attempt → Result (Unit {0}) → Bool
is_final_attempt ctx (ok _) = false
is_final_attempt ctx (err e) = if is_skip_retry e then true else used_up ctx.retried ctx.max_retry

unfoldable pub is_failure : Error → Bool
is_failure e = not (is_retry_later e)

-- the cases of the `switch` in `LoggingMiddleware`
pub data Logged : Type 0 where
  completed dropped_without_retry retries_exhausted not_ready will_retry : Logged

unfoldable pub logged_outcome : Attempt → Result (Unit {0}) → Logged
unfolding is_final_attempt
logged_outcome ctx (ok _) = completed
logged_outcome ctx (err e) =
    if is_skip_retry e
    then dropped_without_retry
    else if is_final_attempt ctx (err e)
    then retries_exhausted
    else if is_retry_later e
    then not_ready
    else will_retry

module _ {S : Type 0} where
  -- the loop of `Chain`, from the last middleware to the first
  abbrev pub chain_from : Handler S → List (MiddlewareFunc S) → Handler S
  chain_from h [] = h
  chain_from h (m ∷ ms) = chain_from (m h) ms

  abbrev pub reverse_onto :
      List (MiddlewareFunc S) → List (MiddlewareFunc S) → List (MiddlewareFunc S)
  reverse_onto [] acc = acc
  reverse_onto (m ∷ ms) acc = reverse_onto ms (m ∷ acc)

  unfoldable pub chain : Handler S → List (MiddlewareFunc S) → Handler S
  chain h mws = chain_from h (reverse_onto mws [])

  abbrev pub report : ExhaustedFunc S → Attempt → Bool → Error → Exec S Unit
  report fn ctx true e = do fn ctx e; raise e
  report fn ctx false e = raise e

  -- `fn` returns nothing: an error of its is dropped.
  abbrev pub drop_error : ExhaustedFunc S → ExhaustedFunc S
  drop_error fn ctx e = attempt (fn ctx e) (λ r. pure tt)

  abbrev pub after_next : ExhaustedFunc S → Attempt → Result (Unit {0}) → Exec S Unit
  after_next fn ctx (ok _) = pure tt
  after_next fn ctx (err e) =
      report (drop_error fn) ctx (not (is_skip_retry e) && is_final_attempt ctx (err e)) e

  unfoldable pub on_retries_exhausted : ExhaustedFunc S → MiddlewareFunc S
  unfolding is_final_attempt
  on_retries_exhausted fn next ctx = attempt (next ctx) (after_next fn ctx)

-- `fixed[task.Type()]` if it is there and positive, and otherwise asynq's own delay
unfoldable pub retry_delay : List (String × ℕ) → (ℕ → Error → String → ℕ) → ℕ → Error → String → ℕ
retry_delay [] default n e task = default n e task
retry_delay ((name, delay) ∷ fixed) default n e task =
    let rest = retry_delay fixed default n e task in
    if str_eq name task then (if ltb 0 delay then delay else default n e task) else rest
