-- ===== src/External/Redis.antt =====
-- The Redis client, as far as internal/otp/store.go calls it. Keys are kept as the identifier that they
-- end in: `code` stands for the key "otp:code:" + identifier and `tries` for "otp:attempts:" + identifier.
use digital_wallet.Prelude.{ℕ, suc, String, ◌≡◌, Option, none, some}
use digital_wallet.Exec.{ok, Exec}

pub record Redis : Type 1 where
  pub State : Type 0
  -- one transaction: `Set(code, value, ttl)` and `Del(tries)`
  pub set_code : String → String → Exec State Unit
  -- `Incr(tries)`
  pub incr_tries : String → Exec State ℕ
  -- `Expire(tries, ttl)`
  pub expire_tries : String → Exec State Unit
  -- `Get(code)`; `none` is `redis.Nil`
  pub get_code : String → Exec State (Option String)
  -- `Del(code, tries)`
  pub delete_both : String → Exec State Unit

-- What a key holds while it has not expired. A command that returns an error may or may not have been
-- carried out; one that returns none has been.
pub record RedisLaws (R : Redis) : Type 0 where
  pub code : R.State → String → Option String
  pub tries : R.State → String → ℕ
  pub incr_counts :
      (i : String) (s : R.State) (n : ℕ)
      → (R.incr_tries i s).0 ≡ ok n
      → (n ≡ suc (tries s i)) × (tries (R.incr_tries i s).1 i ≡ n)
  pub code-incr : (i : String) (s : R.State) → code (R.incr_tries i s).1 i ≡ code s i
  pub code-expire : (i : String) (s : R.State) → code (R.expire_tries i s).1 i ≡ code s i
  pub tries-expire : (i : String) (s : R.State) → tries (R.expire_tries i s).1 i ≡ tries s i
  pub get_reads :
      (i : String) (s : R.State) (v : Option String) → (R.get_code i s).0 ≡ ok v → code s i ≡ v
  pub delete_deletes :
      (i : String) (s : R.State)
      → (R.delete_both i s).0 ≡ ok tt
      → (code (R.delete_both i s).1 i ≡ none) × (tries (R.delete_both i s).1 i ≡ 0)
  pub set_sets :
      (i v : String) (s : R.State)
      → (R.set_code i v s).0 ≡ ok tt
      → (code (R.set_code i v s).1 i ≡ some v) × (tries (R.set_code i v s).1 i ≡ 0)

-- A Redis that answers every command that counts or reads.
pub record Answers (R : Redis) : Type 0 where
  pub incr_answers : (i : String) (s : R.State) → (n : ℕ) × ((R.incr_tries i s).0 ≡ ok n)
  pub get_answers : (i : String) (s : R.State) → (v : Option String) × ((R.get_code i s).0 ≡ ok v)
