-- ===== src/Tests/MemoryRedis.antt =====
-- A Redis in memory whose keys never expire.
use digital_wallet.Prelude.{ℕ, suc, String, ◌≡◌, refl, sym, ◌∙◌, Option, some, none}
use text.Mathlib.TextPositions.{eq_refl}
use digital_wallet.Exec.{ok}
use digital_wallet.Otp.Abstract.{change}
use digital_wallet.External.Redis.{Redis, RedisLaws, Answers}

abbrev pub memory_redis : Redis
memory_redis = record {
  State = (String → Option String) × (String → ℕ);
  set_code = λ i v s. (ok tt, (change i (some v) s.0, change i 0 s.1));
  incr_tries = λ i s. (ok (suc (s.1 i)), (s.0, change i (suc (s.1 i)) s.1));
  expire_tries = λ i s. (ok tt, s);
  get_code = λ i s. (ok (s.0 i), s);
  delete_both = λ i s. (ok tt, (change i none s.0, change i 0 s.1));
}

pub change-same : {A : Type 0} (i : String) (v : A) (f : String → A) → change i v f i ≡ v
change-same i v f = rw (eq_refl i) refl

pub ok-same : {A : Type 0} {a b : A} → ok a ≡ ok b → a ≡ b
ok-same p = cc

abbrev pub memory_redis_laws : RedisLaws memory_redis
memory_redis_laws = record {
  code = λ s. s.0;
  tries = λ s. s.1;
  incr_counts = λ i s n h. (sym (ok-same h), change-same i (suc (s.1 i)) s.1 ∙ ok-same h);
  code-incr = λ i s. refl;
  code-expire = λ i s. refl;
  tries-expire = λ i s. refl;
  get_reads = λ i s v h. ok-same h;
  delete_deletes = λ i s h. (change-same i none s.0, change-same i 0 s.1);
  set_sets = λ i v s h. (change-same i (some v) s.0, change-same i 0 s.1);
}

abbrev pub memory_answers : Answers memory_redis
memory_answers = record {
  incr_answers = λ i s. (suc (s.1 i), refl);
  get_answers = λ i s. (s.0 i, refl);
}
