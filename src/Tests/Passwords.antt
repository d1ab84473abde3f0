-- ===== src/Tests/Passwords.antt =====
-- The theorems on one-time passwords, at a Redis in memory.
use digital_wallet.Prelude.{◌<◌, String, ◌≡◌, refl, some, arith}
use digital_wallet.Shared.{otp_not_found, otp_mismatch}
use digital_wallet.Exec.{ok, err, pure, attempt}
use digital_wallet.Otp.{generate, verify}
use digital_wallet.Otp.Attempts.{verify-accepts}
use digital_wallet.Otp.Issued.{generate-verify, verify-verify}
use digital_wallet.Tests.MemoryRedis.{memory_redis, memory_redis_laws, memory_answers}

abbrev issued : memory_redis.State
issued = ((λ i. some "4711"), (λ i. 2))

abbrev same_text : String → String
same_text code = code

verify-accepts_example :
    (memory_redis_laws.code issued "ada" ≡ some (same_text "4711"))
    × (memory_redis_laws.tries issued "ada" < 5)
unfolding verify attempt pure
verify-accepts_example = verify-accepts memory_redis_laws same_text 5 "ada" "4711" issued refl

generate-verify_example :
    (verify memory_redis same_text 5 "ada" "1234"
      (generate memory_redis same_text (ok "4711") "ada" issued).1).0
    ≡ err otp_mismatch
unfolding generate attempt pure
generate-verify_example =
    generate-verify memory_redis_laws memory_answers same_text 5 (omega arith) "ada" "4711" "1234"
      issued refl

verify-verify_example :
    (verify memory_redis same_text 5 "ada" "4711"
      (verify memory_redis same_text 5 "ada" "4711" issued).1).0
    ≡ err otp_not_found
unfolding verify attempt pure
verify-verify_example =
    verify-verify memory_redis_laws memory_answers same_text 5 (omega arith) "ada" (λ s. refl)
      "4711" "4711" issued refl
