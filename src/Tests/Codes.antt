-- ===== src/Tests/Codes.antt =====
-- The refinement of the store of one-time passwords, at a Redis in memory.
use digital_wallet.Prelude.{String, ◌≡◌, refl, none, List, [], ◌∷◌}
use digital_wallet.Shared.{otp_not_found, otp_mismatch}
use digital_wallet.Exec.{ok, err}
use digital_wallet.Otp.Refinement.{
  view, Reliable, OtpOp, issued, tried, to_issue, to_try, run_store, run_codes, run_store-run_codes,
}
use digital_wallet.Tests.MemoryRedis.{memory_redis, memory_redis_laws}

memory-Reliable : Reliable memory_redis_laws
memory-Reliable = record {
  incr_does = λ i s. (refl, refl);
  expire_does = λ i s. refl;
  get_does = λ i s. (refl, refl);
  delete_does = λ i s. refl;
  set_does = λ i v s. (refl, refl);
}

abbrev nothing : memory_redis.State
nothing = ((λ i. none), (λ i. 0))

abbrev plain : String → String
plain code = code

-- A code is missed, mistaken and met, and is then used up.
abbrev story : List OtpOp
story =
    tried "ada" "1111"
    ∷ issued "ada" "4711"
    ∷ tried "ada" "1111"
    ∷ tried "ada" "4711"
    ∷ tried "ada" "4711"
    ∷ []

told :
    (run_codes plain 3 story nothing).0
    ≡ to_try (err otp_not_found)
      ∷ to_issue (ok "4711")
      ∷ to_try (err otp_mismatch)
      ∷ to_try (ok tt)
      ∷ to_try (err otp_not_found)
      ∷ []
unfolding run_codes
told = refl

run_store-run_codes_example :
    ((run_store memory_redis plain 3 story nothing).0
      ≡ (run_codes plain 3 story (view memory_redis_laws nothing)).0)
    × (view memory_redis_laws (run_store memory_redis plain 3 story nothing).1
        ≡ (run_codes plain 3 story (view memory_redis_laws nothing)).1)
run_store-run_codes_example =
    run_store-run_codes memory_redis_laws memory-Reliable plain 3 story nothing
