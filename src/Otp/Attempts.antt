-- ===== src/Otp/Attempts.antt =====
-- internal/otp/store.go, `Verify`: the counted attempts and the stored code.
use digital_wallet.Prelude.{
  ℕ, suc, ◌<◌, String, ◌≡◌, refl, sym, ◌∙◌, ap, Bool, false, not, ◌==◌, ltb, Option, none, some,
  str_eq, eq_iff, if◌then◌else◌, arith,
}
use digital_wallet.Shared.{Error, otp_not_found, otp_mismatch, too_many_tries}
use digital_wallet.Exec.{Result, ok, err, Exec, pure, raise}
use digital_wallet.Exec.Ensures.{
  Ensures, Ensures-pure, Ensures-raise, Ensures-bind, Ensures-if, Ensures-attempt, Keeps,
}
use digital_wallet.External.Redis.{Redis, RedisLaws}
use digital_wallet.Otp.{unchecked, compare, check, verify}

module _ {R : Redis} (laws : RedisLaws R) (hash : String → String) (max : ℕ) (i code : String)
    (s₀ : R.State) where
  -- a success means that the code is the stored one and that the attempts were not used up
  abbrev Proves : Result (Unit {0}) → R.State → Type 0
  Proves r s = r ≡ ok tt → (laws.code s₀ i ≡ some (hash code)) × (laws.tries s₀ i < max)

  abbrev HasCode : R.State → Type 0
  HasCode s = laws.code s i ≡ laws.code s₀ i

  raise-Proves : {P : R.State → Type 0} (e : Error) → Ensures P (raise e) Proves
  raise-Proves e = Ensures-raise Proves e (λ s h bad. cc)

  expire-HasCode :
      (b : Bool) → Keeps HasCode (if b then unchecked R hash (R.expire_tries i) else pure tt)
  expire-HasCode b =
      Ensures-if b
        (λ _.
          Ensures-attempt (λ _ s. HasCode s) (record { at = λ s h. laws.code-expire i s ∙ h })
            (λ r. Ensures-pure _ tt (λ s h. h)))
        (λ _. Ensures-pure _ tt (λ s h. h))

  compare-Proves :
      (stored : Option String)
      → laws.tries s₀ i < max
      → Ensures (λ s. laws.code s₀ i ≡ stored) (compare R hash i code stored) Proves
  compare-Proves none below = raise-Proves otp_not_found
  compare-Proves (some stored) below =
      Ensures-if (not (str_eq stored (hash code))) (λ _. raise-Proves otp_mismatch)
        (λ same.
          Ensures-attempt (λ _ s. laws.code s₀ i ≡ some stored) (record { at = λ s h. h })
            (λ r.
              Ensures-pure Proves tt
                (λ s h _. (h ∙ ap some (matches stored (hash code) same), below))))
    where
      matches : (a b : String) → not (str_eq a b) ≡ false → a ≡ b
      matches a b h = ground (arith, eq_iff a b)

  check-Proves :
      (n : ℕ) → n ≡ suc (laws.tries s₀ i) → Ensures HasCode (check R hash max i code n) Proves
  check-Proves n counted =
      Ensures-bind (λ _ s. HasCode s) (expire-HasCode (n == 1))
        (λ _.
          Ensures-if (ltb max n)
            (λ _.
              Ensures-bind (λ _ s. Unit {0}) (record { at = λ s h. tt })
                (λ _. raise-Proves too_many_tries) (λ e s h bad. cc))
            (λ allowed.
              Ensures-bind (λ r s. (v : Option String) → r ≡ ok v → laws.code s₀ i ≡ v)
                (record { at = λ s h v e. sym h ∙ laws.get_reads i s v e })
                (λ v. record {
                  at = λ s h. (compare-Proves v (below n max counted allowed)).at s (h v refl);
                })
                (λ e s h bad. cc)))
        (λ e s h bad. cc)
    where
      below : (a b : ℕ) → a ≡ suc (laws.tries s₀ i) → ltb b a ≡ false → laws.tries s₀ i < b
      below a b e h = ground arith

  verify-Proves : Ensures (λ s. s ≡ s₀) (verify R hash max i code) Proves
  unfolding verify
  verify-Proves =
      Ensures-bind (λ r s. (n : ℕ) → r ≡ ok n → (n ≡ suc (laws.tries s₀ i)) × HasCode s)
        (record {
          at = λ s e n h. (
            (laws.incr_counts i s n h).0 ∙ ap (λ z. suc (laws.tries z i)) e,
            laws.code-incr i s ∙ ap (λ z. laws.code z i) e,
          );
        })
        (λ n. record { at = λ s h. (check-Proves n (h n refl).0).at s (h n refl).1 })
        (λ e s h bad. cc)

module _ (R : Redis) (hash : String → String) (max : ℕ) (i code : String) where
  abbrev IsRefused : Result (Unit {0}) → R.State → Type 0
  IsRefused r s = r ≡ err too_many_tries

module _ {R : Redis} (laws : RedisLaws R) (hash : String → String) (max : ℕ) (i code : String)
    (s : R.State) where
  -- If a code is accepted, then its hash is the stored one and fewer attempts than the maximum had been
  -- counted before.
  pub verify-accepts :
      (verify R hash max i code s).0 ≡ ok tt
      → (laws.code s i ≡ some (hash code)) × (laws.tries s i < max)
  verify-accepts h = (verify-Proves laws hash max i code s).at s refl h
