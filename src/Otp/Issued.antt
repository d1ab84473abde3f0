-- ===== src/Otp/Issued.antt =====
-- internal/otp/store.go: a code from `Generate`, in `Verify`.
use digital_wallet.Prelude.{
  ℕ, suc, ◌<◌, String, ◌≡◌, refl, sym, ◌∙◌, ap, inl, inr, false, not, ltb, Bool-cases, Option, none,
  some, str_eq, if◌then◌else◌, arith,
}
use digital_wallet.Shared.{otp_not_found, otp_mismatch, too_many_tries}
use digital_wallet.Exec.{Result, ok, err, pure, raise, attempt, continue, ◌>>=◌}
use digital_wallet.Exec.Ensures.{
  Ensures, Ensures-pure, Ensures-raise, Ensures-bind, Ensures-if, Ensures-attempt,
}
use digital_wallet.External.Redis.{Redis, RedisLaws, Answers}
use digital_wallet.Otp.{generate, compare, check, verify}

module _ {R : Redis} (laws : RedisLaws R) (answers : Answers R) (hash : String → String) (max : ℕ)
    (i d : String) where
  -- what an attempt answers when the hash in Redis is the given one
  abbrev pub verdict : Option String → Result (Unit {0})
  verdict none = err otp_not_found
  verdict (some stored) = if str_eq stored (hash d) then ok tt else err otp_mismatch

  compare_lem :
      (stored : Option String) (s : R.State) → (compare R hash i d stored s).0 ≡ verdict stored
  unfolding raise attempt pure
  compare_lem none s = refl
  compare_lem (some stored) s = elim (Bool-cases (str_eq stored (hash d))) [
    | inl same ↦ rw same refl
    | inr other ↦ rw other refl
  ]

  read_lem : (s : R.State) → ((R.get_code i >>= compare R hash i d) s).0 ≡ verdict (laws.code s i)
  unfolding attempt
  read_lem s =
      let (v, read) = answers.get_answers i s in
      rw (read, laws.get_reads i s v read) (compare_lem v (R.get_code i s).1)

  check_lem : (s : R.State) → 0 < max → (check R hash max i d 1 s).0 ≡ verdict (laws.code s i)
  unfolding attempt pure
  check_lem s some_tries =
      rw (allowed max some_tries, sym (laws.code-expire i s)) (read_lem (R.expire_tries i s).1)
    where
      allowed : (m : ℕ) → 0 < m → ltb m 1 ≡ false
      allowed m h = ground arith

  first_attempt :
      (s : R.State)
      → 0 < max
      → laws.tries s i ≡ 0
      → (verify R hash max i d s).0 ≡ verdict (laws.code s i)
  unfolding verify attempt
  first_attempt s some_tries untried =
      let (n, counted) = answers.incr_answers i s in
      let one = (laws.incr_counts i s n counted).0 ∙ ap suc untried in
      rw (counted, one, sym (laws.code-incr i s)) (check_lem (R.incr_tries i s).1 some_tries)

module _ {R : Redis} (laws : RedisLaws R) (hash : String → String) (max : ℕ) (i d : String)
    (deletes : (s : R.State) → (R.delete_both i s).0 ≡ ok tt) where
  abbrev IsUsed : Result (Unit {0}) → R.State → Type 0
  IsUsed r s = r ≡ ok tt → (laws.code s i ≡ none) × (laws.tries s i ≡ 0)

  compare-IsUsed :
      (stored : Option String) → Ensures (λ s. Unit {0}) (compare R hash i d stored) IsUsed
  compare-IsUsed none = Ensures-raise IsUsed otp_not_found (λ s h bad. cc)
  compare-IsUsed (some stored) =
      Ensures-if (not (str_eq stored (hash d)))
        (λ _. Ensures-raise IsUsed otp_mismatch (λ s h bad. cc))
        (λ _.
          Ensures-attempt (λ _ s. (laws.code s i ≡ none) × (laws.tries s i ≡ 0))
            (record { at = λ s h. laws.delete_deletes i s (deletes s) })
            (λ r. Ensures-pure IsUsed tt (λ s h _. h)))

  verify-IsUsed : Ensures (λ s. Unit {0}) (verify R hash max i d) IsUsed
  unfolding verify
  verify-IsUsed =
      Ensures-bind (λ r s. Unit {0}) (record { at = λ s h. tt })
        (λ n.
          Ensures-bind (λ r s. Unit {0}) (record { at = λ s h. tt })
            (λ _.
              Ensures-if (ltb max n)
                (λ _.
                  Ensures-bind (λ r s. Unit {0}) (record { at = λ s h. tt })
                    (λ _. Ensures-raise IsUsed too_many_tries (λ s h bad. cc)) (λ e s h bad. cc))
                (λ _.
                  Ensures-bind (λ r s. Unit {0}) (record { at = λ s h. tt }) compare-IsUsed
                    (λ e s h bad. cc)))
            (λ e s h bad. cc))
        (λ e s h bad. cc)

module _ {R : Redis} (laws : RedisLaws R) (answers : Answers R) (hash : String → String) (max : ℕ)
    (some_tries : 0 < max) (i : String) where
  answers_ok :
      (c : String) (r : Result (Unit {0})) (s : R.State)
      → (continue (λ _. pure c) r s).0 ≡ ok c
      → r ≡ ok tt
  unfolding pure raise
  answers_ok c (ok u) s h = refl
  answers_ok c (err e) s h = cc

  set_ok :
      (c : String) (s : R.State)
      → (generate R hash (ok c) i s).0 ≡ ok c
      → (R.set_code i (hash c) s).0 ≡ ok tt
  unfolding generate attempt pure
  set_ok c s issued = answers_ok c (R.set_code i (hash c) s).0 (R.set_code i (hash c) s).1 issued

  generate_sets :
      (c : String) (s : R.State)
      → (generate R hash (ok c) i s).0 ≡ ok c
      → (generate R hash (ok c) i s).1 ≡ (R.set_code i (hash c) s).1
  unfolding generate attempt pure
  generate_sets c s issued = rw (set_ok c s issued) refl

  -- Once a code has been issued, the first attempt, if Redis answers, succeeds with every code of the
  -- same hash and is a mismatch with every other one.
  pub generate-verify :
      (c d : String) (s : R.State)
      → (generate R hash (ok c) i s).0 ≡ ok c
      → (verify R hash max i d (generate R hash (ok c) i s).1).0
        ≡ (if str_eq (hash c) (hash d) then ok tt else err otp_mismatch)
  generate-verify c d s issued =
      let (sets, untried) = laws.set_sets i (hash c) s (set_ok c s issued) in
      rw (generate_sets c s issued) (
        first_attempt laws answers hash max i d (R.set_code i (hash c) s).1 some_tries untried
        ∙ ap (verdict laws answers hash max i d) sets)

  -- An accepted code is accepted once, if the deletion of it is carried out and Redis answers: the
  -- next attempt, with any code, finds none.
  pub verify-verify :
      (deletes : (s : R.State) → (R.delete_both i s).0 ≡ ok tt) (c d : String) (s : R.State)
      → (verify R hash max i c s).0 ≡ ok tt
      → (verify R hash max i d (verify R hash max i c s).1).0 ≡ err otp_not_found
  verify-verify deletes c d s accepted =
      let (gone, untried) = (verify-IsUsed laws hash max i c deletes).at s tt accepted in
      first_attempt laws answers hash max i d (verify R hash max i c s).1 some_tries untried
      ∙ ap (verdict laws answers hash max i d) gone
