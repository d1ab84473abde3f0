-- ===== src/Otp/Refinement.antt =====
-- internal/otp/store.go: the store over Redis is its abstract description.
use digital_wallet.Prelude.{
  ℕ, suc, String, ◌≡◌, refl, sym, ◌∙◌, ap, subst, inl, inr, Bool, ◌==◌, ltb, leb, Bool-cases,
  Option, none, some, List, [], ◌∷◌, str_eq, if◌then◌else◌, arith,
}
use digital_wallet.Shared.{otp_not_found, otp_mismatch, too_many_tries}
use digital_wallet.Exec.{Result, ok, err, pure}
use digital_wallet.Exec.Ensures.{
  Ensures, Ensures-pure, Ensures-raise, Ensures-if, Ensures-attempt, Ensures-step, Ensures-imp,
}
use digital_wallet.External.Redis.{Redis, RedisLaws}
use digital_wallet.Otp.{generate, unchecked, compare, lock_out, verify}
use digital_wallet.Otp.Abstract.{Codes, change, forget, count_attempt, issue, judge, try_code}

-- the keys that have not expired
abbrev pub view : {R : Redis} → RedisLaws R → R.State → Codes
view laws s = (laws.code s, laws.tries s)

-- A Redis that carries every command out, on the keys of its identifier only, and in which no key expires.
pub record Reliable {R : Redis} (laws : RedisLaws R) : Type 0 where
  pub incr_does :
      (i : String) (s : R.State)
      → ((R.incr_tries i s).0 ≡ ok (suc (laws.tries s i)))
        × (view laws (R.incr_tries i s).1 ≡ count_attempt i (view laws s))
  pub expire_does : (i : String) (s : R.State) → view laws (R.expire_tries i s).1 ≡ view laws s
  pub get_does :
      (i : String) (s : R.State)
      → ((R.get_code i s).0 ≡ ok (laws.code s i)) × (view laws (R.get_code i s).1 ≡ view laws s)
  pub delete_does :
      (i : String) (s : R.State) → view laws (R.delete_both i s).1 ≡ forget i (view laws s)
  pub set_does :
      (i v : String) (s : R.State)
      → ((R.set_code i v s).0 ≡ ok tt)
        × (view laws (R.set_code i v s).1
            ≡ (change i (some v) (laws.code s), change i 0 (laws.tries s)))

change-change :
    {A : Type 0} (i : String) (v v' : A) (f : String → A)
    → change i v (change i v' f) ≡ change i v f
change-change i v v' f = λ k j. at j k
  where
    at : (j : String) → change i v (change i v' f) j ≡ change i v f j
    at j = elim (Bool-cases (str_eq i j)) [ inl e ↦ rw e refl | inr e ↦ rw e refl ]

forget-count : (i : String) (c : Codes) → forget i (count_attempt i c) ≡ forget i c
forget-count i c = λ k. (change i none c.0, change-change i 0 (suc (c.1 i)) c.1 k)

module _ {R : Redis} (laws : RedisLaws R) (reliable : Reliable laws) (hash : String → String)
    (max : ℕ) where
  abbrev Sees : Codes → R.State → Type 0
  Sees c s = view laws s ≡ c

  -- the result and the keys that are left
  abbrev pub Does : {A : Type 0} → Result A × Codes → Result A → R.State → Type 0
  Does out r s = (r ≡ out.0) × (view laws s ≡ out.1)

  incr-Does :
      (i : String) (c : Codes)
      → Ensures (Sees c) (R.incr_tries i) (Does (ok (suc (c.1 i)), count_attempt i c))
  incr-Does i c = record {
    at = λ s h.
        subst
          (λ (z : Codes).
            Does (ok (suc (z.1 i)), count_attempt i z) (R.incr_tries i s).0 (R.incr_tries i s).1)
          h (reliable.incr_does i s);
  }

  get-Does : (i : String) (c : Codes) → Ensures (Sees c) (R.get_code i) (Does (ok (c.0 i), c))
  get-Does i c = record {
    at = λ s h.
        subst (λ (z : Codes). Does (ok (z.0 i), z) (R.get_code i s).0 (R.get_code i s).1) h
          (reliable.get_does i s);
  }

  delete-Does :
      (i : String) (c : Codes)
      → Ensures (Sees c) (unchecked R hash (R.delete_both i)) (Does (ok tt, forget i c))
  delete-Does i c =
      Ensures-attempt (λ r s. view laws s ≡ forget i c)
        (record { at = λ s h. reliable.delete_does i s ∙ ap (forget i) h })
        (λ r. Ensures-pure _ tt (λ s h. (refl, h)))

  expire-Does :
      (b : Bool) (i : String) (c : Codes)
      → Ensures
          (Sees c)
          (if b then unchecked R hash (R.expire_tries i) else pure tt)
          (Does (ok tt, c))
  expire-Does b i c =
      Ensures-if b
        (λ _.
          Ensures-attempt (λ r s. view laws s ≡ c)
            (record { at = λ s h. reliable.expire_does i s ∙ h })
            (λ r. Ensures-pure _ tt (λ s h. (refl, h))))
        (λ _. Ensures-pure _ tt (λ s h. (refl, h)))

  lock_out-Does :
      (i : String) (c : Codes)
      → Ensures
          (Sees (count_attempt i c))
          (lock_out R hash i)
          (Does (err too_many_tries, forget i c))
  lock_out-Does i c =
      Ensures-step _ tt (λ s. view laws s ≡ forget i (count_attempt i c))
        (delete-Does i (count_attempt i c))
        (Ensures-raise _ too_many_tries (λ s h. (refl, h ∙ forget-count i c)))

  compare-Does :
      (i code : String) (c : Codes) (stored : Option String)
      → Ensures
          (Sees (count_attempt i c))
          (compare R hash i code stored)
          (Does (judge hash max i code stored c))
  compare-Does i code c none = Ensures-raise _ otp_not_found (λ s h. (refl, h))
  compare-Does i code c (some stored) = elim (Bool-cases (str_eq stored (hash code))) [
    | inl same ↦
        rw same
          (Ensures-imp (delete-Does i (count_attempt i c)) (λ r s h. (h.0, h.1 ∙ forget-count i c)))
    | inr other ↦ rw other (Ensures-raise _ otp_mismatch (λ s h. (refl, h)))
  ]

  verify-Does :
      (i code : String) (c : Codes)
      → Ensures (Sees c) (verify R hash max i code) (Does (try_code hash max i code c))
  unfolding verify
  verify-Does i code c = Ensures-step _ (suc (c.1 i)) (Sees (count_attempt i c)) (incr-Does i c) (
      Ensures-step _ tt (Sees (count_attempt i c))
        (expire-Does (suc (c.1 i) == 1) i (count_attempt i c))
        (elim (Bool-cases (leb max (c.1 i))) [
          | inl over ↦ rw (over, past max (c.1 i) ∙ over) (lock_out-Does i c)
          | inr under ↦
              rw (under, past max (c.1 i) ∙ under)
                (Ensures-step _ (c.0 i) (Sees (count_attempt i c)) (get-Does i (count_attempt i c))
                  (compare-Does i code c (c.0 i)))
        ]))
    where
      past : (a b : ℕ) → ltb a (suc b) ≡ leb a b
      past a b = ground arith

  generate-Does :
      (i code : String) (c : Codes)
      → Ensures (Sees c) (generate R hash (ok code) i) (Does (ok code, issue hash max i code c))
  unfolding generate
  generate-Does i code c =
      Ensures-step _ tt (Sees (issue hash max i code c))
        (record {
          at = λ s h.
              subst
                (λ (z : Codes).
                  Does (ok tt, issue hash max i code z) (R.set_code i (hash code) s).0
                    (R.set_code i (hash code) s).1)
                h (reliable.set_does i (hash code) s);
        })
        (Ensures-pure _ code (λ s h. (refl, h)))

-- a code that is issued, or one that is tried, for an address
pub data OtpOp : Type 0 where
  issued tried : String → String → OtpOp

pub data Answer : Type 0 where
  to_issue : Result String → Answer
  to_try : Result (Unit {0}) → Answer

module _ (R : Redis) (hash : String → String) (max : ℕ) where
  unfoldable pub run_store : List OtpOp → R.State → List Answer × R.State
  run_store [] s = ([], s)
  run_store (issued i code ∷ ops) s =
      let (r, s') = generate R hash (ok code) i s in
      let (rs, s'') = run_store ops s' in (to_issue r ∷ rs, s'')
  run_store (tried i code ∷ ops) s =
      let (r, s') = verify R hash max i code s in
      let (rs, s'') = run_store ops s' in (to_try r ∷ rs, s'')

unfoldable pub run_codes : (String → String) → ℕ → List OtpOp → Codes → List Answer × Codes
run_codes hash max [] c = ([], c)
run_codes hash max (issued i code ∷ ops) c =
    let (rs, c') = run_codes hash max ops (issue hash max i code c) in (to_issue (ok code) ∷ rs, c')
run_codes hash max (tried i code ∷ ops) c =
    let (r, c') = try_code hash max i code c in
    let (rs, c'') = run_codes hash max ops c' in (to_try r ∷ rs, c'')

module _ {R : Redis} (laws : RedisLaws R) (reliable : Reliable laws) (hash : String → String)
    (max : ℕ) where
  -- In any sequence of codes that are issued and tried, for any addresses, the store over a reliable
  -- Redis gives the answers of the abstract description and leaves its codes and counts.
  pub run_store-run_codes :
      (ops : List OtpOp) (s : R.State)
      → ((run_store R hash max ops s).0 ≡ (run_codes hash max ops (view laws s)).0)
        × (view laws (run_store R hash max ops s).1 ≡ (run_codes hash max ops (view laws s)).1)
  unfolding run_store run_codes
  run_store-run_codes [] s = (refl, refl)
  run_store-run_codes (issued i code ∷ ops) s =
      let done = (generate-Does laws reliable hash max i code (view laws s)).at s refl in
      let (answers, left) = run_store-run_codes ops (generate R hash (ok code) i s).1 in
      rw (sym done.1, done.0) (ap (λ rs. to_issue (ok code) ∷ rs) answers, left)
  run_store-run_codes (tried i code ∷ ops) s =
      let done = (verify-Does laws reliable hash max i code (view laws s)).at s refl in
      let (answers, left) = run_store-run_codes ops (verify R hash max i code s).1 in
      rw (sym done.1, done.0)
        (ap (λ rs. to_try (try_code hash max i code (view laws s)).0 ∷ rs) answers, left)
