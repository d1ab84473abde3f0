-- ===== src/Exec/Ensures.antt =====
-- What a call ensures: a precondition on the state before it, and a postcondition on its result and
-- the state after it, with a rule for each way to build a call.
use digital_wallet.Prelude.{
  Option, none, some, Bool, true, false, ◌≡◌, refl, sym, subst, if◌then◌else◌,
}
use digital_wallet.Shared.{Error}
use digital_wallet.Exec.{
  Result, ok, err, Exec, pure, raise, attempt, wrap, or_raise, or_else, continue, ◌>>=◌,
}

ok-injective : {A : Type 0} {a b : A} → ok a ≡ ok b → a ≡ b
ok-injective p = cc

pub record Ensures {S A : Type 0} (P : S → Type 0) (m : Exec S A) (Q : Result A → S → Type 0)
    : Type 0 where
  pub at : (s : S) → P s → Q (m s).0 (m s).1

module _ {S A : Type 0} {P : S → Type 0} where
  pub Ensures-pure :
      (Q : Result A → S → Type 0) (a : A) → ((s : S) → P s → Q (ok a) s) → Ensures P (pure a) Q
  unfolding pure
  Ensures-pure Q a h = record { at = h }

  pub Ensures-raise :
      (Q : Result A → S → Type 0) (e : Error)
      → ((s : S) → P s → Q (err e) s)
      → Ensures P (raise e) Q
  unfolding raise
  Ensures-raise Q e h = record { at = h }

  pub Ensures-if :
      {Q : Result A → S → Type 0} (b : Bool) {m n : Exec S A}
      → (b ≡ true → Ensures P m Q)
      → (b ≡ false → Ensures P n Q)
      → Ensures P (if b then m else n) Q
  Ensures-if true km kn = km refl
  Ensures-if false km kn = kn refl

module _ {S A : Type 0} {P : S → Type 0} where
  pub Ensures-attempt :
      {B : Type 0} {m : Exec S A} {k : Result A → Exec S B} (M : Result A → S → Type 0)
      {Q : Result B → S → Type 0}
      → Ensures P m M
      → ((r : Result A) → Ensures (M r) (k r) Q)
      → Ensures P (attempt m k) Q
  unfolding attempt
  Ensures-attempt {m = m} M hm hk = record {
    at = λ s h. let (r, s') = m s in (hk r).at s' (hm.at s h);
  }

  -- `m >>= f`, where an error of `m` is passed on.
  pub Ensures-bind :
      {B : Type 0} {m : Exec S A} {f : A → Exec S B} (M : Result A → S → Type 0)
      {Q : Result B → S → Type 0}
      → Ensures P m M
      → ((a : A) → Ensures (M (ok a)) (f a) Q)
      → ((e : Error) (s : S) → M (err e) s → Q (err e) s)
      → Ensures P (m >>= f) Q
  Ensures-bind {f = f} M {Q} hm hf he = Ensures-attempt M hm go
    where
      go : (r : Result A) → Ensures (M r) (continue f r) Q
      go (ok a) = hf a
      go (err e) = Ensures-raise Q e (he e)

  pub Ensures-wrap :
      {m : Exec S A} (f : Error → Error) (M : Result A → S → Type 0) {Q : Result A → S → Type 0}
      → Ensures P m M
      → ((a : A) (s : S) → M (ok a) s → Q (ok a) s)
      → ((e : Error) (s : S) → M (err e) s → Q (err (f e)) s)
      → Ensures P (wrap f m) Q
  unfolding wrap
  Ensures-wrap f M {Q} hm ha he = Ensures-attempt M hm go
    where
      go : (r : Result A) → Ensures (M r) (or_raise f r) Q
      go (ok a) = Ensures-pure Q a (ha a)
      go (err e) = Ensures-raise Q (f e) (he e)

  pub Ensures-imp :
      {m : Exec S A} {M Q : Result A → S → Type 0}
      → Ensures P m M
      → ((r : Result A) (s : S) → M r s → Q r s)
      → Ensures P m Q
  Ensures-imp {m = m} hm h = record { at = λ s p. h (m s).0 (m s).1 (hm.at s p) }

  -- The rest may use what the optional value was.
  pub Ensures-or_else :
      {B : Type 0} (Q : Result B → S → Type 0) (o : Option A) (e : Error) {f : A → Exec S B}
      → ((a : A) → o ≡ some a → Ensures P (f a) Q)
      → ((s : S) → P s → Q (err e) s)
      → Ensures P (or_else o e >>= f) Q
  unfolding attempt pure raise
  Ensures-or_else Q none e hf he = record { at = he }
  Ensures-or_else Q (some a) e hf he = record { at = (hf a refl).at }

  pub Ensures-or_else-some :
      {B : Type 0} {Q : Result B → S → Type 0} (o : Option A) (e : Error) (a : A) (f : A → Exec S B)
      → o ≡ some a
      → Ensures P (f a) Q
      → Ensures P (or_else o e >>= f) Q
  unfolding attempt pure raise
  Ensures-or_else-some none e a f h hf = cc
  Ensures-or_else-some {Q = Q} (some b) e a f h hf =
      let same : a ≡ b = cc in record { at = (subst (λ z. Ensures P (f z) Q) same hf).at }

  pub Ensures-pure-bind :
      {B : Type 0} {Q : Result B → S → Type 0} (a : A) (f : A → Exec S B)
      → Ensures P (f a) Q
      → Ensures P (pure a >>= f) Q
  unfolding attempt pure
  Ensures-pure-bind a f h = record { at = h.at }

  pub Ensures-absurd :
      {m : Exec S A} {Q : Result A → S → Type 0} → ((s : S) → P s → ⊥) → Ensures P m Q
  Ensures-absurd h = record { at = λ s p. absurd (h s p) }

  -- The precondition may be weaker than what it implies.
  pub Ensures-from :
      {m : Exec S A} {P' : S → Type 0} {Q : Result A → S → Type 0}
      → Ensures P' m Q
      → ((s : S) → P s → P' s)
      → Ensures P m Q
  Ensures-from hm h = record { at = λ s p. hm.at s (h s p) }

  pub Ensures-attempt-step :
      {B : Type 0} {m : Exec S A} (k : Result A → Exec S B) (r : Result A) (M : S → Type 0)
      {Q : Result B → S → Type 0}
      → Ensures P m (λ r' s. (r' ≡ r) × M s)
      → Ensures M (k r) Q
      → Ensures P (attempt m k) Q
  Ensures-attempt-step k r M {Q} hm hk =
      Ensures-attempt (λ r' s. (r' ≡ r) × M s) hm
        (λ r'. record { at = λ s h. subst (λ z. Q (k z s).0 (k z s).1) (sym h.0) (hk.at s h.1) })

  -- A call whose result is known.
  pub Ensures-step :
      {B : Type 0} {m : Exec S A} (f : A → Exec S B) (a : A) (M : S → Type 0)
      {Q : Result B → S → Type 0}
      → Ensures P m (λ r s. (r ≡ ok a) × M s)
      → Ensures M (f a) Q
      → Ensures P (m >>= f) Q
  Ensures-step f a M {Q} hm hf =
      Ensures-bind (λ r s. (r ≡ ok a) × M s) hm
        (λ b. record {
          at = λ s h.
              subst (λ (z : A). Q (f z s).0 (f z s).1) (ok-injective (sym h.0)) (hf.at s h.1);
        })
        (λ e s h. cc)

  pub Ensures-wrap-ok :
      {m : Exec S A} (f : Error → Error) (a : A) (M : S → Type 0)
      → Ensures P m (λ r s. (r ≡ ok a) × M s)
      → Ensures P (wrap f m) (λ r s. (r ≡ ok a) × M s)
  Ensures-wrap-ok f a M hm = Ensures-wrap f (λ r s. (r ≡ ok a) × M s) hm (λ b s h. h) (λ e s h. cc)

-- `m` keeps `P`, whether it returns or fails.
abbrev pub Keeps : {S A : Type 0} → (S → Type 0) → Exec S A → Type 0
Keeps P m = Ensures P m (λ _ s. P s)

module _ {S A : Type 0} {P : S → Type 0} where
  pub Keeps-pure : (a : A) → Keeps P (pure a)
  Keeps-pure a = Ensures-pure (λ _ s. P s) a (λ s h. h)

  pub Keeps-raise : (e : Error) → Keeps {A = A} P (raise e)
  Keeps-raise e = Ensures-raise (λ _ s. P s) e (λ s h. h)

  pub Keeps-or_else : (o : Option A) (e : Error) → Keeps P (or_else o e)
  Keeps-or_else none e = Keeps-raise e
  Keeps-or_else (some a) e = Keeps-pure a

  pub Keeps-if : (b : Bool) {m n : Exec S A} → Keeps P m → Keeps P n → Keeps P (if b then m else n)
  Keeps-if true km kn = km
  Keeps-if false km kn = kn

module _ {S A : Type 0} {P : S → Type 0} where
  pub Keeps-attempt :
      {B : Type 0} {m : Exec S A} {k : Result A → Exec S B}
      → Keeps P m
      → ((r : Result A) → Keeps P (k r))
      → Keeps P (attempt m k)
  Keeps-attempt hm hk = Ensures-attempt (λ _ s. P s) hm hk

  pub Keeps-bind :
      {B : Type 0} {m : Exec S A} {f : A → Exec S B}
      → Keeps P m
      → ((a : A) → Keeps P (f a))
      → Keeps P (m >>= f)
  Keeps-bind hm hf = Ensures-bind (λ _ s. P s) hm hf (λ e s h. h)

  pub Keeps-wrap : {m : Exec S A} (f : Error → Error) → Keeps P m → Keeps P (wrap f m)
  Keeps-wrap f hm = Ensures-wrap f (λ _ s. P s) hm (λ a s h. h) (λ e s h. h)

  pub Keeps-or_else-none :
      {B : Type 0} (o : Option A) (e : Error) (f : A → Exec S B)
      → o ≡ none
      → Keeps P (or_else o e >>= f)
  unfolding attempt raise
  Keeps-or_else-none none e f h = record { at = λ s p. p }
  Keeps-or_else-none (some a) e f h = cc

pub ruleset keeps_rules = (Keeps-pure, Keeps-raise, Keeps-or_else, Keeps-if, Keeps-bind, Keeps-wrap)
