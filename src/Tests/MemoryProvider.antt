-- ===== src/Tests/MemoryProvider.antt =====
-- The payment provider, kept in memory.
use digital_wallet.Prelude.{
  String, ◌≡◌, refl, inl, inr, Bool, true, false, ◌||◌, sym, Option, none, some, List, [], ◌∷◌,
  Bool-cases,
}
use digital_wallet.Prelude.{str_eq, eq_iff, if◌then◌else◌}
use digital_wallet.Prelude.Int.{pos}
use digital_wallet.Shared.{reference_not_found, invalid_signature}
use digital_wallet.Exec.{Result, ok, err}
use digital_wallet.External.Provider.{Provider, RefundLaws, PaymentStatus, PaymentVerification}

-- A provider that knows the payments it is given, and remembers what it paid back.
abbrev verification_for : String → List PaymentVerification → Option PaymentVerification
verification_for reference [] = none
verification_for reference (v ∷ vs) = some v

abbrev answer : Option PaymentVerification → Result PaymentVerification
answer none = err reference_not_found
answer (some v) = ok v

abbrev pub memory_provider : Provider
memory_provider = record {
  State = List PaymentVerification × List String;
  name = "paystack";
  initialize = λ request s. (
    ok (record {
      reference = request.reference;
      authorization_url = "https://pay.example";
      access_code = "code";
    }),
    s,
  );
  verify_webhook_signature =
      λ signature body. if str_eq signature body then ok tt else err invalid_signature;
  parse_webhook = λ body. ok (record {
    event = "charge.success";
    reference = body;
    status = some PaymentStatus.success;
    amount = pos 700;
    currency = "NGN";
  });
  verify = λ reference s. (answer (verification_for reference s.0), s);
  refund = λ reference amount s. (ok tt, (s.0, reference ∷ s.1));
}

abbrev is_named : String → List String → Bool
is_named t [] = false
is_named t (u ∷ us) = str_eq u t || is_named t us

pub is_named-head : (t : String) (us : List String) → is_named t (t ∷ us) ≡ true
is_named-head t us = rw ((eq_iff t t).1 refl) refl

pub is_named-tail :
    (t u : String) (us : List String) → str_eq t u ≡ false → is_named t (u ∷ us) ≡ is_named t us
is_named-tail t u us other = elim (Bool-cases (str_eq u t)) [
  | inl e ↦ (let back = (eq_iff t u).1 (sym ((eq_iff u t).0 e)) in cc)
  | inr e ↦ rw e refl
]

abbrev pub memory_refund_laws : RefundLaws memory_provider
memory_refund_laws = record {
  asked_back = λ s reference. is_named reference s.1;
  verify_asks_none = λ reference other s. refl;
  refund_asks = λ reference amount s h. is_named-head reference s.1;
  refund_asks_only = λ reference other amount s h. is_named-tail other reference s.1 h;
}
