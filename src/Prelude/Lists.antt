-- ===== src/Prelude/Lists.antt =====
-- Lists over the native numbers, predicates on all members, and the two list operations that a
-- filtered read and a filtered write of a table come to.
use Prim.Native.Nat.{ℕ, suc}
use mathlib.Core.Path.{◌≡◌, refl, sym, subst}
use mathlib.Core.Bool.{Bool, true, false}
use mathlib.Core.Option.{Option, none, some}
use mathlib.Core.List.{List, [], ◌∷◌, ◌++◌, Memᴰ}
use mathlib.Core.Logic.{inl, inr}
use digital_wallet.Prelude.Tests.{if◌then◌else◌, Bool-cases}

module _ {ℓ} {A : Type ℓ} where
  abbrev pub length : List A → ℕ
  length [] = 0
  length (x ∷ xs) = suc (length xs)

  abbrev pub is_empty : List A → Bool
  is_empty [] = true
  is_empty (x ∷ xs) = false

  -- The members that pass a test, in order.
  abbrev pub select : (A → Bool) → List A → List A
  select p [] = []
  select p (x ∷ xs) = if p x then x ∷ select p xs else select p xs

  -- A change of every member that passes a test.
  abbrev pub set_where : (A → Bool) → (A → A) → List A → List A
  set_where p f [] = []
  set_where p f (x ∷ xs) = (if p x then f x else x) ∷ set_where p f xs

  -- The first member that passes a test.
  abbrev pub first_where : (A → Bool) → List A → Option A
  first_where p [] = none
  first_where p (x ∷ xs) = if p x then some x else first_where p xs

module _ {ℓ κ} {A : Type ℓ} where
  abbrev pub All : (A → Type κ) → List A → Type κ
  All P [] = Unit
  All P (x ∷ xs) = P x × All P xs

  pub All-imp : {P Q : A → Type κ} (xs : List A) → ((x : A) → P x → Q x) → All P xs → All Q xs
  All-imp [] f h = tt
  All-imp (x ∷ xs) f h = (f x h.0, All-imp xs f h.1)

  -- The step may use that it is at a member.
  pub All-imp_mem :
      {P Q : A → Type κ} (xs : List A) → ((x : A) → Memᴰ x xs → P x → Q x) → All P xs → All Q xs
  All-imp_mem [] f h = tt
  All-imp_mem (x ∷ xs) f h =
      (f x (Memᴰ.head refl) h.0, All-imp_mem xs (λ y m p. f y (Memᴰ.tail m) p) h.1)

  pub All-get : (P : A → Type κ) {x : A} {xs : List A} → All P xs → Memᴰ x xs → P x
  All-get P h (Memᴰ.head e) = subst P (sym e) h.0
  All-get P h (Memᴰ.tail m) = All-get P h.1 m

  pub All-set_where :
      (P : A → Type κ) (p : A → Bool) (f : A → A) (xs : List A)
      → ((x : A) → P x → p x ≡ true → P (f x))
      → All P xs
      → All P (set_where p f xs)
  All-set_where P p f [] keep h = tt
  All-set_where P p f (x ∷ xs) keep h = elim (Bool-cases (p x)) [
    | inl e ↦ rw e (keep x h.0 e, All-set_where P p f xs keep h.1)
    | inr e ↦ rw e (h.0, All-set_where P p f xs keep h.1)
  ]

  pub All-append : (P : A → Type κ) (xs ys : List A) → All P xs → All P ys → All P (xs ++ ys)
  All-append P [] ys h k = k
  All-append P (x ∷ xs) ys h k = (h.0, All-append P xs ys h.1 k)
