-- ===== src/Repository/Life.antt =====
-- internal/repository/transaction_repository.go: the life of a deposit, as the edges between statuses.
use digital_wallet.Prelude.{
  ◌≡◌, refl, sym, subst, ap, ◌∙◌, ◌⊎◌, inl, inr, Bool, true, false, ◌&&◌, List, [], ◌∷◌, ◌++◌,
  set_where, Memᴰ, arith, Bool-cases,
}
use digital_wallet.Repository.Types.{
  TransactionStatus, pending, success, failed, refunding, refunded, is_pending, is_refunding,
  IntentRow,
}
use digital_wallet.Repository.Intents.{set_status, failed_or_refunding, pending_or_failed}

pub data Edge : TransactionStatus → TransactionStatus → Type 0 where
  stay : {st : TransactionStatus} → Edge st st
  give_up : Edge pending failed
  settle : Edge pending success
  settle_late : Edge failed success
  begin_refund : Edge failed refunding
  end_refund : Edge refunding refunded

-- One row before and after: the status follows an edge, and nothing else changes.
pub record Moves (r r' : IntentRow) : Type 0 where
  pub same : r' ≡ record r { status = r'.status }
  pub edge : Edge r.status r'.status

-- The rows before, each moved, and then new rows, which are pending.
abbrev pub Evolves : List IntentRow → List IntentRow → Type 0
Evolves [] [] = Unit
Evolves [] (r' ∷ rs') = (r'.status ≡ pending) × Evolves [] rs'
Evolves (r ∷ rs) [] = ⊥
Evolves (r ∷ rs) (r' ∷ rs') = Moves r r' × Evolves rs rs'

pub Evolves-refl : (rs : List IntentRow) → Evolves rs rs
Evolves-refl [] = tt
Evolves-refl (r ∷ rs) = (record { same = refl; edge = Edge.stay }, Evolves-refl rs)

pub Evolves-append :
    (rs : List IntentRow) (r : IntentRow) → r.status ≡ pending → Evolves rs (rs ++ r ∷ [])
Evolves-append [] r h = (h, tt)
Evolves-append (x ∷ rs) r h = (record { same = refl; edge = Edge.stay }, Evolves-append rs r h)

-- A change of the status of the rows that a WHERE clause picks.
pub Evolves-set_where :
    (p : IntentRow → Bool) (to : TransactionStatus) (rs : List IntentRow)
    → ((r : IntentRow) → p r ≡ true → Edge r.status to)
    → Evolves rs (set_where p (set_status to) rs)
Evolves-set_where p to [] h = tt
Evolves-set_where p to (r ∷ rs) h = elim (Bool-cases (p r)) [
  | inl e ↦ rw e (record { same = refl; edge = h r e }, Evolves-set_where p to rs h)
  | inr e ↦ rw e (record { same = refl; edge = Edge.stay }, Evolves-set_where p to rs h)
]

pub failed_edge : (st : TransactionStatus) → is_pending st ≡ true → Edge st failed
failed_edge pending h = Edge.give_up
failed_edge st h = cc

pub refunding_edge : (st : TransactionStatus) → failed_or_refunding st ≡ true → Edge st refunding
refunding_edge failed h = Edge.begin_refund
refunding_edge refunding h = Edge.stay
refunding_edge st h = cc

pub refunded_edge : (st : TransactionStatus) → is_refunding st ≡ true → Edge st refunded
refunded_edge refunding h = Edge.end_refund
refunded_edge st h = cc

pub success_edge : (st : TransactionStatus) → pending_or_failed st ≡ true → Edge st success
success_edge pending h = Edge.settle
success_edge failed h = Edge.settle_late
success_edge st h = cc

pub second_of : (a b : Bool) → (a && b) ≡ true → b ≡ true
second_of true b h = h
second_of false b h = cc

-- The statuses that no edge leaves.
abbrev pub IsFinal : TransactionStatus → Type 0
IsFinal st = (st ≡ success) ⊎ (st ≡ refunded)

final_edge : {a b : TransactionStatus} → Edge a b → IsFinal a → b ≡ a
final_edge Edge.stay h = refl
final_edge Edge.give_up h = ground arith
final_edge Edge.settle h = ground arith
final_edge Edge.settle_late h = ground arith
final_edge Edge.begin_refund h = ground arith
final_edge Edge.end_refund h = ground arith

Moves-final : (r r' : IntentRow) → Moves r r' → IsFinal r.status → r ≡ r'
Moves-final r r' m h = sym (m.same ∙ ap (λ st. record r { status = st }) (final_edge m.edge h))

pub mem-Evolves :
    (r : IntentRow) (rs rs' : List IntentRow)
    → IsFinal r.status
    → Evolves rs rs'
    → Memᴰ r rs
    → Memᴰ r rs'
mem-Evolves r [] rs' h ev m = elim m [ ]
mem-Evolves r (x ∷ rs) [] h ev m = absurd ev
mem-Evolves r (x ∷ rs) (x' ∷ rs') h ev (Memᴰ.head e) =
    Memᴰ.head (e ∙ Moves-final x x' ev.0 (subst (λ (y : IntentRow). IsFinal y.status) e h))
mem-Evolves r (x ∷ rs) (x' ∷ rs') h ev (Memᴰ.tail m) = Memᴰ.tail (mem-Evolves r rs rs' h ev.1 m)
