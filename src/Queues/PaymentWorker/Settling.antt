-- ===== src/Queues/PaymentWorker/Settling.antt =====
-- The reads of a deposit and of the ledger, and the credit, as the payment worker makes them.
use digital_wallet.Prelude.{
  String, ◌≡◌, refl, sym, subst, ap, ◌∙◌, inl, inr, Bool, true, some, List, Memᴰ, All-imp,
  All-imp_mem, arith, ◌==◌, ==_iff, Bool-cases, some_eq,
}
use digital_wallet.Exec.{ok, attempt}
use digital_wallet.Exec.Ensures.{Ensures}
use digital_wallet.External.Uuids.{Uuid, UuidLaws}
use digital_wallet.External.Table.{TableLaws, KeyLaws}
use digital_wallet.External.TigerBeetle.{TigerBeetleLaws}
use digital_wallet.Ledger.Accounts.{transfer_id}
use digital_wallet.Ledger.Transfers as Ledger
use digital_wallet.Ledger.Transfers.{DepositParam}
use digital_wallet.Ledger.Postings.{deposit_only, has_posting-Posted}
use digital_wallet.Ledger.Answers.{deposit-Posts, has_posting_answers}
use digital_wallet.Repository.Types.{
  TransactionStatus, pending, success, failed, refunding, refunded, is_pending, TransactionIntent,
  IntentRow,
}
use digital_wallet.Repository.Intents.{map_intent, get_intent_by_reference}
use digital_wallet.Repository.Queries.{read-Keeps, read-Found}
use digital_wallet.Queues.Services.{Services, World, on_intents, on_ledger}
use digital_wallet.Queues.PaymentWorker.Marks.{is_posted, AllFit, Claim}
use digital_wallet.Queues.PaymentWorker.Exact.{Agrees, IsExact}

open-Agrees : (st : TransactionStatus) → is_pending st ≡ true → (b : Bool) → Agrees st b
open-Agrees pending e b = (λ h. cc, λ h. ground arith)
open-Agrees success e b = cc
open-Agrees failed e b = cc
open-Agrees refunding e b = cc
open-Agrees refunded e b = cc

module _ (S : Services) (ul : UuidLaws S.uuids) (il : TableLaws S.intents)
    (keys : KeyLaws il (λ r. r.id)) (bl : TigerBeetleLaws S.ledger) where
  -- the loaded deposit is the row of its reference
  abbrev pub IsLoaded : String → TransactionIntent → List IntentRow → Type 0
  IsLoaded reference x rows =
      (u : Uuid) × (row : IntentRow) × (S.uuids.parse reference ≡ some u)
      × (S.uuids.parse x.id ≡ some u)
      × Memᴰ row rows
      × (row.id ≡ u)
      × (row.status ≡ x.status)

  abbrev pub Ready : String → TransactionIntent → World S → Type 0
  Ready reference x w = IsExact S il bl w × IsLoaded reference x (il.rows w.intents)

  abbrev Exact : World S → Type 0
  Exact = IsExact S il bl

  pub get_intent-Ready :
      (reference : String)
      → Ensures Exact (on_intents S (get_intent_by_reference S.uuids S.intents reference)) (λ r w.
        Exact w × ((x : TransactionIntent) → r ≡ ok x → IsLoaded reference x (il.rows w.intents)))
  unfolding get_intent_by_reference attempt map_intent
  get_intent-Ready reference = record {
    at = λ w h.
        let back =
          (read-Keeps S.uuids il (λ u r. r.id == u) (map_intent S.uuids) reference
              (λ rows. rows ≡ il.rows w.intents)).at
            w.intents refl in
        (
          subst (AllFit S il bl Agrees w.ledger) (sym back) h,
          λ x e.
              let (u, row, parsed, same, member, view) =
                (read-Found S.uuids il (λ u r. r.id == u) (map_intent S.uuids) reference
                    (il.rows w.intents)).at
                  w.intents refl x e in
              let id = (==_iff row.id u).0 same in
              (
                u,
                row,
                parsed,
                subst (λ (y : TransactionIntent). S.uuids.parse y.id ≡ some u) (sym view)
                    (ul.parse-to_string row.id ∙ ap some id),
                subst (Memᴰ row) (sym back) member,
                id,
                sym (ap (λ (y : TransactionIntent). y.status) view),
              ),
        );
  }

  -- what the ledger answered about the deposit
  pub ask-Posted :
      (reference : String) (u : Uuid)
      → S.uuids.parse reference ≡ some u
      → Ensures Exact
          (on_ledger S (Ledger.has_posting S.ledger u))
          (λ r w. Exact w × ((b : Bool) → r ≡ ok b → Claim S il bl Agrees (λ c. c ≡ b) reference w))
  ask-Posted reference u parsed = record {
    at = λ w h. (
      All-imp (il.rows w.intents)
          (λ r agrees.
            subst (Agrees r.status)
              (sym (
                (has_posting-Posted bl (transfer_id S.ledger r.id)
                    (bl.posted w.ledger (transfer_id S.ledger r.id)) u).at
                  w.ledger refl))
              agrees)
          h,
      λ b e v same.
          subst
            (λ (x : Uuid).
              bl.posted (Ledger.has_posting S.ledger u w.ledger).1 (transfer_id S.ledger x) ≡ b)
            (some_eq parsed same)
            ((has_posting_answers bl (transfer_id S.ledger u) u refl).at w.ledger tt b e),
    );
  }

  same_transfer : (u v : Uuid) → transfer_id S.ledger u ≡ transfer_id S.ledger v → u ≡ v
  unfolding transfer_id
  same_transfer u v e = bl.bytes_injective u v e

  -- Crediting a pending deposit changes the agreement of no row: its own is pending.
  pub deposit-Ready :
      (reference : String) (x : TransactionIntent) (param : DepositParam)
      → is_pending x.status ≡ true
      → S.uuids.parse x.id ≡ some param.transfer_id
      → Ensures
          (Ready reference x)
          (on_ledger S (Ledger.deposit S.ledger param))
          (λ r w. Exact w × (r ≡ ok tt → Claim S il bl Agrees (λ c. c ≡ true) reference w))
  deposit-Ready reference x param open_still parsed = record {
    at = λ w h.
        let (u, row, p, q, member, id, status) = h.1 in
        let own = some_eq q parsed in
        (
          All-imp_mem (il.rows w.intents)
              (λ r at_row agrees. elim (Bool-cases (r.id == u)) [
                | inl e ↦
                    subst
                      (λ (y : IntentRow).
                        Agrees y.status (
                          is_posted S il bl Agrees (Ledger.deposit S.ledger param w.ledger).1 r.id))
                      (keys.unique w.intents row r member at_row (id ∙ sym ((==_iff r.id u).0 e)))
                      (open-Agrees row.status
                        (subst (λ st. is_pending st ≡ true) (sym status) open_still) _)
                | inr e ↦
                    subst (Agrees r.status)
                      (sym (
                        (deposit_only bl (transfer_id S.ledger r.id) param
                            (bl.posted w.ledger (transfer_id S.ledger r.id))
                            (λ clash.
                              let back =
                                (==_iff r.id u).1
                                  (same_transfer r.id param.transfer_id clash ∙ sym own) in
                              cc)).at
                          w.ledger refl))
                      agrees
              ])
              h.0,
          λ e v same.
              subst
                (λ (y : Uuid).
                  bl.posted (Ledger.deposit S.ledger param w.ledger).1 (transfer_id S.ledger y)
                  ≡ true)
                (sym own ∙ some_eq p same)
                ((deposit-Posts bl (transfer_id S.ledger param.transfer_id) param refl).at w.ledger
                  tt e),
        );
  }
