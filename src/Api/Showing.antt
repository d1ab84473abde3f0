-- ===== src/Api/Showing.antt =====
-- internal/api/services/transfer-service.go, `GetTransfer`: whom a transfer is shown to.
use digital_wallet.Prelude.{
  String, ◌≡◌, refl, subst, ◌⊎◌, Bool, false, not, ◌&&◌, Option, none, some, str_eq, eq_iff, arith,
}
use digital_wallet.Shared.{app_error}
use digital_wallet.Exec.{Result, ok, wrap, ◌>>=◌}
use digital_wallet.Exec.Ensures.{
  Ensures, Ensures-pure, Ensures-raise, Ensures-if, Ensures-bind, Ensures-wrap,
}
use digital_wallet.Repository.Types.{Transfer}
use digital_wallet.Repository.Transfers.{get_transfer_by_id}
use digital_wallet.Queues.Services.{Services, World, on_transfers}
use digital_wallet.Api.Transfers.{caller_id, load_failure, get_transfer, show_to_party}

module _ (S : Services) (has_ledger : Bool) where
  abbrev Shown : String → Result Transfer → World S → Type 0
  Shown user_id r w =
      (t : Transfer) → r ≡ ok t → (t.sender_user_id ≡ user_id) ⊎ (t.recipient_user_id ≡ user_id)

  party : (a b u : String) → (not (str_eq a u) && not (str_eq b u)) ≡ false → (a ≡ u) ⊎ (b ≡ u)
  party a b u h = ground (arith, eq_iff a u, eq_iff b u)

  show-Shown :
      (user_id : String) (t : Transfer)
      → Ensures (λ w. Unit {0}) (show_to_party S has_ledger user_id t) (Shown user_id)
  show-Shown user_id t =
      Ensures-if (not (str_eq t.sender_user_id user_id) && not (str_eq t.recipient_user_id user_id))
        (λ _. Ensures-raise _ (app_error 404 "Transfer Not Found") (λ w h t' bad. cc))
        (λ mine. Ensures-pure _ t (λ w h t' e.
          subst (λ (x : Transfer). (x.sender_user_id ≡ user_id) ⊎ (x.recipient_user_id ≡ user_id))
            (shown e) (party t.sender_user_id t.recipient_user_id user_id mine)))
    where
      shown : {a b : Transfer} → ok a ≡ ok b → a ≡ b
      shown p = cc

  caller_id-Named :
      (caller : Option String)
      → Ensures {S = World S}
          (λ w. Unit {0})
          (caller_id caller)
          (λ r w. (user_id : String) → r ≡ ok user_id → caller ≡ some user_id)
  unfolding caller_id
  caller_id-Named none = Ensures-raise _ (app_error 401 "Unauthorized") (λ w h u bad. cc)
  caller_id-Named (some id) =
      Ensures-if (str_eq id "")
        (λ _. Ensures-raise _ (app_error 401 "Unauthorized") (λ w h u bad. cc))
        (λ _. Ensures-pure _ id (λ w h u e. cc))

  -- what a request has to be for a transfer to be shown
  abbrev Party : Option String → Result Transfer → World S → Type 0
  Party caller r w =
      (t : Transfer)
      → r ≡ ok t
      → (user_id : String) × (caller ≡ some user_id)
        × ((t.sender_user_id ≡ user_id) ⊎ (t.recipient_user_id ≡ user_id))

  load-Shown :
      (user_id id : String)
      → Ensures
          (λ w. Unit {0})
          (do
            transfer ←
                wrap
                  (load_failure "Transfer Not Found" "Could Not Load Transfer")
                  (on_transfers S (get_transfer_by_id S.uuids S.transfers id))
            show_to_party S has_ledger user_id transfer)
          (Shown user_id)
  load-Shown user_id id =
      Ensures-bind (λ r v. Unit {0})
        (Ensures-wrap (load_failure "Transfer Not Found" "Could Not Load Transfer")
          (λ r v. Unit {0}) (record { at = λ v h. tt }) (λ t v h. tt) (λ e v h. tt))
        (λ t. show-Shown user_id t) (λ e v h t bad. cc)

  get_transfer-Party :
      (caller : Option String) (id : String)
      → Ensures (λ w. Unit {0}) (get_transfer S has_ledger caller id) (Party caller)
  unfolding get_transfer
  get_transfer-Party caller id =
      Ensures-bind (λ r w. (user_id : String) → r ≡ ok user_id → caller ≡ some user_id)
        (caller_id-Named caller)
        (λ user_id. record {
          at = λ w named t e. (user_id, named user_id refl, (load-Shown user_id id).at w tt t e);
        })
        (λ e w h t bad. cc)

  -- A transfer is only shown to a caller who sent it or receives it.
  pub get_transfer_lem :
      (caller : Option String) (id : String) (w : World S) (t : Transfer)
      → (get_transfer S has_ledger caller id w).0 ≡ ok t
      → (user_id : String) × (caller ≡ some user_id)
        × ((t.sender_user_id ≡ user_id) ⊎ (t.recipient_user_id ≡ user_id))
  get_transfer_lem caller id w t e = (get_transfer-Party caller id).at w tt t e
