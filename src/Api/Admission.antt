-- ===== src/Api/Admission.antt =====
-- internal/api/services/transfer-service.go, `InitiateTransfer`: the tests before a transfer is recorded.
use digital_wallet.Prelude.{
  ℕ, String, ◌≡◌, ◌≢◌, refl, sym, subst, Bool, true, false, not, ◌||◌, some, inl, inr, List, [],
  ◌∷◌, ◌++◌, str_eq, if◌then◌else◌,
}
use digital_wallet.Prelude.Int.{ltb_ℤ}
use digital_wallet.Prelude.Text.{equal_fold, trim_space}
use digital_wallet.Shared.{Error, app_error}
use digital_wallet.Exec.{Result, ok, err, pure, raise, attempt, wrap, ◌>>=◌}
use digital_wallet.Exec.Ensures.{
  Ensures, Ensures-raise, Ensures-if, Ensures-bind, Ensures-wrap, Ensures-imp,
}
use digital_wallet.External.Uuids.{Uuid}
use digital_wallet.External.Table.{TableLaws}
use digital_wallet.Repository.Types.{is_active, Wallet, WalletRow, Transfer, TransferRow}
use digital_wallet.Repository.Insertion.{InsertLaws}
use digital_wallet.Repository.Wallets.{map_wallet, get_wallet_by_id}
use digital_wallet.Queues.Services.{Services, World, on_wallets}
use digital_wallet.Api.Transfers.{
  min_transfer_minor, max_transfer_minor, InitiateTransferParam, caller_id, load_failure,
  admit_recipient, admit_sender, initiate_transfer,
}
use digital_wallet.Api.Initiation.{Recorded}
use digital_wallet.Api.Acceptance.{
  IsSender, IsRecipient, Accepted, is_set, same_text, other_text, Outcome,
  record_transfer-RecordedAs, get_wallet_by_id-Loaded, get_wallet_by_number-Loaded, param_of,
  Loaded, Start, RecordedAs,
}

module _ (S : Services) (has_ledger : Bool) (laws : InsertLaws S.transfers)
    (wl : TableLaws S.wallets) (base : List TransferRow) (wallets : List WalletRow) where
  module _ (fresh : Uuid) (now : ℕ) (user_id : String) (param : InitiateTransferParam) where
    raise-Outcome :
        {P : World S → Type 0} (e : Error)
        → ((w : World S) → P w → Start S has_ledger laws wl base wallets w)
        → Ensures P (raise e) (Outcome S has_ledger laws wl base wallets user_id param)
    raise-Outcome e f =
        Ensures-raise (Outcome S has_ledger laws wl base wallets user_id param) e
          (λ w h. inl (f w h).0)

    -- what the tests before the recording have found
    record Admitted (sender recipient : WalletRow) : Type 0 where
      in_range :
          (ltb_ℤ param.amount min_transfer_minor || ltb_ℤ max_transfer_minor param.amount) ≡ false
      sender_asked : IsSender S param wallets sender
      recipient_asked : IsRecipient param wallets recipient
      owner : S.uuids.to_string sender.user_id ≡ user_id
      sender_active : is_active sender.status ≡ true
      recipient_active : is_active recipient.status ≡ true
      two_wallets : S.uuids.to_string recipient.id ≢ S.uuids.to_string sender.id
      one_currency : equal_fold recipient.currency sender.currency ≡ true

    accepted :
        (sender recipient : WalletRow)
        → Admitted sender recipient
        → (row : TransferRow) (rows : List TransferRow) → rows ≡ base ++ row ∷ []
        → Recorded S
            (param_of S has_ledger laws wl base wallets user_id param.amount
              (map_wallet S.uuids sender)
              (map_wallet S.uuids recipient))
            row
        → Accepted S user_id param wallets base rows
    unfolding map_wallet
    accepted sender recipient a row rows added recorded = record {
      row = row;
      sender = sender;
      recipient = recipient;
      added = added;
      status = recorded.status;
      amount = recorded.amount;
      in_range = a.in_range;
      sender_asked = a.sender_asked;
      recipient_asked = a.recipient_asked;
      owner = a.owner;
      debits = recorded.sender_wallet;
      credits = recorded.recipient_wallet;
      sender_active = a.sender_active;
      recipient_active = a.recipient_active;
      two_wallets = a.two_wallets;
      one_currency = a.one_currency;
    }

    accept :
        (sender recipient : WalletRow)
        → Admitted sender recipient
        → (r : Result Transfer) (w : World S)
        → RecordedAs S has_ledger laws wl base wallets
            (param_of S has_ledger laws wl base wallets user_id param.amount
              (map_wallet S.uuids sender)
              (map_wallet S.uuids recipient))
            r
            w
        → Outcome S has_ledger laws wl base wallets user_id param r w
    unfolding map_wallet accepted
    accept sender recipient a (err e) w (inl same) = inl same
    accept sender recipient a (err e) w (inr (row, added, recorded)) =
        inr (accepted sender recipient a row (laws.rows w.transfers) added recorded)
    accept sender recipient a (ok t) w (row, added, returned, recorded) =
        (accepted sender recipient a row (laws.rows w.transfers) added recorded, returned)

    admit_recipient-Outcome :
        (sender recipient : WalletRow)
        → (ltb_ℤ param.amount min_transfer_minor || ltb_ℤ max_transfer_minor param.amount) ≡ false
        → IsSender S param wallets sender
        → IsRecipient param wallets recipient
        → S.uuids.to_string sender.user_id ≡ user_id
        → is_active sender.status ≡ true
        → Ensures
            (Start S has_ledger laws wl base wallets)
            (admit_recipient S has_ledger fresh now user_id param.amount
              (map_wallet S.uuids sender)
              (map_wallet S.uuids recipient))
            (Outcome S has_ledger laws wl base wallets user_id param)
    unfolding admit_recipient map_wallet
    admit_recipient-Outcome sender recipient range known known' owner active =
        let x = map_wallet S.uuids sender in
        let y = map_wallet S.uuids recipient in
        Ensures-if (str_eq y.id x.id) (λ _. raise-Outcome _ (λ w h. h))
          (λ two.
            Ensures-if (not (equal_fold y.currency x.currency)) (λ _. raise-Outcome _ (λ w h. h))
              (λ one.
                Ensures-if (not (is_active y.status)) (λ _. raise-Outcome _ (λ w h. h))
                  (λ recipient_active.
                    Ensures-imp
                      (record_transfer-RecordedAs S has_ledger laws wl base wallets fresh now
                        user_id param.amount x y)
                      (accept sender recipient (record {
                        in_range = range;
                        sender_asked = known;
                        recipient_asked = known';
                        owner = owner;
                        sender_active = active;
                        recipient_active = is_set (is_active y.status) recipient_active;
                        two_wallets = other_text y.id x.id two;
                        one_currency = is_set (equal_fold y.currency x.currency) one;
                      })))))

    admit_sender-Outcome :
        (sender : WalletRow)
        → (ltb_ℤ param.amount min_transfer_minor || ltb_ℤ max_transfer_minor param.amount) ≡ false
        → IsSender S param wallets sender
        → Ensures
            (Start S has_ledger laws wl base wallets)
            (admit_sender S has_ledger fresh now user_id param (map_wallet S.uuids sender))
            (Outcome S has_ledger laws wl base wallets user_id param)
    unfolding admit_sender map_wallet
    admit_sender-Outcome sender range known =
        let x = map_wallet S.uuids sender in
        Ensures-if (not (str_eq x.user_id user_id)) (λ _. raise-Outcome _ (λ w h. h))
          (λ owner.
            Ensures-if (not (is_active x.status)) (λ _. raise-Outcome _ (λ w h. h))
              (λ active.
                Ensures-bind
                  (λ r w.
                    Start S has_ledger laws wl base wallets w
                    × ((y : Wallet)
                        → r ≡ ok y
                        → Loaded S has_ledger laws wl base wallets
                            (λ row. row.account_number ≡ trim_space param.recipient_account_number)
                            y))
                  (Ensures-wrap (load_failure "Account Not Found" "Could Not Load Account") _
                    (get_wallet_by_number-Loaded S has_ledger laws wl base wallets
                      (trim_space param.recipient_account_number))
                    (λ y w h. h) (λ e w h. (h.0, λ y bad. cc)))
                  (λ y. record {
                    at = λ w h.
                        let (row, member, view) = h.1 y refl in
                        subst
                          (λ (z : Wallet).
                            Outcome S has_ledger laws wl base wallets user_id param
                              (admit_recipient S has_ledger fresh now user_id param.amount x z w).0
                              (admit_recipient S has_ledger fresh now user_id param.amount x z w).1)
                          (sym view)
                          ((admit_recipient-Outcome sender row range known member
                              (same_text x.user_id user_id owner)
                              (is_set (is_active x.status) active)).at
                            w h.0);
                  })
                  (λ e w h. inl h.0.0)))

    initiate-Outcome :
        Ensures
          (Start S has_ledger laws wl base wallets)
          (if ltb_ℤ param.amount min_transfer_minor || ltb_ℤ max_transfer_minor param.amount
            then raise (app_error 422 "Transfer Amount Is Out Of Range")
            else (do
              sender ←
                  wrap
                    (load_failure "Wallet Not Found" "Could Not Load Wallet")
                    (on_wallets S (get_wallet_by_id S.uuids S.wallets param.sender_wallet_id))
              admit_sender S has_ledger fresh now user_id param sender))
          (Outcome S has_ledger laws wl base wallets user_id param)
    initiate-Outcome =
        Ensures-if (ltb_ℤ param.amount min_transfer_minor || ltb_ℤ max_transfer_minor param.amount)
          (λ _. raise-Outcome _ (λ w h. h))
          (λ range.
            Ensures-bind
              (λ r w.
                Start S has_ledger laws wl base wallets w
                × ((x : Wallet)
                    → r ≡ ok x
                    → Loaded S has_ledger laws wl base wallets
                        (λ row. S.uuids.parse param.sender_wallet_id ≡ some row.id) x))
              (Ensures-wrap (load_failure "Wallet Not Found" "Could Not Load Wallet") _
                (get_wallet_by_id-Loaded S has_ledger laws wl base wallets param.sender_wallet_id)
                (λ x w h. h) (λ e w h. (h.0, λ x bad. cc)))
              (λ x. record {
                at = λ w h.
                    let (row, member, view) = h.1 x refl in
                    subst
                      (λ (z : Wallet).
                        Outcome S has_ledger laws wl base wallets user_id param
                          (admit_sender S has_ledger fresh now user_id param z w).0
                          (admit_sender S has_ledger fresh now user_id param z w).1)
                      (sym view) ((admit_sender-Outcome row range member).at w h.0);
              })
              (λ e w h. inl h.0.0))

module _ (S : Services) (laws : InsertLaws S.transfers) (wl : TableLaws S.wallets)
    (has_ledger : Bool) (fresh : Uuid) (now : ℕ) where
  -- Starting a transfer records at most one, and returns one only if it is that one; an error may come with
  -- none or with one. The one recorded is pending, of the amount asked for, which is in range, and goes from the wallet
  -- asked for, which is the caller's, to another one, which has the account number asked for; both are
  -- active and of one currency.
  pub initiate_transfer-Accepted :
      (user_id : String) (param : InitiateTransferParam) (w : World S)
      → str_eq user_id "" ≡ false
      → Outcome S has_ledger laws wl
          (laws.rows w.transfers)
          (wl.rows w.wallets)
          user_id
          param
          (initiate_transfer S has_ledger fresh now (some user_id) param w).0
          (initiate_transfer S has_ledger fresh now (some user_id) param w).1
  unfolding initiate_transfer caller_id pure attempt
  initiate_transfer-Accepted user_id param w named = rw named (
      (initiate-Outcome S has_ledger laws wl (laws.rows w.transfers) (wl.rows w.wallets) fresh now
          user_id param).at
        w (refl, refl))
