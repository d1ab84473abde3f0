-- ===== src/Api/Acceptance.antt =====
-- internal/api/services/transfer-service.go, `InitiateTransfer`: the wallets that it accepts.
use digital_wallet.Prelude.{
  ℕ, String, ◌≡◌, ◌≢◌, refl, sym, ap, ◌⊎◌, inl, subst, ◌∙◌, Bool, true, false, not, ◌||◌, some,
  List, [], ◌∷◌, ◌++◌, Memᴰ, ◌==◌, ==_iff, str_eq, eq_iff, arith,
}
use digital_wallet.Prelude.Int.{ltb_ℤ}
use digital_wallet.Prelude.Text.{equal_fold, trim_space}
use digital_wallet.Shared.Money.{Money}
use digital_wallet.Exec.{Result, ok, err, attempt}
use digital_wallet.Exec.Ensures.{Ensures, Ensures-pure, Ensures-bind, Ensures-wrap}
use digital_wallet.External.Uuids.{Uuid}
use digital_wallet.External.Table.{TableLaws}
use digital_wallet.Repository.Types.{
  pending, is_active, Wallet, WalletRow, Transfer, TransferRow, CreateTransferParam,
}
use digital_wallet.Repository.Errors.{wrap_gorm_error}
use digital_wallet.Repository.Insertion.{InsertLaws}
use digital_wallet.Repository.Transfers.{map_transfer}
use digital_wallet.Repository.Wallets.{map_wallet, get_wallet_by_id, get_wallet_by_account_number}
use digital_wallet.Repository.Queries.{read-Keeps, read-Found}
use digital_wallet.Queues.Services.{Services, World, on_wallets}
use digital_wallet.Api.Initiation.{
  Adds, create_transfer-Adds, publish-On, check_sufficient_balance-On,
}
use digital_wallet.Api.Transfers.{
  min_transfer_minor, max_transfer_minor, InitiateTransferParam, server_error, record_transfer,
}

-- the wallet with the id, and the one with the account number, that a request asks for
abbrev pub IsSender : Services → InitiateTransferParam → List WalletRow → WalletRow → Type 0
IsSender S param wallets row =
    Memᴰ row wallets × (S.uuids.parse param.sender_wallet_id ≡ some row.id)

abbrev pub IsRecipient : InitiateTransferParam → List WalletRow → WalletRow → Type 0
IsRecipient param wallets row =
    Memᴰ row wallets × (row.account_number ≡ trim_space param.recipient_account_number)

-- what an accepted request leaves: one new pending row, between the two wallets that it asks for
pub record Accepted (S : Services) (user : String) (param : InitiateTransferParam)
    (wallets : List WalletRow) (base rows : List TransferRow) : Type 0 where
  pub row : TransferRow
  pub sender : WalletRow
  pub recipient : WalletRow
  pub added : rows ≡ base ++ row ∷ []
  pub status : row.status ≡ pending
  pub amount : row.amount ≡ param.amount
  pub in_range :
      (ltb_ℤ param.amount min_transfer_minor || ltb_ℤ max_transfer_minor param.amount) ≡ false
  pub sender_asked : IsSender S param wallets sender
  pub recipient_asked : IsRecipient param wallets recipient
  pub owner : S.uuids.to_string sender.user_id ≡ user
  pub debits : S.uuids.parse (S.uuids.to_string sender.id) ≡ some row.sender_wallet_id
  pub credits : S.uuids.parse (S.uuids.to_string recipient.id) ≡ some row.recipient_wallet_id
  pub sender_active : is_active sender.status ≡ true
  pub recipient_active : is_active recipient.status ≡ true
  pub two_wallets : S.uuids.to_string recipient.id ≢ S.uuids.to_string sender.id
  pub one_currency : equal_fold recipient.currency sender.currency ≡ true

pub is_set : (b : Bool) → not b ≡ false → b ≡ true
is_set b h = ground arith

pub same_text : (a b : String) → not (str_eq a b) ≡ false → a ≡ b
same_text a b h = ground (arith, eq_iff a b)

pub other_text : (a b : String) → str_eq a b ≡ false → a ≢ b
other_text a b h = ground (arith, eq_iff a b)

equal_text : (a b : String) → str_eq a b ≡ true → a ≡ b
equal_text a b h = ground (arith, eq_iff a b)

module _ (S : Services) (has_ledger : Bool) (laws : InsertLaws S.transfers)
    (wl : TableLaws S.wallets) (base : List TransferRow) (wallets : List WalletRow) where
  -- the rows of both tables, before anything is recorded
  abbrev pub Start : World S → Type 0
  Start w = (laws.rows w.transfers ≡ base) × (wl.rows w.wallets ≡ wallets)

  abbrev pub RecordedAs : CreateTransferParam → Result Transfer → World S → Type 0
  RecordedAs param r w = Adds S laws base param r w.transfers

  abbrev pub param_of : String → Money → Wallet → Wallet → CreateTransferParam
  param_of user_id amount sender recipient = record {
    sender_user_id = user_id;
    sender_wallet_id = sender.id;
    recipient_user_id = recipient.user_id;
    recipient_wallet_id = recipient.id;
    amount = amount;
    currency = sender.currency;
  }

  pub record_transfer-RecordedAs :
      (fresh : Uuid) (now : ℕ) (user_id : String) (amount : Money) (sender recipient : Wallet)
      → Ensures Start
          (record_transfer S has_ledger fresh now user_id amount sender recipient)
          (RecordedAs (param_of user_id amount sender recipient))
  unfolding record_transfer
  record_transfer-RecordedAs fresh now user_id amount sender recipient =
      let param = param_of user_id amount sender recipient in
      Ensures-bind (λ _ w. Start w)
        (check_sufficient_balance-On S (λ t v. (laws.rows t ≡ base) × (wl.rows v ≡ wallets))
          has_ledger sender.id amount)
        (λ _.
          Ensures-bind (RecordedAs param)
            (Ensures-wrap (server_error "Could Not Start Transfer") (RecordedAs param)
              (record {
                at = λ w h. (create_transfer-Adds S laws base fresh now param).at w.transfers h.0;
              })
              (λ t w h. h) (λ e w h. h))
            (λ t.
              Ensures-bind (λ r w. (r ≡ ok tt) × RecordedAs param (ok t) w)
                (publish-On S (λ s v. Adds S laws base param (ok t) s) _)
                (λ _. Ensures-pure (RecordedAs param) t (λ w h. h.1)) (λ e w h. cc))
            (λ e w h. h))
        (λ e w h. inl h.0)

  abbrev pub Outcome : String → InitiateTransferParam → Result Transfer → World S → Type 0
  Outcome user param (ok t) w =
      (a : Accepted S user param wallets base (laws.rows w.transfers)) × (t
        ≡ map_transfer S.uuids a.row)
  Outcome user param (err e) w =
      (laws.rows w.transfers ≡ base) ⊎ Accepted S user param wallets base (laws.rows w.transfers)

  -- a wallet of the table, as it was loaded, that is what was asked for
  abbrev pub Loaded : (WalletRow → Type 0) → Wallet → Type 0
  Loaded Asked x = (row : WalletRow) × (Memᴰ row wallets × Asked row) × (x ≡ map_wallet S.uuids row)

  pub get_wallet_by_id-Loaded :
      (id : String)
      → Ensures Start (on_wallets S (get_wallet_by_id S.uuids S.wallets id)) (λ r w.
        Start w × ((x : Wallet) → r ≡ ok x → Loaded (λ row. S.uuids.parse id ≡ some row.id) x))
  unfolding get_wallet_by_id attempt map_wallet
  get_wallet_by_id-Loaded id = record {
    at = λ w h. (
      (
        h.0,
        (read-Keeps S.uuids wl (λ u r. r.id == u) (map_wallet S.uuids) id
              (λ rows. rows ≡ wallets)).at
            w.wallets h.1,
      ),
      λ x e.
          let (u, row, parsed, same, member, view) =
            (read-Found S.uuids wl (λ u r. r.id == u) (map_wallet S.uuids) id wallets).at w.wallets
              h.1 x e in
          (row, (member, parsed ∙ ap some (sym ((==_iff row.id u).0 same))), view),
    );
  }

  pub get_wallet_by_number-Loaded :
      (number : String)
      → Ensures Start (on_wallets S (get_wallet_by_account_number S.uuids S.wallets number)) (λ r w.
        Start w × ((x : Wallet) → r ≡ ok x → Loaded (λ row. row.account_number ≡ number) x))
  unfolding get_wallet_by_account_number
  get_wallet_by_number-Loaded number = record {
    at = λ w h. let (rows, found) = read.at w.wallets h.1 in ((h.0, rows), found);
  }
    where
      Row : Result WalletRow → S.wallets.State → Type 0
      Row r s =
          (wl.rows s ≡ wallets)
          × ((row : WalletRow) → r ≡ ok row → Memᴰ row wallets × (row.account_number ≡ number))

      read :
          Ensures
            (λ s. wl.rows s ≡ wallets)
            (get_wallet_by_account_number S.uuids S.wallets number)
            (λ r s.
              (wl.rows s ≡ wallets)
              × ((x : Wallet) → r ≡ ok x → Loaded (λ row. row.account_number ≡ number) x))
      read =
          Ensures-bind Row
            (Ensures-wrap wrap_gorm_error Row
              (record {
                at = λ s h. (
                  wl.rows-first (λ r. str_eq r.account_number number) s ∙ h,
                  λ row e.
                      let (fits, member) =
                        wl.first_matches (λ r. str_eq r.account_number number) s row e in
                      (subst (Memᴰ row) h member, equal_text row.account_number number fits),
                );
              })
              (λ row s h. h) (λ e s h. (h.0, λ row bad. cc)))
            (λ row. Ensures-pure _ _ (λ s h. (h.0, λ x e. (row, h.1 row refl, cc))))
            (λ e s h. (h.0, λ x bad. cc))
