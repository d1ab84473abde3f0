-- ===== src/Api/History.antt =====
-- internal/api/services/transaction-history.go: a user's transactions, settled ones from the ledger and
-- the others from Postgres, merged by time; with `Normalise` of types.go. A time is in nanoseconds.
use digital_wallet.Prelude.{
  ℕ, ◌+◌, String, Bool, not, Option, none, some, List, [], ◌∷◌, ◌++◌, map, select, is_empty, length,
  ltb, ◌==◌, str_eq, if◌then◌else◌,
}
use digital_wallet.Prelude.Int.{ℤ, pos, negsuc}
use digital_wallet.Prelude.Sorting.{take, drop, sort_by}
use digital_wallet.Shared.{Error, app_error}
use digital_wallet.Exec.{Exec, pure, wrap, or_else, ◌>>=◌}
use digital_wallet.External.Uuids.{Uuid}
use digital_wallet.Ledger.Accounting.{Movement, wallet_movements}
use digital_wallet.Ledger.Types.{TransferCode, transfer_code}
use digital_wallet.Repository.Types.{TransactionStatus, Wallet, TransactionIntent}
use digital_wallet.Repository.Intents.{get_intents_by_ids, list_unsettled_intents}
use digital_wallet.Repository.Transfers.{list_unsettled_transfers}
use digital_wallet.Repository.Wallets.{list_wallets_by_user}
use digital_wallet.Queues.Services.{
  Services, World, on_wallets, on_transfers, on_intents, on_ledger,
}
use digital_wallet.Api.Transfers.{caller_id}
use digital_wallet.Api.Payments.Types.{
  Transaction, TransactionKind, provider_internal, intent_to_transaction, transfer_to_transaction,
}

abbrev pub default_activity_limit : ℕ
default_activity_limit = 20

abbrev pub max_activity_limit : ℕ
max_activity_limit = 100

abbrev max_history_scan : ℕ
max_history_scan = 500

-- `none` is a nil pointer; a nil page is one with neither.
pub record ActivityPageParam : Type 0 where
  pub limit : Option ℤ
  pub offset : Option ℤ

abbrev pub clamp_limit : Option ℤ → ℕ
clamp_limit none = default_activity_limit
clamp_limit (some (negsuc n)) = default_activity_limit
clamp_limit (some (pos n)) =
    if n == 0
    then default_activity_limit
    else if ltb max_activity_limit n
    then max_activity_limit
    else n

abbrev pub clamp_offset : Option ℤ → ℕ
clamp_offset none = 0
clamp_offset (some (negsuc n)) = 0
clamp_offset (some (pos n)) = n

-- the limit and the offset
unfoldable pub normalise : ActivityPageParam → ℕ × ℕ
normalise p = (clamp_limit p.limit, clamp_offset p.offset)

pub record TransactionList : Type 0 where
  pub transactions : List Transaction
  pub total : ℕ
  pub limit : ℕ
  pub offset : ℕ

abbrev not_loaded : ℕ → Error → Error
not_loaded code e = app_error code "Could Not Load Transactions"

-- An offset within 100 of the largest int64, where `offset + limit` wraps, is not modelled.
abbrev scan_of : ℕ → ℕ → ℕ
scan_of limit offset =
    if ltb max_history_scan (offset + limit) then max_history_scan else offset + limit

-- `intents[reference]`, or the empty text
abbrev provider_of : String → List TransactionIntent → String
provider_of reference [] = ""
provider_of reference (intent ∷ rest) =
    let found = provider_of reference rest in
    if str_eq intent.id reference then intent.provider else found

abbrev pub page_of : ℕ → ℕ → List Transaction → TransactionList
page_of limit offset merged = record {
  transactions = take limit (drop offset (sort_by (λ (t : Transaction). t.created_at) merged []));
  total = length merged;
  limit = limit;
  offset = offset;
}

module _ (S : Services) where
  abbrev parse_wallets : List Wallet → Exec (World S) (List Uuid)
  parse_wallets [] = pure []
  parse_wallets (wallet ∷ rest) = do
    parsed ← or_else (S.uuids.parse wallet.id) (app_error 500 "Could Not Load Transactions")
    others ← parse_wallets rest
    pure (parsed ∷ others)

  abbrev movement_to_transaction : String → List TransactionIntent → Movement → Transaction
  movement_to_transaction user_id intents m =
      let reference = S.uuids.to_string m.transfer_id in
      let deposited = m.code == transfer_code TransferCode.deposit in
      record {
        reference = reference;
        user_id = user_id;
        wallet_id = S.uuids.to_string m.wallet_id;
        amount = m.amount;
        status = TransactionStatus.success;
        provider = if deposited then provider_of reference intents else provider_internal;
        kind = if deposited then TransactionKind.deposit else TransactionKind.transfer;
        direction = m.direction;
        created_at = m.timestamp;
      }

  unfoldable pub settled_transactions : Bool → String → ℕ → Exec (World S) (List Transaction)
  settled_transactions has_ledger user_id scan = if not has_ledger then pure [] else do
    wallets ← wrap (not_loaded 500) (on_wallets S (list_wallets_by_user S.uuids S.wallets user_id))
    if is_empty wallets then pure [] else (do
      wallet_ids ← parse_wallets wallets
      movements ← wrap (not_loaded 502) (on_ledger S (wallet_movements S.ledger wallet_ids scan))
      intents ← wrap (not_loaded 500) (
          on_intents S (
            get_intents_by_ids S.uuids S.intents (
              map (λ (m : Movement). S.uuids.to_string m.transfer_id)
                (select (λ (m : Movement). m.code == transfer_code TransferCode.deposit)
                  movements))))
      pure (map (movement_to_transaction user_id intents) movements))

  unfoldable pub unsettled_transactions : String → ℕ → Exec (World S) (List Transaction)
  unsettled_transactions user_id scan = do
    intents ←
        wrap (not_loaded 500) (on_intents S (list_unsettled_intents S.uuids S.intents user_id scan))
    transfers ←
        wrap (not_loaded 500)
          (on_transfers S (list_unsettled_transfers S.uuids S.transfers user_id scan))
    pure (map intent_to_transaction intents ++ map (transfer_to_transaction user_id) transfers)

  unfoldable pub list_my_transactions :
      Bool → Option String → ActivityPageParam → Exec (World S) TransactionList
  list_my_transactions has_ledger caller page = do
    user_id ← caller_id caller
    settled ←
        settled_transactions has_ledger user_id (scan_of (normalise page).0 (normalise page).1)
    unsettled ← unsettled_transactions user_id (scan_of (normalise page).0 (normalise page).1)
    pure (page_of (normalise page).0 (normalise page).1 (settled ++ unsettled))
