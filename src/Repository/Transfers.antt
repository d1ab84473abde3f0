-- ===== src/Repository/Transfers.antt =====
-- internal/repository/transfer_repository.go: wallet-to-wallet transfers.
use digital_wallet.Prelude.{ℕ, String, Bool, ◌&&◌, ◌||◌, not, some, List, map, ◌==◌}
use digital_wallet.Shared.{transfer_not_pending}
use digital_wallet.Exec.{Exec, pure, wrap, ◌>>=◌}
use digital_wallet.External.Uuids.{Uuid, Uuids, nil}
use digital_wallet.External.Table.{Table, newest_first}
use digital_wallet.Repository.Types.{
  TransactionStatus, pending, success, failed, is_pending, is_success, TransferRow, Transfer,
  CreateTransferParam,
}
use digital_wallet.Repository.Errors.{wrap_gorm_error, parse_uuid, before_create, affected_row}

abbrev pub set_outcome : TransactionStatus → String → TransferRow → TransferRow
set_outcome st reason r = record r { status = st; failure_reason = reason }

abbrev pub is_party : Uuid → TransferRow → Bool
is_party user r = r.sender_user_id == user || r.recipient_user_id == user

module _ (U : Uuids) where
  unfoldable pub map_transfer : TransferRow → Transfer
  map_transfer r = record {
    id = U.to_string r.id;
    sender_user_id = U.to_string r.sender_user_id;
    sender_wallet_id = U.to_string r.sender_wallet_id;
    recipient_user_id = U.to_string r.recipient_user_id;
    recipient_wallet_id = U.to_string r.recipient_wallet_id;
    amount = r.amount;
    currency = r.currency;
    status = r.status;
    failure_reason = r.failure_reason;
    created_at = r.created_at;
  }

  module _ (T : Table TransferRow) where
    unfoldable pub create_transfer : Uuid → ℕ → CreateTransferParam → Exec T.State Transfer
    unfolding map_transfer parse_uuid
    create_transfer fresh now param = do
      sender_user ← parse_uuid U param.sender_user_id
      sender_wallet ← parse_uuid U param.sender_wallet_id
      recipient_user ← parse_uuid U param.recipient_user_id
      recipient_wallet ← parse_uuid U param.recipient_wallet_id
      transfer ← wrap wrap_gorm_error (
          T.create (record {
            id = before_create fresh nil;
            sender_user_id = sender_user;
            sender_wallet_id = sender_wallet;
            recipient_user_id = recipient_user;
            recipient_wallet_id = recipient_wallet;
            amount = param.amount;
            currency = param.currency;
            status = pending;
            failure_reason = "";
            created_at = now;
          }))
      pure (map_transfer transfer)

    unfoldable pub get_transfer_by_id : String → Exec T.State Transfer
    unfolding map_transfer parse_uuid
    get_transfer_by_id transfer_id = do
      parsed ← parse_uuid U transfer_id
      transfer ← wrap wrap_gorm_error (T.first (λ r. r.id == parsed))
      pure (map_transfer transfer)

    unfoldable pub mark_transfer : TransactionStatus → String → String → Exec T.State Transfer
    unfolding map_transfer parse_uuid
    mark_transfer status reason transfer_id = do
      parsed ← parse_uuid U transfer_id
      moved ←
          wrap wrap_gorm_error
            (T.update (λ r. r.id == parsed && is_pending r.status) (set_outcome status reason))
      transfer ← affected_row transfer_not_pending moved
      pure (map_transfer transfer)

    unfoldable pub mark_transfer_succeeded : String → Exec T.State Transfer
    unfolding mark_transfer
    mark_transfer_succeeded = mark_transfer success ""

    unfoldable pub mark_transfer_failed : String → String → Exec T.State Transfer
    unfolding mark_transfer
    mark_transfer_failed transfer_id reason = mark_transfer failed reason transfer_id

    unfoldable pub list_transfers_by_user : String → ℕ → ℕ → Exec T.State (List Transfer × ℕ)
    unfolding map_transfer parse_uuid
    list_transfers_by_user user_id limit offset = do
      user ← parse_uuid U user_id
      total ← wrap wrap_gorm_error (T.count (is_party user))
      models ← wrap wrap_gorm_error (T.find (is_party user) newest_first (some limit) offset)
      pure (map map_transfer models, total)

    unfoldable pub list_unsettled_transfers : String → ℕ → Exec T.State (List Transfer)
    unfolding map_transfer parse_uuid
    list_unsettled_transfers user_id limit = do
      user ← parse_uuid U user_id
      models ←
          wrap wrap_gorm_error
            (T.find (λ r. is_party user r && not (is_success r.status)) newest_first (some limit) 0)
      pure (map map_transfer models)
