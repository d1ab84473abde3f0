-- ===== src/Repository/Intents.antt =====
-- internal/repository/transaction_repository.go and transfer_repository.go: the deposits, which the
-- source calls transaction intents.
use digital_wallet.Prelude.{
  ℕ, String, Bool, ◌&&◌, ◌||◌, not, none, some, List, [], ◌∷◌, map, is_empty, ◌==◌, if◌then◌else◌,
}
use digital_wallet.Shared.{Error, intent_not_pending, intent_succeeded, intent_not_failed}
use digital_wallet.Exec.{Exec, pure, wrap, ◌>>=◌}
use digital_wallet.External.Uuids.{Uuid, Uuids, nil}
use digital_wallet.External.Table.{Table, unordered, newest_first}
use digital_wallet.Repository.Types.{
  TransactionStatus, pending, success, failed, refunding, refunded, is_pending, is_failed,
  is_success, is_refunding, IntentRow, TransactionIntent, CreateIntentParam,
}
use digital_wallet.Repository.Errors.{wrap_gorm_error, parse_uuid, before_create, affected_row}

abbrev pub set_status : TransactionStatus → IntentRow → IntentRow
set_status st r = record r { status = st }

-- membership in a list of statuses of an IN clause
abbrev pub failed_or_refunding : TransactionStatus → Bool
failed_or_refunding st = is_failed st || is_refunding st

abbrev pub pending_or_failed : TransactionStatus → Bool
pending_or_failed st = is_pending st || is_failed st

abbrev pub is_one_of : List Uuid → Uuid → Bool
is_one_of [] u = Bool.false
is_one_of (v ∷ vs) u = u == v || is_one_of vs u

module _ (U : Uuids) where
  unfoldable pub map_intent : IntentRow → TransactionIntent
  map_intent r = record {
    id = U.to_string r.id;
    user_id = U.to_string r.user_id;
    wallet_id = U.to_string r.wallet;
    amount = r.amount;
    status = r.status;
    provider = r.provider;
    created_at = r.created_at;
  }

  -- the ids that parse, in order
  unfoldable pub parse_all : List String → List Uuid
  parse_all [] = []
  parse_all (id ∷ ids) = elim (U.parse id) [ none ↦ parse_all ids | some u ↦ u ∷ parse_all ids ]

  module _ (T : Table IntentRow) where
    -- `fresh` is a new UUID, `now` the time of the insertion.
    unfoldable pub create_intent : Uuid → ℕ → CreateIntentParam → Exec T.State TransactionIntent
    unfolding map_intent parse_uuid
    create_intent fresh now param = do
      user ← parse_uuid U param.user_id
      wallet ← parse_uuid U param.wallet_id
      intent ← wrap wrap_gorm_error (
          T.create (record {
            id = before_create fresh nil;
            user_id = user;
            amount = param.amount;
            status = pending;
            wallet = wallet;
            provider = param.provider;
            created_at = now;
          }))
      pure (map_intent intent)

    unfoldable pub get_intent_by_reference : String → Exec T.State TransactionIntent
    unfolding map_intent parse_uuid
    get_intent_by_reference reference = do
      parsed ← parse_uuid U reference
      intent ← wrap wrap_gorm_error (T.first (λ r. r.id == parsed))
      pure (map_intent intent)

    -- one page, and the number of all the user's deposits
    unfoldable pub list_user_intents : String → ℕ → ℕ → Exec T.State (List TransactionIntent × ℕ)
    unfolding map_intent parse_uuid
    list_user_intents user_id limit offset = do
      user ← parse_uuid U user_id
      total ← wrap wrap_gorm_error (T.count (λ r. r.user_id == user))
      models ←
          wrap wrap_gorm_error (T.find (λ r. r.user_id == user) newest_first (some limit) offset)
      pure (map map_intent models, total)

    -- the UPDATE … RETURNING that the status changes share
    unfoldable pub move_row :
        (TransactionStatus → Bool)
        → TransactionStatus
        → Error
        → String
        → Exec T.State TransactionIntent
    unfolding map_intent parse_uuid
    move_row allowed to refusal reference = do
      parsed ← parse_uuid U reference
      moved ←
          wrap wrap_gorm_error (T.update (λ r. r.id == parsed && allowed r.status) (set_status to))
      intent ← affected_row refusal moved
      pure (map_intent intent)

    unfoldable pub mark_intent_failed : String → Exec T.State TransactionIntent
    unfolding move_row
    mark_intent_failed = move_row is_pending failed intent_not_pending

    unfoldable pub mark_intent_refunding : String → Exec T.State TransactionIntent
    unfolding move_row
    mark_intent_refunding = move_row failed_or_refunding refunding intent_not_failed

    unfoldable pub mark_intent_refunded : String → Exec T.State TransactionIntent
    unfolding move_row
    mark_intent_refunded = move_row is_refunding refunded intent_not_failed

    unfoldable pub mark_intent_succeeded : String → Exec T.State TransactionIntent
    unfolding move_row
    mark_intent_succeeded = move_row pending_or_failed success intent_succeeded

    unfoldable pub list_unsettled_intents : String → ℕ → Exec T.State (List TransactionIntent)
    unfolding map_intent parse_uuid
    list_unsettled_intents user_id limit = do
      user ← parse_uuid U user_id
      models ←
          wrap wrap_gorm_error (
            T.find (λ r. r.user_id == user && not (is_success r.status)) newest_first (some limit)
              0)
      pure (map map_intent models)

    -- The map from ids to deposits is the list of its values: a key is the `id` of its value.
    unfoldable pub get_intents_by_ids : List String → Exec T.State (List TransactionIntent)
    unfolding map_intent parse_all
    get_intents_by_ids ids =
        if is_empty ids then pure [] else if is_empty (parse_all ids) then pure [] else do
          models ←
              wrap wrap_gorm_error (T.find (λ r. is_one_of (parse_all ids) r.id) unordered none 0)
          pure (map map_intent models)
