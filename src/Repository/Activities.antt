-- ===== src/Repository/Activities.antt =====
-- internal/repository/activity.go: the feed of what users did.
use digital_wallet.Prelude.{ℕ, String, some, List, map, ◌==◌}
use digital_wallet.Exec.{Exec, pure, wrap, ◌>>=◌}
use digital_wallet.External.Uuids.{Uuids}
use digital_wallet.External.Table.{Table, newest_first}
use digital_wallet.Repository.Types.{ActivityRow, Activity}
use digital_wallet.Repository.Errors.{wrap_gorm_error, parse_uuid}

module _ (U : Uuids) where
  unfoldable pub map_activity : ActivityRow → Activity
  map_activity r = record {
    id = r.id;
    user_id = U.to_string r.user_id;
    action = r.action;
    created_at = r.created_at;
  }

  module _ (T : Table ActivityRow) where
    -- The errors of gorm are passed on as they are. The id and the time are the new row's.
    unfoldable pub create_activity : ℕ → ℕ → String → String → Exec T.State Activity
    unfolding map_activity parse_uuid
    create_activity fresh now user_id action = do
      user ← parse_uuid U user_id
      activity ← T.create (record { id = fresh; user_id = user; action = action; created_at = now })
      pure (map_activity activity)

    -- one page, and the number of all the user's activities
    unfoldable pub get_user_activities : String → ℕ → ℕ → Exec T.State (List Activity × ℕ)
    unfolding map_activity parse_uuid
    get_user_activities user_id limit offset = do
      user ← parse_uuid U user_id
      total ← wrap wrap_gorm_error (T.count (λ r. r.user_id == user))
      models ←
          wrap wrap_gorm_error (T.find (λ r. r.user_id == user) newest_first (some limit) offset)
      pure (map map_activity models, total)
