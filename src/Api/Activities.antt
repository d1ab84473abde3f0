-- ===== src/Api/Activities.antt =====
-- internal/api/services/activity-service.go, `GetMyActivities`, and the worker of internal/queues/activity.go
-- that writes what it shows.
use digital_wallet.Prelude.{ℕ, String, Option, none, some, List}
use digital_wallet.Shared.{skip_retry}
use digital_wallet.Exec.{Exec, pure, raise, wrap, ◌>>=◌, ◌>>◌}
use digital_wallet.Repository.Types.{Activity}
use digital_wallet.Repository.Activities.{get_user_activities, create_activity}
use digital_wallet.Queues.Tasks.{ActivityPayload}
use digital_wallet.Queues.Services.{Services, World, on_activities}
use digital_wallet.Api.Transfers.{caller_id, load_failure}
use digital_wallet.Api.History.{ActivityPageParam, normalise}

pub record ActivityList : Type 0 where
  pub activities : List Activity
  pub total : ℕ
  pub limit : ℕ
  pub offset : ℕ

module _ (S : Services) where
  -- `MapActivityToServiceDomain` copies every field, so an activity is the repository's.
  unfoldable pub get_my_activities : Option String → ActivityPageParam → Exec (World S) ActivityList
  unfolding normalise
  get_my_activities caller page = do
    user_id ← caller_id caller
    result ← wrap (load_failure "User Not Found" "Could Not Load Activities") (
        on_activities S
          (get_user_activities S.uuids S.activities user_id (normalise page).0 (normalise page).1))
    pure (record {
      activities = result.0;
      total = result.1;
      limit = (normalise page).0;
      offset = (normalise page).1;
    })

  -- `HandleCreateActivity`, on the payload or `none` if it is no JSON, with the new row's number and time.
  -- No error is retried.
  unfoldable pub handle_create_activity : ℕ → ℕ → Option ActivityPayload → Exec (World S) Unit
  handle_create_activity fresh now none = raise skip_retry
  handle_create_activity fresh now (some payload) = do
    wrap (λ e. skip_retry)
        (on_activities S
          (create_activity S.uuids S.activities fresh now payload.user_id payload.action))
    pure tt
