-- ===== src/Api/Accounts/Events.antt =====
-- internal/api/events: the listeners to a new user and to a login. A handler returns nothing: its errors
-- are logged and dropped by the bus.
use digital_wallet.Prelude.{String, List, [], ◌∷◌}
use digital_wallet.Exec.{Result, ◌>>=◌}
use digital_wallet.Otp.{generate}
use digital_wallet.Queues.Tasks.{
  EmailPayload, default_task, enqueue_with_context, update_user_activity, email_send, activity,
  email,
}
use digital_wallet.Queues.Services.{Services, on_broker, on_redis}
use digital_wallet.Api.Events.{Listener}
use digital_wallet.Api.Accounts.Types.{UserCreatedPayload, UserLoggedInPayload}

abbrev pub email_welcome : String
email_welcome = "digiwallet"

abbrev pub email_login_alert : String
email_login_alert = "login-alert"

abbrev pub names_data : String → String → List (String × String)
names_data first_name last_name = ("first_name", first_name) ∷ ("last_name", last_name) ∷ []

abbrev pub welcome_email : UserCreatedPayload → String → EmailPayload
welcome_email event code = record {
  to = event.email ∷ [];
  subject = "Welcome to DigiWallet";
  template = email_welcome;
  otp = code;
  first_name = event.first_name;
  last_name = event.last_name;
  values = names_data event.first_name event.last_name;
}

abbrev pub login_email : UserLoggedInPayload → EmailPayload
login_email event = record {
  to = event.email ∷ [];
  subject = "Logged Into DigiWallet Account";
  template = email_login_alert;
  otp = "";
  first_name = event.first_name;
  last_name = event.last_name;
  values = names_data event.first_name event.last_name;
}

module _ (S : Services) where
  -- the first of RegisterEmailListeners, with what `GenerateOTP` draws
  unfoldable pub welcome_listener :
      (String → String) → Result String → Listener S UserCreatedPayload
  unfolding generate enqueue_with_context
  welcome_listener hash_code drawn event = do
    code ← on_redis S (generate S.redis hash_code drawn event.email)
    on_broker S
        (enqueue_with_context S.broker (default_task email_send (email (welcome_email event code))))

  -- the second of RegisterEmailListeners
  unfoldable pub login_alert_listener : Listener S UserLoggedInPayload
  unfolding enqueue_with_context
  login_alert_listener event =
      on_broker S
        (enqueue_with_context S.broker (default_task email_send (email (login_email event))))

  -- RegisterActivityListeners
  unfoldable pub login_activity_listener : Listener S UserLoggedInPayload
  unfolding enqueue_with_context
  login_activity_listener event = on_broker S (
      enqueue_with_context S.broker (
        default_task update_user_activity
          (activity (record { user_id = event.user_id; action = "Logged Into Account" }))))

  -- the listeners to `user.created` and to `user.loggedIn` that cmd/main.go registers
  abbrev pub user_created_listeners :
      (String → String) → Result String → List (Listener S UserCreatedPayload)
  user_created_listeners hash_code drawn = welcome_listener hash_code drawn ∷ []

  abbrev pub user_logged_in_listeners : List (Listener S UserLoggedInPayload)
  user_logged_in_listeners = login_alert_listener ∷ login_activity_listener ∷ []
