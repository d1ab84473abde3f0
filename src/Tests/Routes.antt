-- ===== src/Tests/Routes.antt =====
-- The theorems on the protected routes, at a world in memory with one account, and two runs.
use digital_wallet.Prelude.{◌≡◌, ◌≤◌, ◌⊎◌, refl, some, true}
use digital_wallet.Prelude.Int.{pos}
use digital_wallet.Exec.{ok, pure, attempt, wrap, raise}
use digital_wallet.Repository.Users as Users
use digital_wallet.Api.Accounts.Owners.{delete_user, validat_owner}
use digital_wallet.Api.Accounts.Tokens.{authenticate}
use digital_wallet.Api.Routes.{write_app_error, answer}
use digital_wallet.Api.Routes.Table.{ProtectedCall, Setup, Draws}
use digital_wallet.Api.Routes.Users.{delete_user_route}
use digital_wallet.Api.Routes.Serving.{handle, serve_protected}
use digital_wallet.Api.Routes.Admitted.{IsAdmitted, Serves, serve_protected-Serves}
use digital_wallet.Api.Routes.Owners.{deletes, serve_protected-Changes}
use digital_wallet.Tests.Memory.{print_uuid}
use digital_wallet.Tests.MemoryTokens.{token_a, token_r, memory_bcrypt}
use digital_wallet.Tests.Fixtures.{services}
use digital_wallet.Tests.Accounts.{configured, jwt, with_ada}

abbrev setup : Setup
setup = record {
  web = record { status_text = λ code. "status"; atoi = λ text. ok (pos 3); error_text = λ e. "e" };
  jwt = jwt;
  bcrypt = memory_bcrypt;
  accounts = configured;
  payments = record {
    has_provider = true;
    callback_url = "";
    poll_max_retry = 3;
    poll_interval = 1;
  };
  has_ledger = true;
  format_int = print_uuid;
}

abbrev draws : Draws
draws = record { now = 20; fresh = 40; salt = 0; code = ok "4711"; wallets = λ n. (ok n, 41, 9) }

abbrev delete_ada : ProtectedCall
delete_ada = ProtectedCall.delete_users_id (print_uuid 1)

deleted_by_ada :
    (serve_protected services setup draws (some token_a) delete_ada with_ada).0.status ≡ 204
unfolding serve_protected authenticate handle delete_user_route answer delete_user validat_owner
    Users.get_user_by_id Users.delete_user attempt pure wrap raise
deleted_by_ada = refl

refused_to_refresh :
    (serve_protected services setup draws (some token_r) delete_ada with_ada).0.status ≡ 401
unfolding serve_protected authenticate write_app_error
refused_to_refresh = refl

serve_protected-Serves_example :
    Serves services setup draws delete_ada with_ada
      (some token_r)
      (serve_protected services setup draws (some token_r) delete_ada with_ada)
serve_protected-Serves_example =
    serve_protected-Serves services setup draws delete_ada with_ada (some token_r)

serve_protected-Changes_example :
    IsAdmitted jwt 20 (some token_r) (print_uuid 1)
    ⊎ ((400 ≤ (serve_protected services setup draws (some token_r) delete_ada with_ada).0.status)
        × ((serve_protected services setup draws (some token_r) delete_ada with_ada).1 ≡ with_ada))
serve_protected-Changes_example =
    serve_protected-Changes services setup draws with_ada (some token_r) (print_uuid 1) delete_ada
      (deletes (print_uuid 1))
