-- ===== src/External/Http.antt =====
-- net/http's client and encoding/json, as the provider calls them.
use digital_wallet.Prelude.{ℕ, String, Option, List}
use digital_wallet.Shared.Money.{Money}
use digital_wallet.Exec.{Result, Exec}

-- a value of a request's JSON object
pub data Field : Type 0 where
  text : String → Field
  number : Money → Field
  texts : List (String × String) → Field

pub record Request : Type 0 where
  pub method : String
  pub url : String
  pub authorization : String
  pub body : Option (List (String × Field))

pub record Response : Type 0 where
  pub status_code : ℕ
  -- `io.ReadAll(io.LimitReader(resp.Body, 1<<20))`
  pub body : Result String

pub record Http : Type 1 where
  pub State : Type 0
  -- `http.NewRequestWithContext`, which refuses a malformed URL
  pub new_request : Request → Result Request
  -- `Client.Do`
  pub send : Request → Exec State Response
