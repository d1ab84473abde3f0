-- ===== src/External/Uuids.antt =====
-- github.com/google/uuid: a UUID is its sixteen bytes, read as a number.
use digital_wallet.Prelude.{ℕ, String, ◌≡◌, Option, some}

abbrev pub Uuid : Type 0
Uuid = ℕ

-- `uuid.Nil`, the zero value
abbrev pub nil : Uuid
nil = 0

pub record Uuids : Type 0 where
  -- `uuid.Parse`; `none` is an error
  pub parse : String → Option Uuid
  pub to_string : Uuid → String

-- What `String` prints, `Parse` reads back.
pub record UuidLaws (U : Uuids) : Type 0 where
  pub parse-to_string : (u : Uuid) → U.parse (U.to_string u) ≡ some u
