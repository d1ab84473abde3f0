-- ===== src/Repository/Errors.antt =====
-- internal/repository/errors.go, and the `BeforeCreate` hooks of internal/repository/db/types.go.
use digital_wallet.Prelude.{String, List, [], ◌∷◌, ◌==◌, if◌then◌else◌}
use digital_wallet.Shared.{Error, record_not_found, duplicated_key, not_found, already_exists}
use digital_wallet.Exec.{Exec, pure, raise, or_else}
use digital_wallet.External.Uuids.{Uuid, Uuids, nil}

abbrev pub wrap_gorm_error : Error → Error
wrap_gorm_error record_not_found = not_found
wrap_gorm_error duplicated_key = already_exists
wrap_gorm_error e = e

-- A malformed id is reported as not found.
unfoldable pub parse_uuid : Uuids → {S : Type 0} → String → Exec S Uuid
parse_uuid U id = or_else (U.parse id) not_found

-- `BeforeCreate`: `fresh` is what `uuid.New()` returns
abbrev pub before_create : Uuid → Uuid → Uuid
before_create fresh id = if id == nil then fresh else id

-- `result.RowsAffected == 0` is the error `e`; otherwise the row that RETURNING filled in
abbrev pub affected_row : {S Row : Type 0} → Error → List Row → Exec S Row
affected_row e [] = raise e
affected_row e (r ∷ rest) = pure r
