-- ===== src/Ledger/Accounting.antt =====
-- internal/ledger/ledger.go: balances, and the movements of several wallets merged by time.
use digital_wallet.Prelude.{ℕ, ◌||◌, List, [], ◌∷◌, ◌++◌, map, is_empty, ◌==◌, if◌then◌else◌}
use digital_wallet.Prelude.Sorting.{sort_by}
use digital_wallet.Prelude.Int.{pos, ◌-ℤ◌}
use digital_wallet.Shared.Money.{Money, int64}
use digital_wallet.Exec.{Exec, pure, ◌>>=◌}
use digital_wallet.External.Uuids.{Uuid}
use digital_wallet.External.TigerBeetle.{TigerBeetle, Posting, Totals}
use digital_wallet.Ledger.Accounts.{account_id}

pub data Direction : Type 0 where
  credit debit : Direction

pub record Movement : Type 0 where
  pub transfer_id : Uuid
  pub wallet_id : Uuid
  pub direction : Direction
  pub amount : Money
  pub code : ℕ
  pub timestamp : ℕ

-- A map from wallets to amounts; a later entry for the same wallet replaces the earlier one.
abbrev pub set_balance : Uuid → Money → List (Uuid × Money) → List (Uuid × Money)
set_balance w m [] = (w, m) ∷ []
set_balance w m ((v, n) ∷ rest) =
    let later = set_balance w m rest in if v == w then (w, m) ∷ rest else (v, n) ∷ later

-- `sort.SliceStable`, newest first
abbrev pub sort_by_time : List Movement → List Movement
sort_by_time movements = sort_by (λ (m : Movement). m.timestamp) movements []

module _ (T : TigerBeetle) where
  -- `byAccount[id]`, the zero UUID for an account that was not asked for
  abbrev pub wallet_of : List Uuid → ℕ → Uuid
  wallet_of [] id = 0
  wallet_of (w ∷ ws) id =
      let rest = wallet_of ws id in if T.bytes_to_uint128 w == id then w else rest

  abbrev pub zero_balances : List Uuid → List (Uuid × Money) → List (Uuid × Money)
  zero_balances [] balances = balances
  zero_balances (w ∷ ws) balances = zero_balances ws (set_balance w (pos 0) balances)

  -- `big.Int.Int64` keeps the low 64 bits.
  unfoldable pub account_balance : Totals → Money
  unfolding int64 ◌-ℤ◌
  account_balance account = int64 (pos account.credits_posted -ℤ pos account.debits_posted)

  abbrev pub add_balances : List Uuid → List Totals → List (Uuid × Money) → List (Uuid × Money)
  add_balances ws [] balances = balances
  add_balances ws (account ∷ rest) balances =
      add_balances ws rest
        (set_balance (wallet_of ws account.account) (account_balance account) balances)

  unfoldable pub balances : List Uuid → Exec T.Store (List (Uuid × Money))
  unfolding account_id
  balances wallet_ids = if is_empty wallet_ids then pure [] else do
    accounts ← T.lookup_accounts (map (account_id T) wallet_ids)
    pure (add_balances wallet_ids accounts (zero_balances wallet_ids []))

  unfoldable pub movement_of : Uuid → Posting → Movement
  unfolding account_id int64
  movement_of wallet_id t = record {
    transfer_id = T.to_uuid t.id;
    wallet_id = wallet_id;
    direction = if t.debit_account_id == account_id T wallet_id then debit else credit;
    amount = int64 (pos t.amount);
    code = t.code;
    timestamp = t.timestamp;
  }

  -- the loop over the wallets; an error drops what was collected
  unfoldable pub collect_movements : List Uuid → ℕ → List Movement → Exec T.Store (List Movement)
  unfolding account_id
  collect_movements [] limit movements = pure movements
  collect_movements (w ∷ ws) limit movements = do
    transfers ← T.get_account_transfers (account_id T w) limit
    collect_movements ws limit (movements ++ map (movement_of w) transfers)

  unfoldable pub wallet_movements : List Uuid → ℕ → Exec T.Store (List Movement)
  wallet_movements wallet_ids limit =
      if is_empty wallet_ids || limit == 0
      then pure []
      else do movements ← collect_movements wallet_ids limit []; pure (sort_by_time movements)
