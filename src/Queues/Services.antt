-- ===== src/Queues/Services.antt =====
-- What the workers and the services act on: the database tables, the ledger, the provider, the queue and
-- Redis, each with its own state. A call of one leaves the others alone.
use digital_wallet.Exec.{Exec}
use digital_wallet.External.Uuids.{Uuids}
use digital_wallet.External.Table.{Table}
use digital_wallet.External.TigerBeetle.{TigerBeetle}
use digital_wallet.External.Provider.{Provider}
use digital_wallet.External.Broker.{Broker}
use digital_wallet.External.Redis.{Redis}
use digital_wallet.Repository.Types.{UserRow, WalletRow, TransferRow, IntentRow, ActivityRow}
use digital_wallet.Queues.Tasks.{Task}

pub record Services : Type 1 where
  pub uuids : Uuids
  pub users : Table UserRow
  pub wallets : Table WalletRow
  pub transfers : Table TransferRow
  pub intents : Table IntentRow
  pub activities : Table ActivityRow
  pub ledger : TigerBeetle
  pub provider : Provider
  pub broker : Broker Task
  pub redis : Redis

pub record World (S : Services) : Type 0 where
  pub users : S.users.State
  pub wallets : S.wallets.State
  pub transfers : S.transfers.State
  pub intents : S.intents.State
  pub activities : S.activities.State
  pub ledger : S.ledger.Store
  pub provider : S.provider.State
  pub broker : S.broker.State
  pub redis : S.redis.State

module _ (S : Services) {A : Type 0} where
  abbrev pub on_users : Exec S.users.State A → Exec (World S) A
  on_users m w = let (r, t) = m w.users in (r, record w { users = t })

  abbrev pub on_wallets : Exec S.wallets.State A → Exec (World S) A
  on_wallets m w = let (r, t) = m w.wallets in (r, record w { wallets = t })

  abbrev pub on_transfers : Exec S.transfers.State A → Exec (World S) A
  on_transfers m w = let (r, t) = m w.transfers in (r, record w { transfers = t })

  abbrev pub on_intents : Exec S.intents.State A → Exec (World S) A
  on_intents m w = let (r, t) = m w.intents in (r, record w { intents = t })

  abbrev pub on_ledger : Exec S.ledger.Store A → Exec (World S) A
  on_ledger m w = let (r, t) = m w.ledger in (r, record w { ledger = t })

  abbrev pub on_provider : Exec S.provider.State A → Exec (World S) A
  on_provider m w = let (r, t) = m w.provider in (r, record w { provider = t })

  abbrev pub on_broker : Exec S.broker.State A → Exec (World S) A
  on_broker m w = let (r, t) = m w.broker in (r, record w { broker = t })

  abbrev pub on_activities : Exec S.activities.State A → Exec (World S) A
  on_activities m w = let (r, t) = m w.activities in (r, record w { activities = t })

  abbrev pub on_redis : Exec S.redis.State A → Exec (World S) A
  on_redis m w = let (r, t) = m w.redis in (r, record w { redis = t })
