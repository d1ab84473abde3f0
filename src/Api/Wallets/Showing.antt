-- ===== src/Api/Wallets/Showing.antt =====
-- internal/api/services/wallet-service.go, `GetWallet`: whom a wallet is shown to.
use digital_wallet.Prelude.{
  String, ◌≡◌, refl, sym, subst, ap, Bool, not, Option, none, some, [], ◌∷◌, str_eq, Memᴰ,
  if◌then◌else◌, ◌==◌,
}
use digital_wallet.Shared.{app_error}
use digital_wallet.Exec.{Result, ok, Exec, pure, raise, attempt, wrap, ◌>>=◌}
use digital_wallet.Exec.Ensures.{
  Ensures, Ensures-pure, Ensures-raise, Ensures-if, Ensures-bind, Ensures-wrap,
}
use digital_wallet.External.Uuids.{Uuid}
use digital_wallet.External.Table.{TableLaws}
use digital_wallet.Repository.Types.{Wallet, WalletRow}
use digital_wallet.Repository.Wallets.{map_wallet, get_wallet_by_id}
use digital_wallet.Repository.Queries.{read-Found}
use digital_wallet.Queues.Services.{Services, World, on_wallets}
use digital_wallet.Api.Transfers.{caller_id, load_failure}
use digital_wallet.Api.Accounts.Ownership.{same_id}
use digital_wallet.Api.Wallets.Balance.{Same, BalanceOf, Viewed, with_balances-Viewed}
use digital_wallet.Api.Wallets.{WalletView, view_of, with_balances, only, get_wallet}

module _ (S : Services) (has_ledger : Bool) (wl : TableLaws S.wallets) (w : World S) where
  -- the caller's own wallet, from the table, with its balance
  pub record OwnWallet (caller : Option String) (view : WalletView) : Type 0 where
    pub row : WalletRow
    pub member : Memᴰ row (wl.rows w.wallets)
    pub owner : caller ≡ some (S.uuids.to_string row.user_id)
    pub id : Uuid
    pub parsed : S.uuids.parse (S.uuids.to_string row.id) ≡ some id
    pub balance : BalanceOf S has_ledger w.ledger id view.balance
    pub copied : view ≡ view_of (map_wallet S.uuids row) view.balance

  abbrev Start : World S → Type 0
  Start v = (wl.rows v.wallets ≡ wl.rows w.wallets) × (v.ledger ≡ w.ledger)

  abbrev Found : Result Wallet → World S → Type 0
  Found r v =
      (v.ledger ≡ w.ledger)
      × ((x : Wallet)
          → r ≡ ok x
          → (row : WalletRow) × Memᴰ row (wl.rows w.wallets) × (x ≡ map_wallet S.uuids row))

  abbrev Shows : Option String → Result WalletView → World S → Type 0
  Shows caller r v = (view : WalletView) → r ≡ ok view → OwnWallet caller view

  get_wallet_by_id-Found :
      (id : String) → Ensures Start (on_wallets S (get_wallet_by_id S.uuids S.wallets id)) Found
  unfolding get_wallet_by_id attempt map_wallet
  get_wallet_by_id-Found id = record {
    at = λ v h. (
      h.1,
      λ x e.
          let (u, row, parsed, same, member, view) =
            (read-Found S.uuids wl (λ u r. r.id == u) (map_wallet S.uuids) id
                (wl.rows w.wallets)).at
              v.wallets h.0 x e in
          (row, member, view),
    );
  }

  caller_id-Same :
      (user_id : String)
      → Ensures Start
          (caller_id (some user_id))
          (λ r v. Start v × ((named : String) → r ≡ ok named → named ≡ user_id))
  unfolding caller_id
  caller_id-Same user_id =
      Ensures-if (str_eq user_id "") (λ _. Ensures-raise _ _ (λ v h. (h, λ named bad. cc)))
        (λ _. Ensures-pure _ _ (λ v h. (h, λ named e. cc)))

  show-Shows :
      (user_id : String) (row : WalletRow)
      → Memᴰ row (wl.rows w.wallets)
      → Ensures
          (Same S has_ledger w.ledger)
          (if not (str_eq (map_wallet S.uuids row).user_id user_id)
            then raise (app_error 404 "Wallet Not Found")
            else (do
              result ← with_balances S has_ledger (map_wallet S.uuids row ∷ [])
              only S has_ledger result))
          (Shows (some user_id))
  unfolding map_wallet pure
  show-Shows user_id row member =
      Ensures-if (not (str_eq (S.uuids.to_string row.user_id) user_id))
        (λ _. Ensures-raise _ _ (λ v h view bad. cc))
        (λ mine.
          Ensures-bind (Viewed S has_ledger w.ledger (map_wallet S.uuids row))
            (with_balances-Viewed S has_ledger w.ledger (map_wallet S.uuids row))
            (λ views. record {
              at = λ v h view e.
                  let (id, m, parsed, told, same) = h views refl in
                  let shown : view_of (map_wallet S.uuids row) m ≡ view =
                    first_shown v (subst (λ z. (only S has_ledger z v).0 ≡ ok view) same e) in
                  subst (λ (z : WalletView). OwnWallet (some user_id) z) shown
                    (record {
                      row = row;
                      member = member;
                      owner = ap some (sym (same_id (S.uuids.to_string row.user_id) user_id mine));
                      id = id;
                      parsed = parsed;
                      balance = told;
                      copied = refl;
                    });
            })
            (λ e v h view bad. cc))
    where
      first_shown :
          {a b : WalletView} (v : World S) → (only S has_ledger (a ∷ []) v).0 ≡ ok b → a ≡ b
      first_shown v p = cc

  get_wallet-Shows :
      (user_id id : String)
      → Ensures Start (get_wallet S has_ledger (some user_id) id) (Shows (some user_id))
  unfolding get_wallet
  get_wallet-Shows user_id id =
      Ensures-bind (λ r v. Start v × ((named : String) → r ≡ ok named → named ≡ user_id))
        (caller_id-Same user_id)
        (λ named. record {
          at = λ v (start, same).
              subst (λ z. Shows (some user_id) (load z v).0 v) (sym (same named refl))
                (load-Shows.at v start);
        })
        (λ e v h view bad. cc)
    where
      load : String → Exec (World S) WalletView
      load named = do
        wallet ←
            wrap (load_failure "Wallet Not Found" "Could Not Load Wallet")
              (on_wallets S (get_wallet_by_id S.uuids S.wallets id))
        if not (str_eq wallet.user_id named)
            then raise (app_error 404 "Wallet Not Found")
            else (do result ← with_balances S has_ledger (wallet ∷ []); only S has_ledger result)

      load-Shows : Ensures Start (load user_id) (Shows (some user_id))
      load-Shows =
          Ensures-bind Found
            (Ensures-wrap _ Found (get_wallet_by_id-Found id) (λ x v h. h)
              (λ e v h. (h.0, λ x bad. cc)))
            (λ x. record {
              at = λ v (same, known).
                  let (row, member, e) = known x refl in
                  subst (λ z. Shows (some user_id) (shown z v).0 v) (sym e)
                    ((show-Shows user_id row member).at v same);
            })
            (λ e v h view bad. cc)
        where
          shown : Wallet → Exec (World S) WalletView
          shown x =
              if not (str_eq x.user_id user_id)
              then raise (app_error 404 "Wallet Not Found")
              else (do result ← with_balances S has_ledger (x ∷ []); only S has_ledger result)

  -- A wallet is only shown to its owner, as a row of the table has it, with the balance that the ledger
  -- tells of it, or with zero if the service has no ledger.
  pub get_wallet-OwnWallet :
      (caller : Option String) (id : String) (view : WalletView)
      → (get_wallet S has_ledger caller id w).0 ≡ ok view
      → OwnWallet caller view
  unfolding get_wallet caller_id raise attempt
  get_wallet-OwnWallet (some user_id) id view shown =
      (get_wallet-Shows user_id id).at w (refl, refl) view shown
  get_wallet-OwnWallet none id view shown = absurd (nobody shown)
    where
      nobody : (get_wallet S has_ledger none id w).0 ≡ ok view → ⊥
      nobody bad = cc
