-- ===== src/Api/Wallets/Balance.antt =====
-- internal/api/services/wallet-service.go, `withBalances`: what one wallet is shown with.
use digital_wallet.Prelude.{
  ◌≡◌, refl, sym, subst, ap, ◌∙◌, Bool, true, false, not, some, List, [], ◌∷◌, arith, if◌then◌else◌,
}
use digital_wallet.Prelude.Int.{pos}
use digital_wallet.Shared.{app_error}
use digital_wallet.Shared.Money.{Money}
use digital_wallet.Exec.{Result, ok, Exec, pure, wrap, ◌>>=◌}
use digital_wallet.Exec.Ensures.{
  Ensures, Ensures-pure, Ensures-if, Ensures-bind, Ensures-wrap, Ensures-or_else,
}
use digital_wallet.External.Uuids.{Uuid}
use digital_wallet.Repository.Types.{Wallet}
use digital_wallet.Ledger.Accounting.{balances}
use digital_wallet.Queues.Services.{Services, World, on_ledger}
use digital_wallet.Api.Transfers.{balance_of}
use digital_wallet.Api.Wallets.{WalletView, view_of, with_balance, ids_of, parse_ids, with_balances}

module _ (S : Services) (has_ledger : Bool) (l : S.ledger.Store) where
  -- The ledger is as it was.
  abbrev pub Same : World S → Type 0
  Same w = w.ledger ≡ l

  -- what a wallet is shown with: the balance that the ledger tells of it, or none without a ledger
  abbrev pub BalanceOf : Uuid → Money → Type 0
  BalanceOf id m =
      (has_ledger ≡ true
        → (found : List (Uuid × Money)) × ((balances S.ledger (id ∷ []) l).0 ≡ ok found)
          × (m ≡ balance_of id found))
      × (has_ledger ≡ false → m ≡ pos 0)

  abbrev Pair : Wallet → Result (List (Uuid × Wallet)) → World S → Type 0
  Pair wallet r w =
      Same w
      × ((pairs : List (Uuid × Wallet))
          → r ≡ ok pairs
          → (id : Uuid) × (S.uuids.parse wallet.id ≡ some id) × (pairs ≡ (id, wallet) ∷ []))

  parse_ids-Pair :
      (wallet : Wallet) → Ensures Same (parse_ids S has_ledger (wallet ∷ [])) (Pair wallet)
  unfolding parse_ids
  parse_ids-Pair wallet =
      Ensures-or_else _ (S.uuids.parse wallet.id) _
        (λ id parsed.
          Ensures-bind (λ r w. Same w × ((more : List (Uuid × Wallet)) → r ≡ ok more → more ≡ []))
            (Ensures-pure _ [] (λ w h. (h, λ more e. cc)))
            (λ more. Ensures-pure _ _ (λ w h. (
              h.0,
              λ pairs e. (id, parsed, sym (listed e) ∙ ap (λ z. (id, wallet) ∷ z) (h.1 more refl)),
            )))
            (λ e w h. (h.0, λ pairs bad. cc)))
        (λ w h. (h, λ pairs bad. cc))
    where
      listed : {a b : List (Uuid × Wallet)} → ok a ≡ ok b → a ≡ b
      listed p = cc

  abbrev pub Viewed : Wallet → Result (List WalletView) → World S → Type 0
  Viewed wallet r w =
      (views : List WalletView)
      → r ≡ ok views
      → (id : Uuid) × (m : Money) × (S.uuids.parse wallet.id ≡ some id)
        × BalanceOf id m
        × (views ≡ view_of wallet m ∷ [])

  abbrev Asked : Uuid → Result (List (Uuid × Money)) → World S → Type 0
  Asked id r w = (found : List (Uuid × Money)) → r ≡ ok found → BalanceOf id (balance_of id found)

  ask-Asked :
      (id : Uuid)
      → Ensures Same
          (if not has_ledger
            then pure []
            else wrap
                (λ e. app_error 502 "Could Not Load Wallet Balance")
                (on_ledger S (balances S.ledger (id ∷ []))))
          (Asked id)
  ask-Asked id =
      Ensures-if (not has_ledger)
        (λ missing. Ensures-pure _ [] (λ w h found e.
          ((λ present. ground arith), (λ absent. ap (balance_of id) (sym (listed e))))))
        (λ present.
          Ensures-wrap _
            (λ r w.
              (found : List (Uuid × Money))
              → r ≡ ok found
              → (balances S.ledger (id ∷ []) l).0 ≡ ok found)
            (record {
              at = λ w h found e. subst (λ s. (balances S.ledger (id ∷ []) s).0 ≡ ok found) h e;
            })
            (λ a w h found e. ((λ _. (found, h found e, refl)), (λ absent. ground arith)))
            (λ e w h found bad. cc))
    where
      listed : {a b : List (Uuid × Money)} → ok a ≡ ok b → a ≡ b
      listed p = cc

  -- what `withBalances` does with the parsed ids
  abbrev rest : List (Uuid × Wallet) → Exec (World S) (List WalletView)
  rest parsed = do
    found ←
        if not has_ledger
        then pure []
        else wrap (λ e. app_error 502 "Could Not Load Wallet Balance")
            (on_ledger S (balances S.ledger (ids_of parsed)))
    pure (with_balance found parsed)

  rest-Viewed :
      (wallet : Wallet) (id : Uuid)
      → S.uuids.parse wallet.id ≡ some id
      → Ensures Same (rest ((id, wallet) ∷ [])) (Viewed wallet)
  rest-Viewed wallet id parsed =
      Ensures-bind (Asked id) (ask-Asked id)
        (λ found.
          Ensures-pure _ _
            (λ w h views e. (id, balance_of id found, parsed, h found refl, views_same e)))
        (λ e w h views bad. cc)
    where
      views_same : {a b : List WalletView} → ok a ≡ ok b → b ≡ a
      views_same p = cc

  pub with_balances-Viewed :
      (wallet : Wallet) → Ensures Same (with_balances S has_ledger (wallet ∷ [])) (Viewed wallet)
  unfolding with_balances
  with_balances-Viewed wallet =
      Ensures-bind (Pair wallet) (parse_ids-Pair wallet)
        (λ pairs. record {
          at = λ w (same, known).
              let (id, parsed, e) = known pairs refl in
              subst (λ z. Viewed wallet (rest z w).0 w) (sym e)
                ((rest-Viewed wallet id parsed).at w same);
        })
        (λ e w h views bad. cc)
