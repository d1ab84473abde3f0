-- ===== src/Ledger/Merging.antt =====
-- internal/ledger/ledger.go, `WalletMovements`: order and origin of the movements.
use digital_wallet.Prelude.{
  ℕ, ◌≡◌, refl, subst, ◌||◌, List, [], ◌∷◌, ◌++◌, map, is_empty, ◌==◌, All, All-append, Memᴰ,
}
use digital_wallet.Prelude.Sorting.{IsLatestFirst, sort_by-IsLatestFirst, sort_by-All}
use digital_wallet.Exec.{Result, ok}
use digital_wallet.Exec.Ensures.{Ensures, Ensures-pure, Ensures-bind, Ensures-if}
use digital_wallet.External.Uuids.{Uuid}
use digital_wallet.External.TigerBeetle.{TigerBeetle, Posting}
use digital_wallet.Ledger.Accounting.{Movement, movement_of, collect_movements, wallet_movements}

abbrev pub IsNewestFirst : List Movement → Type 0
IsNewestFirst = IsLatestFirst (λ (m : Movement). m.timestamp)

module _ (T : TigerBeetle) (asked : List Uuid) where
  abbrev pub IsAsked : Movement → Type 0
  IsAsked m = Memᴰ m.wallet_id asked

  movements_of-IsAsked :
      (w : Uuid) → Memᴰ w asked → (ts : List Posting) → All IsAsked (map (movement_of T w) ts)
  unfolding movement_of
  movements_of-IsAsked w h [] = tt
  movements_of-IsAsked w h (t ∷ ts) = (h, movements_of-IsAsked w h ts)

  abbrev Answers : Result (List Movement) → T.Store → Type 0
  Answers r s = (ms : List Movement) → r ≡ ok ms → All IsAsked ms

  collect-Answers :
      (ws : List Uuid) (limit : ℕ) (ms : List Movement)
      → All (λ w. Memᴰ w asked) ws
      → All IsAsked ms
      → Ensures (λ s. Unit {0}) (collect_movements T ws limit ms) Answers
  unfolding collect_movements
  collect-Answers [] limit ms inside h =
      Ensures-pure Answers ms (λ s _ ms' e. subst (All IsAsked) (ok-same e) h)
    where
      ok-same : {a b : List Movement} → ok a ≡ ok b → a ≡ b
      ok-same p = cc
  collect-Answers (w ∷ ws) limit ms inside h =
      Ensures-bind (λ _ s. Unit {0}) (record { at = λ s _. tt })
        (λ ts.
          collect-Answers ws limit (ms ++ map (movement_of T w) ts) inside.1 (
            All-append IsAsked ms (map (movement_of T w) ts) h
              (movements_of-IsAsked w inside.0 ts)))
        (λ e s _ ms' bad. cc)

All-members :
    (ws ws' : List Uuid) → ((w : Uuid) → Memᴰ w ws → Memᴰ w ws') → All (λ w. Memᴰ w ws') ws
All-members [] ws' f = tt
All-members (w ∷ ws) ws' f = (f w (Memᴰ.head refl), All-members ws ws' (λ v m. f v (Memᴰ.tail m)))

module _ (T : TigerBeetle) where
  -- The movements that come back are newest first across all wallets, and each is of a wallet that was
  -- asked for.
  pub wallet_movements-IsNewestFirst :
      (wallet_ids : List Uuid) (limit : ℕ) (s : T.Store) (ms : List Movement)
      → (wallet_movements T wallet_ids limit s).0 ≡ ok ms
      → IsNewestFirst ms × All (IsAsked T wallet_ids) ms
  unfolding wallet_movements
  wallet_movements-IsNewestFirst wallet_ids limit s ms e =
      (Ensures-if (is_empty wallet_ids || limit == 0)
          (λ _. Ensures-pure Good [] (λ s _ ms' e'. subst IsGood (ok-same e') (tt, tt)))
          (λ _.
            Ensures-bind (Answers T wallet_ids)
              (collect-Answers T wallet_ids wallet_ids limit []
                (All-members wallet_ids wallet_ids (λ w m. m)) tt)
              (λ found. Ensures-pure Good _ (λ s h ms' e'. subst IsGood (ok-same e') (
                sort_by-IsLatestFirst (λ (m : Movement). m.timestamp) found [] tt,
                sort_by-All (λ (m : Movement). m.timestamp) (IsAsked T wallet_ids) found []
                    (h found refl) tt,
              )))
              (λ err s h ms' bad. cc))).at
        s tt ms e
    where
      IsGood : List Movement → Type 0
      IsGood l = IsNewestFirst l × All (IsAsked T wallet_ids) l

      Good : Result (List Movement) → T.Store → Type 0
      Good r s = (ms' : List Movement) → r ≡ ok ms' → IsGood ms'

      ok-same : {a b : List Movement} → ok a ≡ ok b → a ≡ b
      ok-same p = cc
