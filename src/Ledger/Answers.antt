-- ===== src/Ledger/Answers.antt =====
-- internal/ledger/ledger.go: what an operation that returns nil has left in the ledger.
use digital_wallet.Prelude.{
  ℕ, ◌≡◌, refl, subst, ◌∙◌, Bool, true, not, arith, some, List, [], ◌∷◌, is_empty, All, ◌==◌,
}
use digital_wallet.Prelude.Text.{equal_fold}
use digital_wallet.Shared.{Error, rejected, cross_currency}
use digital_wallet.Shared.Money.{is_positive}
use digital_wallet.Exec.{Result, ok, raise}
use digital_wallet.Exec.Ensures.{
  Ensures, Keeps, Ensures-bind, Ensures-if, Ensures-raise, Ensures-pure, Ensures-or_else,
}
use digital_wallet.External.Uuids.{Uuid}
use digital_wallet.External.TigerBeetle.{
  TigerBeetle, TigerBeetleLaws, TransferStatus, IsSettled, Posting,
}
use digital_wallet.Ledger.Accounts.{transfer_id, ensure_accounts}
use digital_wallet.Ledger.Transfers.{
  DepositParam, TransferParam, check_deposit, check_transfer, deposit_posting, transfer_posting,
  deposit, post_deposit, post_transfer, transfer, has_posting,
}
use digital_wallet.Ledger.Types.{ledger_for_currency}
use digital_wallet.Ledger.Keeping.{
  check_transfer-state, check_transfer-IsSettled, check_deposit-state, check_deposit-IsSettled,
}

-- `Q` after a call that returns nil
abbrev pub After : {S : Type 0} → (S → Type 0) → Result (Unit {0}) → S → Type 0
After Q r s = r ≡ ok tt → Q s

-- `Q` after a request whose every status is "created" or "exists"
abbrev pub Settled : {S : Type 0} → (S → Type 0) → Result (List TransferStatus) → S → Type 0
Settled Q r s = (sts : List TransferStatus) → r ≡ ok sts → All IsSettled sts → Q s

abbrev pub Anything : {S : Type 0} → S → Type 0
Anything s = Unit

module _ (T : TigerBeetle) (Q : T.Store → Type 0) where
  raise-After : {P : T.Store → Type 0} (e : Error) → Ensures P (raise e) (After Q)
  raise-After e = Ensures-raise (After Q) e (λ s h p. cc)

  ensure_accounts-Anything : (l : ℕ) (w : Uuid) → Keeps Anything (ensure_accounts T l w)
  ensure_accounts-Anything l w = record { at = λ s h. tt }

  check_transfer-After :
      (sts : List TransferStatus) → Ensures (Settled Q (ok sts)) (check_transfer T sts) (After Q)
  check_transfer-After sts = record {
    at = λ s h e. rw check_transfer-state (h sts refl (check_transfer-IsSettled T sts s e));
  }

  check_deposit-After :
      (sts : List TransferStatus) → Ensures (Settled Q (ok sts)) (check_deposit T sts) (After Q)
  check_deposit-After sts = record {
    at = λ s h e. rw check_deposit-state (h sts refl (check_deposit-IsSettled T sts s e));
  }

  post_transfer-After :
      (p : TransferParam)
      → ((l : ℕ)
          → ledger_for_currency p.sender_currency ≡ some l
          → Ensures Anything (T.create_transfers (transfer_posting T l p ∷ [])) (Settled Q))
      → Ensures Anything (post_transfer T p) (After Q)
  unfolding post_transfer
  post_transfer-After p create =
      Ensures-or_else (After Q) (ledger_for_currency p.sender_currency) rejected
        (λ l known.
          Ensures-bind (λ _ s. Anything s) (ensure_accounts-Anything l p.sender_wallet_id)
            (λ _.
              Ensures-bind (λ _ s. Anything s) (ensure_accounts-Anything l p.receipient_wallet_id)
                (λ _.
                  Ensures-bind (Settled Q) (create l known) check_transfer-After (λ e s _ h. cc))
                (λ e s _ h. cc))
            (λ e s _ h. cc))
        (λ s _ h. cc)

  post_deposit-After :
      (p : DepositParam)
      → ((l : ℕ)
          → ledger_for_currency p.currency ≡ some l
          → Ensures Anything (T.create_transfers (deposit_posting T l p ∷ [])) (Settled Q))
      → Ensures Anything (post_deposit T p) (After Q)
  unfolding post_deposit
  post_deposit-After p create =
      Ensures-or_else (After Q) (ledger_for_currency p.currency) rejected
        (λ l known.
          Ensures-bind (λ _ s. Anything s) (ensure_accounts-Anything l p.wallet_id)
            (λ _. Ensures-bind (Settled Q) (create l known) check_deposit-After (λ e s _ h. cc))
            (λ e s _ h. cc))
        (λ s _ h. cc)

  -- What follows from a settled request for the posting, a transfer that returns no error has done.
  pub transfer-After :
      (p : TransferParam)
      → ((l : ℕ)
          → ledger_for_currency p.sender_currency ≡ some l
          → is_positive p.amount ≡ true
          → Ensures Anything (T.create_transfers (transfer_posting T l p ∷ [])) (Settled Q))
      → Ensures Anything (transfer T p) (After Q)
  unfolding transfer
  transfer-After p create =
      Ensures-if (not (is_positive p.amount)) (λ _. raise-After rejected)
        (λ positive.
          Ensures-if (p.sender_wallet_id == p.receipient_wallet_id) (λ _. raise-After rejected)
            (λ _.
              Ensures-if (not (equal_fold p.sender_currency p.receipients_currency))
                (λ _. raise-After cross_currency)
                (λ _. post_transfer-After p (λ l known. create l known (ground arith)))))

  pub deposit-After :
      (p : DepositParam)
      → ((l : ℕ)
          → ledger_for_currency p.currency ≡ some l
          → is_positive p.amount ≡ true
          → Ensures Anything (T.create_transfers (deposit_posting T l p ∷ [])) (Settled Q))
      → Ensures Anything (deposit T p) (After Q)
  unfolding deposit
  deposit-After p create =
      Ensures-if (not (is_positive p.amount)) (λ _. raise-After rejected)
        (λ positive. post_deposit-After p (λ l known. create l known (ground arith)))

module _ {T : TigerBeetle} (laws : TigerBeetleLaws T) (i : ℕ) where
  -- whether the transfer `i` is posted
  abbrev pub IsPosted : T.Store → Type 0
  IsPosted s = laws.posted s i ≡ true

  create-IsPosted :
      (t : Posting) → t.id ≡ i → Ensures Anything (T.create_transfers (t ∷ [])) (Settled IsPosted)
  create-IsPosted t e = record {
    at = λ s _ sts h all.
        subst (λ j. laws.posted (T.create_transfers (t ∷ []) s).1 j ≡ true) e
          (laws.settled_posts t s sts h all);
  }

  -- A transfer that returns no error has its posting in the ledger.
  pub transfer-Posts :
      (p : TransferParam)
      → transfer_id T p.transfer_id ≡ i
      → Ensures Anything (transfer T p) (After IsPosted)
  unfolding transfer_posting
  transfer-Posts p same = transfer-After T IsPosted p (λ l _ _. create-IsPosted _ same)

  pub deposit-Posts :
      (p : DepositParam)
      → transfer_id T p.transfer_id ≡ i
      → Ensures Anything (deposit T p) (After IsPosted)
  unfolding deposit_posting
  deposit-Posts p same = deposit-After T IsPosted p (λ l _ _. create-IsPosted _ same)

  -- The test for a posting answers for the store that it leaves.
  pub has_posting_answers :
      (u : Uuid)
      → transfer_id T u ≡ i
      → Ensures Anything (has_posting T u) (λ r s. (b : Bool) → r ≡ ok b → laws.posted s i ≡ b)
  unfolding has_posting
  has_posting_answers u same =
      Ensures-bind (λ r s. (ts : List Posting) → r ≡ ok ts → laws.posted s i ≡ not (is_empty ts))
        (record {
          at = λ s _ ts h.
              laws.posted-lookup_transfers _ s i
              ∙ subst (λ j. laws.posted s j ≡ not (is_empty ts)) same
                  (laws.lookup_finds (transfer_id T u) s ts h);
        })
        (λ ts. Ensures-pure _ _ (λ s h b e. h ts refl ∙ cc)) (λ e s _ b h. cc)
