-- ===== src/Repository/Closed.antt =====
-- internal/repository/transfer_repository.go: the writes to the transfers, as operations on the table.
use digital_wallet.Prelude.{
  ℕ, String, ◌≡◌, refl, sym, subst, ◌∙◌, inl, inr, Bool, false, ◌&&◌, List, [], ◌∷◌, ◌++◌, Memᴰ,
  set_where, ◌==◌, arith, if◌then◌else◌,
}
use digital_wallet.Shared.{transfer_not_pending, not_found}
use digital_wallet.Exec.Ensures.{
  Keeps, Keeps-bind, Keeps-wrap, Keeps-pure, Keeps-or_else, keeps_rules,
}
use digital_wallet.External.Uuids.{Uuid, Uuids}
use digital_wallet.External.Table.{Table, TableLaws}
use digital_wallet.Repository.Types.{
  TransactionStatus, success, failed, is_pending, TransferRow, CreateTransferParam,
}
use digital_wallet.Repository.Errors.{wrap_gorm_error}
use digital_wallet.Repository.Queries.{affected_row-Keeps}
use digital_wallet.Repository.Transfers.{
  set_outcome, create_transfer, mark_transfer, mark_transfer_succeeded, mark_transfer_failed,
}

-- the calls of the repository that write to the transfers
pub data TransferOp : Type 0 where
  create : Uuid → ℕ → CreateTransferParam → TransferOp
  succeed : String → TransferOp
  fail : String → String → TransferOp

module _ (U : Uuids) (T : Table TransferRow) where
  unfoldable pub run_transfer_op : TransferOp → T.State → T.State
  run_transfer_op (create fresh now param) s = (create_transfer U T fresh now param s).1
  run_transfer_op (succeed id) s = (mark_transfer_succeeded U T id s).1
  run_transfer_op (fail id reason) s = (mark_transfer_failed U T id reason s).1

  unfoldable pub run_transfer_ops : List TransferOp → T.State → T.State
  unfolding run_transfer_op
  run_transfer_ops [] s = s
  run_transfer_ops (op ∷ ops) s = run_transfer_ops ops (run_transfer_op op s)

module _ {A : Type 0} where
  pub Memᴰ-set_where :
      (p : A → Bool) (f : A → A) (xs : List A) (x : A)
      → p x ≡ false
      → Memᴰ x xs
      → Memᴰ x (set_where p f xs)
  Memᴰ-set_where p f [] x out m = elim m [ ]
  Memᴰ-set_where p f (y ∷ xs) x out (Memᴰ.head e) =
      Memᴰ.head (e ∙ sym (unchanged (subst (λ z. p z ≡ false) e out)))
    where
      unchanged : p y ≡ false → (if p y then f y else y) ≡ y
      unchanged h = rw h refl
  Memᴰ-set_where p f (y ∷ xs) x out (Memᴰ.tail m) = Memᴰ.tail (Memᴰ-set_where p f xs x out m)

  Memᴰ-append : (xs ys : List A) (x : A) → Memᴰ x xs → Memᴰ x (xs ++ ys)
  Memᴰ-append [] ys x m = elim m [ ]
  Memᴰ-append (y ∷ xs) ys x (Memᴰ.head e) = Memᴰ.head e
  Memᴰ-append (y ∷ xs) ys x (Memᴰ.tail m) = Memᴰ.tail (Memᴰ-append xs ys x m)

pub and_false : (a b : Bool) → b ≡ false → (a && b) ≡ false
and_false a b h = ground arith

module _ (U : Uuids) (T : Table TransferRow) (laws : TableLaws T) (r : TransferRow)
    (closed : is_pending r.status ≡ false) where
  abbrev Has : T.State → Type 0
  Has s = Memᴰ r (laws.rows s)

  create-Has : (row : TransferRow) → Keeps Has (T.create row)
  create-Has row = record {
    at = λ s m. elim (laws.rows-create row s) [
      | inl same ↦ rw same m
      | inr added ↦ rw added (Memᴰ-append (laws.rows s) (row ∷ []) r m)
    ];
  }

  update-Has :
      (u : Uuid) (f : TransferRow → TransferRow)
      → Keeps Has (T.update (λ q. q.id == u && is_pending q.status) f)
  update-Has u f = record {
    at = λ s m. elim (laws.rows-update (λ q. q.id == u && is_pending q.status) f s) [
      | inl same ↦ rw same m
      | inr changed ↦ rw changed (
          Memᴰ-set_where (λ q. q.id == u && is_pending q.status) f (laws.rows s) r
            (and_false (r.id == u) (is_pending r.status) closed) m)
    ];
  }

  create_transfer-Has :
      (fresh : Uuid) (now : ℕ) (param : CreateTransferParam)
      → Keeps Has (create_transfer U T fresh now param)
  unfolding create_transfer
  create_transfer-Has fresh now param = search (keeps_rules, create-Has) depth 16

  mark_transfer-Has :
      (status : TransactionStatus) (reason id : String)
      → Keeps Has (mark_transfer U T status reason id)
  unfolding mark_transfer
  mark_transfer-Has status reason id = Keeps-bind (Keeps-or_else (U.parse id) not_found) (λ u.
      Keeps-bind (Keeps-wrap wrap_gorm_error (update-Has u (set_outcome status reason)))
        (λ moved. Keeps-bind (affected_row-Keeps transfer_not_pending moved) (λ t. Keeps-pure _)))

  run_transfer_op-Has : (op : TransferOp) (s : T.State) → Has s → Has (run_transfer_op U T op s)
  unfolding run_transfer_op mark_transfer_succeeded mark_transfer_failed
  run_transfer_op-Has (create fresh now param) s m = (create_transfer-Has fresh now param).at s m
  run_transfer_op-Has (succeed id) s m = (mark_transfer-Has success "" id).at s m
  run_transfer_op-Has (fail id reason) s m = (mark_transfer-Has failed reason id).at s m

  -- A transfer that is not pending is still there, unchanged in every column, after any writes of the
  -- repository to the transfers.
  pub closed_stays :
      (ops : List TransferOp) (s : T.State)
      → Memᴰ r (laws.rows s)
      → Memᴰ r (laws.rows (run_transfer_ops U T ops s))
  unfolding run_transfer_ops
  closed_stays [] s m = m
  closed_stays (op ∷ ops) s m =
      closed_stays ops (run_transfer_op U T op s) (run_transfer_op-Has op s m)
