-- ===== src/Repository/Transitions.antt =====
-- internal/repository/transaction_repository.go: the repository's writes to the deposits as operations on
-- the table, and where they take a row.
use digital_wallet.Prelude.{
  ℕ, String, ◌≡◌, refl, sym, subst, ◌∙◌, inl, inr, Bool, true, ◌&&◌, List, [], ◌∷◌, Memᴰ, ◌==◌,
}
use digital_wallet.Exec.Ensures.{
  Ensures, Ensures-bind, Ensures-wrap, Keeps-or_else, Keeps-pure, Keeps-bind,
}
use digital_wallet.Shared.{
  Error, not_found, intent_not_pending, intent_not_failed, intent_succeeded,
}
use digital_wallet.External.Uuids.{Uuid, Uuids}
use digital_wallet.External.Table.{Table, TableLaws}
use digital_wallet.Repository.Types.{
  TransactionStatus, pending, success, failed, refunding, refunded, is_pending, is_refunding,
  IntentRow, CreateIntentParam,
}
use digital_wallet.Repository.Errors.{wrap_gorm_error}
use digital_wallet.Repository.Queries.{affected_row-Keeps}
use digital_wallet.Repository.Intents.{
  set_status, move_row, create_intent, mark_intent_failed, mark_intent_refunding,
  mark_intent_refunded, mark_intent_succeeded, failed_or_refunding, pending_or_failed,
}
use digital_wallet.Repository.Life.{
  Edge, Evolves, IsFinal, Evolves-refl, Evolves-append, Evolves-set_where, failed_edge,
  refunding_edge, refunded_edge, success_edge, second_of, mem-Evolves,
}

-- The operations that write.
pub data IntentOp : Type 0 where
  create : Uuid → ℕ → CreateIntentParam → IntentOp
  fail begin_refund end_refund succeed : String → IntentOp

module _ (U : Uuids) (T : Table IntentRow) where
  unfoldable pub run_op : IntentOp → T.State → T.State
  run_op (IntentOp.create fresh now param) s = (create_intent U T fresh now param s).1
  run_op (IntentOp.fail ref) s = (mark_intent_failed U T ref s).1
  run_op (IntentOp.begin_refund ref) s = (mark_intent_refunding U T ref s).1
  run_op (IntentOp.end_refund ref) s = (mark_intent_refunded U T ref s).1
  run_op (IntentOp.succeed ref) s = (mark_intent_succeeded U T ref s).1

  unfoldable pub run_ops : List IntentOp → T.State → T.State
  run_ops [] s = s
  run_ops (op ∷ ops) s = run_ops ops (run_op op s)

module _ (U : Uuids) (T : Table IntentRow) (laws : TableLaws T) (base : List IntentRow) where
  abbrev From : T.State → Type 0
  From s = laws.rows s ≡ base

  abbrev Into : T.State → Type 0
  Into s = Evolves base (laws.rows s)

  update-Into :
      (p : IntentRow → Bool) (to : TransactionStatus)
      → ((r : IntentRow) → p r ≡ true → Edge r.status to)
      → Ensures From (T.update p (set_status to)) (λ _ s. Into s)
  update-Into p to h = record {
    at = λ s e. elim (laws.rows-update p (set_status to) s) [
      | inl unchanged ↦ subst (Evolves base) (sym (unchanged ∙ e)) (Evolves-refl base)
      | inr changed ↦ rw (changed, e) (Evolves-set_where p to base h)
    ];
  }

  move_row-Into :
      (allowed : TransactionStatus → Bool) (to : TransactionStatus) (refusal : Error) (ref : String)
      → ((st : TransactionStatus) → allowed st ≡ true → Edge st to)
      → Ensures From (move_row U T allowed to refusal ref) (λ _ s. Into s)
  unfolding move_row
  move_row-Into allowed to refusal ref edge =
      Ensures-bind (λ _ s. From s) (Keeps-or_else (U.parse ref) not_found)
        (λ u.
          Ensures-bind (λ _ s. Into s)
            (Ensures-wrap wrap_gorm_error (λ _ s. Into s)
              (update-Into (λ r. r.id == u && allowed r.status) to
                (λ r h. edge r.status (second_of (r.id == u) (allowed r.status) h)))
              (λ a s h. h) (λ e s h. h))
            (λ moved. Keeps-bind (affected_row-Keeps refusal moved) (λ r. Keeps-pure _))
            (λ e s h. h))
        (λ e s h. subst (Evolves base) (sym h) (Evolves-refl base))

  create_intent-Into :
      (fresh : Uuid) (now : ℕ) (param : CreateIntentParam)
      → Ensures From (create_intent U T fresh now param) (λ _ s. Into s)
  unfolding create_intent
  create_intent-Into fresh now param =
      Ensures-bind (λ _ s. From s) (Keeps-or_else (U.parse param.user_id) not_found)
        (λ user.
          Ensures-bind (λ _ s. From s) (Keeps-or_else (U.parse param.wallet_id) not_found)
            (λ wallet.
              Ensures-bind (λ _ s. Into s)
                (Ensures-wrap wrap_gorm_error (λ _ s. Into s) (insert-Into _ refl) (λ a s h. h)
                  (λ e s h. h))
                (λ r. Keeps-pure _) (λ e s h. h))
            unchanged)
        unchanged
    where
      unchanged : (e : Error) (s : T.State) → From s → Into s
      unchanged e s h = subst (Evolves base) (sym h) (Evolves-refl base)

      insert-Into : (r : IntentRow) → r.status ≡ pending → Ensures From (T.create r) (λ _ s. Into s)
      insert-Into r fresh_status = record {
        at = λ s e. elim (laws.rows-create r s) [
          | inl same ↦ subst (Evolves base) (sym (same ∙ e)) (Evolves-refl base)
          | inr added ↦ rw (added, e) (Evolves-append base r fresh_status)
        ];
      }

  run_op-Into : (op : IntentOp) (s : T.State) → From s → Into (run_op U T op s)
  unfolding run_op mark_intent_failed mark_intent_refunding mark_intent_refunded
      mark_intent_succeeded
  run_op-Into (IntentOp.create fresh now param) s h = (create_intent-Into fresh now param).at s h
  run_op-Into (IntentOp.fail ref) s h =
      (move_row-Into is_pending failed intent_not_pending ref failed_edge).at s h
  run_op-Into (IntentOp.begin_refund ref) s h =
      (move_row-Into failed_or_refunding refunding intent_not_failed ref refunding_edge).at s h
  run_op-Into (IntentOp.end_refund ref) s h =
      (move_row-Into is_refunding refunded intent_not_failed ref refunded_edge).at s h
  run_op-Into (IntentOp.succeed ref) s h =
      (move_row-Into pending_or_failed success intent_succeeded ref success_edge).at s h

module _ (U : Uuids) (T : Table IntentRow) (laws : TableLaws T) where
  -- Every write of the repository to the deposits moves each row along an edge of its life, changes
  -- nothing else of it, and adds only pending rows; also if the database reports an error.
  pub run_op-Evolves :
      (op : IntentOp) (s : T.State) → Evolves (laws.rows s) (laws.rows (run_op U T op s))
  run_op-Evolves op s = run_op-Into U T laws (laws.rows s) op s refl

  -- A deposit that is settled or refunded is still there, unchanged, after any writes.
  pub final_stays :
      (ops : List IntentOp) (s : T.State) (r : IntentRow)
      → IsFinal r.status
      → Memᴰ r (laws.rows s)
      → Memᴰ r (laws.rows (run_ops U T ops s))
  unfolding run_ops
  final_stays [] s r h m = m
  final_stays (op ∷ ops) s r h m =
      final_stays ops (run_op U T op s) r h (mem-Evolves r _ _ h (run_op-Evolves op s) m)
