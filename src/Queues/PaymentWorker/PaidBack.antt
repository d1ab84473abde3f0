-- ===== src/Queues/PaymentWorker/PaidBack.antt =====
-- internal/queues/payment.go: which deposits the provider was asked to pay back, through the writes of
-- the deposit's status and the call of `Refund`.
use digital_wallet.Prelude.{
  String, ◌≡◌, refl, sym, subst, ap, ◌∙◌, inl, inr, Bool, true, false, ◌&&◌, some, List, ◌∷◌, Memᴰ,
  All, All-imp, All-imp_mem, All-get, All-set_where, ◌==◌, ==_iff, Bool-cases, some_eq, str_eq,
  eq_iff,
}
use digital_wallet.Shared.{Error, not_found, intent_not_failed}
use digital_wallet.Shared.Money.{Money}
use digital_wallet.Exec.{Result, ok}
use digital_wallet.Exec.Ensures.{
  Ensures, Keeps, Ensures-or_else, Ensures-bind, Ensures-wrap, Ensures-pure, Keeps-bind, Keeps-wrap,
  Keeps-pure,
}
use digital_wallet.External.Uuids.{Uuid, UuidLaws}
use digital_wallet.External.Table.{TableLaws, KeyLaws}
use digital_wallet.External.Provider.{RefundLaws}
use digital_wallet.Repository.Types.{
  TransactionStatus, refunding, refunded, TransactionIntent, IntentRow,
}
use digital_wallet.Repository.Errors.{wrap_gorm_error}
use digital_wallet.Repository.Intents.{
  set_status, move_row, mark_intent_refunding, failed_or_refunding,
}
use digital_wallet.Repository.Queries.{
  affected_row-Keeps, select_member, first_of_and, IsHead, affected_row-IsHead,
}
use digital_wallet.Queues.Services.{Services, World, on_intents, on_provider}

-- a deposit that is being paid back, or has been
abbrev pub is_back : TransactionStatus → Bool
is_back refunding = true
is_back refunded = true
is_back _ = false

-- A write of the status `to`, where `allowed`, takes no deposit out of `is_back`.
abbrev pub StaysBack : (TransactionStatus → Bool) → TransactionStatus → Type 0
StaysBack allowed to =
    (st : TransactionStatus) → allowed st ≡ true → is_back st ≡ true → is_back to ≡ true

module _ (S : Services) (il : TableLaws S.intents) (C : Uuid → Type 0) where
  -- the deposits with these ids are being paid back, or have been
  abbrev pub BackWhere : S.intents.State → Type 0
  BackWhere s = All (λ r. C r.id → is_back r.status ≡ true) (il.rows s)

  second_of_and : (a b : Bool) → (a && b) ≡ true → b ≡ true
  second_of_and true b h = h
  second_of_and false b h = cc

  update-BackWhere :
      (u : Uuid) (allowed : TransactionStatus → Bool) (to : TransactionStatus)
      → StaysBack allowed to
      → Keeps BackWhere (S.intents.update (λ r. r.id == u && allowed r.status) (set_status to))
  update-BackWhere u allowed to stays = record {
    at = λ s all. elim (il.rows-update (λ r. r.id == u && allowed r.status) (set_status to) s) [
      | inl same ↦ rw same all
      | inr changed ↦ rw changed (
          All-set_where (λ r. C r.id → is_back r.status ≡ true) (λ r. r.id == u && allowed r.status)
            (set_status to) (il.rows s)
            (λ r back match c.
              stays r.status (second_of_and (r.id == u) (allowed r.status) match) (back c))
            all)
    ];
  }

  pub move_row-BackWhere :
      (allowed : TransactionStatus → Bool) (to : TransactionStatus) (refusal : Error)
      (reference : String)
      → StaysBack allowed to
      → Keeps BackWhere (move_row S.uuids S.intents allowed to refusal reference)
  unfolding move_row
  move_row-BackWhere allowed to refusal reference stays =
      Ensures-or_else _ (S.uuids.parse reference) not_found
        (λ u e.
          Keeps-bind (Keeps-wrap wrap_gorm_error (update-BackWhere u allowed to stays))
            (λ moved. Keeps-bind (affected_row-Keeps refusal moved) (λ r. Keeps-pure _)))
        (λ s all. all)

refunding-StaysBack : StaysBack failed_or_refunding refunding
refunding-StaysBack st allowed back = refl

-- A deposit that was marked for its refund is being paid back.
module _ (S : Services) (il : TableLaws S.intents) (keys : KeyLaws il (λ r. r.id))
    (C : Uuid → Type 0) (reference : String) where
  abbrev pub Named : Uuid → Type 0
  Named i = S.uuids.parse reference ≡ some i

  abbrev Kept : S.intents.State → Type 0
  Kept = BackWhere S il C

  abbrev Marked : S.intents.State → Type 0
  Marked = BackWhere S il Named

  abbrev IsUpdated : Result (List IntentRow) → S.intents.State → Type 0
  IsUpdated r s = Kept s × ((z : IntentRow) (zs : List IntentRow) → r ≡ ok (z ∷ zs) → Marked s)

  update-IsUpdated :
      (u : Uuid)
      → S.uuids.parse reference ≡ some u
      → Ensures Kept
          (S.intents.update (λ r. r.id == u && failed_or_refunding r.status) (set_status refunding))
          IsUpdated
  update-IsUpdated u parsed = record {
    at = λ s h.
        let p : IntentRow → Bool = λ r. r.id == u && failed_or_refunding r.status in
        let f : IntentRow → IntentRow = set_status refunding in
        let kept =
          (update-BackWhere S il C u failed_or_refunding refunding refunding-StaysBack).at s h in
        (
          kept,
          λ z zs e.
              let (returned, changed) = il.update_returns p f s (z ∷ zs) e in
              let (row, fits, member) = select_member p f (il.rows s) (sym returned) in
              let id =
                (==_iff row.id u).0
                  (first_of_and (row.id == u) (failed_or_refunding row.status) fits) in
              All-imp_mem (il.rows (S.intents.update p f s).1)
                (λ r at_row _ named.
                  subst (λ (y : IntentRow). is_back y.status ≡ true)
                    (keys.unique (S.intents.update p f s).1 (f row) r
                      (subst (Memᴰ (f row)) (sym changed) member) at_row
                      (id ∙ some_eq parsed named))
                    refl)
                kept,
        );
  }

  pub mark_refunding-Marked :
      Ensures Kept
        (mark_intent_refunding S.uuids S.intents reference)
        (λ r s. Kept s × ((y : TransactionIntent) → r ≡ ok y → Marked s))
  unfolding mark_intent_refunding
  mark_refunding-Marked =
      Ensures-or_else _ (S.uuids.parse reference) not_found
        (λ u parsed.
          Ensures-bind IsUpdated
            (Ensures-wrap wrap_gorm_error IsUpdated (update-IsUpdated u parsed) (λ zs s h. h)
              (λ e s h. (h.0, λ z zs bad. cc)))
            (λ moved.
              Ensures-bind (λ r s. IsUpdated (ok moved) s × IsHead moved r)
                (affected_row-IsHead intent_not_failed moved)
                (λ z.
                  Ensures-pure _ _ (λ s h.
                    (h.0.0, λ y e. let (zs, whole) = h.1 z refl in h.0.1 z zs (ap ok whole))))
                (λ e s h. (h.0.0, λ y bad. cc)))
            (λ e s h. (h.0, λ y bad. cc)))
        (λ s h. (h, λ y bad. cc))

module _ (S : Services) (ul : UuidLaws S.uuids) (il : TableLaws S.intents)
    (keys : KeyLaws il (λ r. r.id)) (rl : RefundLaws S.provider) where
  abbrev pub IsAsked : S.provider.State → Uuid → Type 0
  IsAsked s i = rl.asked_back s (S.uuids.to_string i) ≡ true

  -- Every deposit that the provider was asked to pay back is marked so.
  abbrev pub PaysBack : World S → Type 0
  PaysBack w = BackWhere S il (IsAsked w.provider) w.intents

  -- and the deposit of that reference is marked, too
  abbrev pub Ready : String → World S → Type 0
  Ready reference w =
      PaysBack w × BackWhere S il (Named S il keys (IsAsked w.provider) reference) w.intents

  pub on_refund-PaysBack :
      (reference : String) (amount : Money)
      → Ensures
          (Ready reference)
          (on_provider S (S.provider.refund reference amount))
          (λ _ w. PaysBack w)
  on_refund-PaysBack reference amount = record {
    at = λ w h.
        All-imp_mem {P = λ r. IsAsked w.provider r.id → is_back r.status ≡ true} (il.rows w.intents)
          (λ r at_row back asked. elim (Bool-cases (str_eq (S.uuids.to_string r.id) reference)) [
            | inl e ↦ All-get _ h.1 at_row (
                subst (λ t. S.uuids.parse t ≡ some r.id) ((eq_iff _ _).0 e)
                  (ul.parse-to_string r.id))
            | inr other ↦ back (
                sym (rl.refund_asks_only reference (S.uuids.to_string r.id) amount w.provider other)
                ∙ asked)
          ])
          h.0;
  }

  pub on_verify-PaysBack :
      (reference : String) → Keeps PaysBack (on_provider S (S.provider.verify reference))
  on_verify-PaysBack reference = record {
    at = λ w h.
        All-imp {P = λ r. IsAsked w.provider r.id → is_back r.status ≡ true} (il.rows w.intents)
          (λ r back asked. back (sym (rl.verify_asks_none reference _ w.provider) ∙ asked)) h;
  }

  pub on_move-PaysBack :
      (allowed : TransactionStatus → Bool) (to : TransactionStatus) (refusal : Error)
      (reference : String)
      → StaysBack allowed to
      → Keeps PaysBack (on_intents S (move_row S.uuids S.intents allowed to refusal reference))
  on_move-PaysBack allowed to refusal reference stays = record {
    at = λ w h.
        (move_row-BackWhere S il (IsAsked w.provider) allowed to refusal reference stays).at
          w.intents h;
  }

  pub on_refunding-Ready :
      (reference : String)
      → Ensures PaysBack
          (on_intents S (mark_intent_refunding S.uuids S.intents reference))
          (λ r w. PaysBack w × ((y : TransactionIntent) → r ≡ ok y → Ready reference w))
  on_refunding-Ready reference = record {
    at = λ w h.
        let (kept, marked) =
          (mark_refunding-Marked S il keys (IsAsked w.provider) reference).at w.intents h in
        (kept, λ y e. (kept, marked y e));
  }
