-- ===== src/Api/Accounts/Ownership.antt =====
-- internal/api/services/user-service.go, `UpdateUser` and `DeleteUser`: whose account may change.
use digital_wallet.Prelude.{
  String, ◌≡◌, ◌≢◌, refl, sym, ap, ◌∙◌, ◌⊎◌, inl, inr, false, not, some, List, [], ◌∷◌, Memᴰ, All,
  set_where, str_eq, eq_iff, ◌==◌, ==_iff, Bool-cases, arith,
}
use digital_wallet.Exec.{Result, ok}
use digital_wallet.Exec.Ensures.{
  Ensures, Ensures-pure, Ensures-raise, Ensures-bind, Ensures-wrap, Ensures-if,
}
use digital_wallet.External.Uuids.{Uuid, UuidLaws}
use digital_wallet.External.Table.{TableLaws}
use digital_wallet.Repository.Types.{UserRow, User}
use digital_wallet.Repository.Users.{map_user, get_user_by_id}
use digital_wallet.Repository.Users as Users
use digital_wallet.Repository.Queries.{read-Keeps, read-Found}
use digital_wallet.Repository.Closed.{Memᴰ-set_where}
use digital_wallet.Repository.Changes.{delete_user-Deletes, update_user-Updates}
use digital_wallet.Queues.Services.{Services, World}
use digital_wallet.Api.Accounts.Types.{Profile, UpdateUserParam}
use digital_wallet.Api.Accounts.Login.{ok-eq}
use digital_wallet.Api.Accounts.Owners.{
  update_failure, delete_failure, validat_owner, columns_of, update_user, delete_user,
}

pub same_id : (a b : String) → not (str_eq a b) ≡ false → a ≡ b
same_id a b h = ground (arith, eq_iff a b)

module _ (S : Services) (ids : UuidLaws S.uuids) (laws : TableLaws S.users)
    (base : List UserRow) where
  abbrev pub From : World S → Type 0
  From w = laws.rows w.users ≡ base

  -- the caller's own account, by the id that it is printed with
  abbrev pub Owner : String → String → Profile → Type 0
  Owner id caller owner = (id ≡ caller) × (S.uuids.parse id ≡ S.uuids.parse owner.id)

  abbrev pub Owned : String → String → Result Profile → World S → Type 0
  Owned id caller r w = From w × ((owner : Profile) → r ≡ ok owner → Owner id caller owner)

  pub validat_owner-Owned :
      (id caller : String) → Ensures From (validat_owner S id caller) (Owned id caller)
  unfolding validat_owner get_user_by_id map_user
  validat_owner-Owned id caller =
      Ensures-if (not (str_eq id caller)) (λ _. Ensures-raise _ _ (λ w h. (h, λ owner bad. cc)))
        (λ mine.
          Ensures-bind Read
            (Ensures-wrap _ Read
              (record {
                at = λ w h. (
                  (read-Keeps S.uuids laws (λ u r. r.id == u) (map_user S.uuids) id
                        (λ rows. rows ≡ base)).at
                      w.users h,
                  λ x e.
                      let (u, row, parsed, same, member, view) =
                        (read-Found S.uuids laws (λ u r. r.id == u) (map_user S.uuids) id base).at
                          w.users h x e in
                      parsed
                      ∙ ap some (sym ((==_iff row.id u).0 same))
                      ∙ sym (ids.parse-to_string row.id)
                      ∙ ap (λ (z : User). S.uuids.parse z.id) (sym view),
                );
              })
              (λ x w h. h) (λ e w h. (h.0, λ x bad. cc)))
            (λ x. Ensures-pure _ _ (λ w h. (
              h.0,
              λ owner e. (
                same_id id caller mine,
                h.1 x refl ∙ ap (λ (z : Profile). S.uuids.parse z.id) (ok-eq e),
              ),
            )))
            (λ e w h. (h.0, λ owner bad. cc)))
    where
      Read : Result User → World S → Type 0
      Read r w = From w × ((x : User) → r ≡ ok x → S.uuids.parse id ≡ S.uuids.parse x.id)

  -- what a request of the caller's leaves: the rows as they were, or only the caller's changed
  abbrev pub OwnOnly : String → List UserRow → Type 0
  OwnOnly caller rows =
      (rows ≡ base)
      ⊎ ((u : Uuid) × (f : UserRow → UserRow) × (S.uuids.parse caller ≡ some u)
          × (rows ≡ set_where (λ r. r.id == u) f base))

  pub delete_user-OwnOnly :
      (caller id : String)
      → Ensures From (delete_user S caller id) (λ r w. OwnOnly caller (laws.rows w.users))
  unfolding delete_user
  delete_user-OwnOnly caller id =
      Ensures-bind _ (validat_owner-Owned id caller)
        (λ owner.
          Ensures-wrap delete_failure (λ r w. OwnOnly caller (laws.rows w.users))
            (record {
              at = λ w h.
                  let (mine, printed) = h.1 owner refl in
                  elim ((delete_user-Deletes S.uuids laws base owner.id).at w.users h.0).0 [
                    | inl same ↦ inl same
                    | inr (model, member, parsed, changed) ↦ inr (
                      model.id,
                      (λ r. record model { is_active = false }),
                      ap S.uuids.parse (sym mine) ∙ printed ∙ parsed,
                      changed,
                    )
                  ];
            })
            (λ u w h. h) (λ e w h. h))
        (λ e w h. inl h.0)

  pub update_user-OwnOnly :
      (caller id : String) (input : UpdateUserParam)
      → Ensures From (update_user S caller id input) (λ r w. OwnOnly caller (laws.rows w.users))
  unfolding update_user Users.update_user Users.apply_fields
  update_user-OwnOnly caller id input =
      Ensures-bind _ (validat_owner-Owned id caller)
        (λ owner.
          let Own = λ (r : Result User) (w : World S). OwnOnly caller (laws.rows w.users) in
          Ensures-bind Own
            (Ensures-wrap update_failure Own
              (record {
                at = λ w h.
                    let (mine, printed) = h.1 owner refl in
                    elim ((update_user-Updates S.uuids laws base (columns_of S owner.id input)
                        owner.id).at
                      w.users h.0).0 [
                        | inl same ↦ inl same
                        | inr (u, parsed, changed) ↦ inr (
                          u,
                          Users.apply_fields (columns_of S owner.id input),
                          ap S.uuids.parse (sym mine) ∙ printed ∙ parsed,
                          changed,
                        )
                      ];
              })
              (λ u w h. h) (λ e w h. h))
            (λ user. Ensures-pure _ _ (λ w h. h)) (λ e w h. h))
        (λ e w h. inl h.0)

-- a request that changes an account
pub data AccountOp : Type 0 where
  update : UpdateUserParam → AccountOp
  delete : AccountOp

-- by whom, and of which account
pub record AccountRequest : Type 0 where
  pub caller : String
  pub id : String
  pub op : AccountOp

module _ (S : Services) where
  abbrev run_op : String → String → AccountOp → World S → World S
  run_op caller id (update input) w = (update_user S caller id input w).1
  run_op caller id delete w = (delete_user S caller id w).1

  unfoldable pub run_requests : List AccountRequest → World S → World S
  run_requests [] w = w
  run_requests (q ∷ qs) w = run_requests qs (run_op q.caller q.id q.op w)

module _ (S : Services) (ids : UuidLaws S.uuids) (laws : TableLaws S.users) (r : UserRow) where
  others_row :
      (base rows : List UserRow) (caller : String)
      → OwnOnly S ids laws base caller rows
      → S.uuids.parse caller ≢ some r.id
      → Memᴰ r base
      → Memᴰ r rows
  others_row base rows caller own other m = elim own [
    | inl same ↦ rw same m
    | inr (u, f, parsed, changed) ↦ rw changed (
        Memᴰ-set_where (λ x. x.id == u) f base r
          (elim (Bool-cases (r.id == u)) [
            | inl e ↦ absurd (other (parsed ∙ ap some (sym ((==_iff r.id u).0 e))))
            | inr e ↦ e
          ])
          m)
  ]

  run_op-Stays :
      (caller id : String) (op : AccountOp) (w : World S)
      → S.uuids.parse caller ≢ some r.id
      → Memᴰ r (laws.rows w.users)
      → Memᴰ r (laws.rows (run_op S caller id op w).users)
  run_op-Stays caller id (update input) w other m =
      others_row _ _ caller
        ((update_user-OwnOnly S ids laws (laws.rows w.users) caller id input).at w refl) other m
  run_op-Stays caller id delete w other m =
      others_row _ _ caller
        ((delete_user-OwnOnly S ids laws (laws.rows w.users) caller id).at w refl) other m

  -- Whatever accounts others ask to update or delete, and whatever fails, an account stays as it is in
  -- every column while none of the requests is its owner's.
  pub others_stay :
      (requests : List AccountRequest) (w : World S)
      → All (λ q. S.uuids.parse q.caller ≢ some r.id) requests
      → Memᴰ r (laws.rows w.users)
      → Memᴰ r (laws.rows (run_requests S requests w).users)
  unfolding run_requests
  others_stay [] w others m = m
  others_stay (q ∷ qs) w others m =
      others_stay qs _ others.1 (run_op-Stays q.caller q.id q.op w others.0 m)
