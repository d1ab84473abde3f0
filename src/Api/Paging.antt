-- ===== src/Api/Paging.antt =====
-- internal/api/services/transaction-history.go: order and size of a page of transactions.
use digital_wallet.Prelude.{
  ℕ, suc, ◌≤◌, String, ◌≡◌, subst, Bool, Option, none, some, List, [], ◌++◌, length, arith,
}
use digital_wallet.Prelude.Int.{ℤ, pos, negsuc}
use digital_wallet.Prelude.Sorting.{
  IsLatestFirst, length-take, sort_by-IsLatestFirst, take-IsLatestFirst, drop-IsLatestFirst,
}
use digital_wallet.Exec.{Result, ok}
use digital_wallet.Exec.Ensures.{Ensures, Ensures-pure, Ensures-bind}
use digital_wallet.Queues.Services.{Services, World}
use digital_wallet.Api.Payments.Types.{Transaction}
use digital_wallet.Api.History.{
  ActivityPageParam, TransactionList, clamp_limit, normalise, page_of, list_my_transactions,
}

-- newest first, no longer than the limit, which is between 1 and 100 and at most what was asked for
pub record IsPage (page : ActivityPageParam) (l : TransactionList) : Type 0 where
  pub latest_first : IsLatestFirst (λ (t : Transaction). t.created_at) l.transactions
  pub fits : length l.transactions ≤ l.limit
  pub positive : 1 ≤ l.limit
  pub bounded : l.limit ≤ 100
  pub asked : (n : ℕ) → page.limit ≡ some (pos (suc n)) → l.limit ≤ suc n

clamp-bounds : (limit : Option ℤ) → (1 ≤ clamp_limit limit) × (clamp_limit limit ≤ 100)
clamp-bounds none = (omega arith, omega arith)
clamp-bounds (some (negsuc n)) = (omega arith, omega arith)
clamp-bounds (some (pos n)) = ground arith

clamp-asked : (limit : Option ℤ) (n : ℕ) → limit ≡ some (pos (suc n)) → clamp_limit limit ≤ suc n
clamp-asked limit n asked = rw asked (small (suc n) (omega arith))
  where
    small : (m : ℕ) → 1 ≤ m → clamp_limit (some (pos m)) ≤ m
    small m h = ground arith

page_of-IsPage :
    (page : ActivityPageParam) (merged : List Transaction)
    → IsPage page (page_of (normalise page).0 (normalise page).1 merged)
unfolding normalise
page_of-IsPage page merged = record {
  latest_first =
      take-IsLatestFirst (λ (t : Transaction). t.created_at) (normalise page).0 _
        (drop-IsLatestFirst (λ (t : Transaction). t.created_at) (normalise page).1 _
          (sort_by-IsLatestFirst (λ (t : Transaction). t.created_at) merged [] tt));
  fits = length-take (normalise page).0 _;
  positive = (clamp-bounds page.limit).0;
  bounded = (clamp-bounds page.limit).1;
  asked = clamp-asked page.limit;
}

module _ (S : Services) (has_ledger : Bool) (caller : Option String)
    (page : ActivityPageParam) where
  abbrev Answers : Result TransactionList → World S → Type 0
  Answers r w = (l : TransactionList) → r ≡ ok l → IsPage page l

  list-Answers : Ensures (λ w. Unit {0}) (list_my_transactions S has_ledger caller page) Answers
  unfolding list_my_transactions
  list-Answers =
      Ensures-bind (λ r w. Unit {0}) (record { at = λ w h. tt })
        (λ user_id.
          Ensures-bind (λ r w. Unit {0}) (record { at = λ w h. tt })
            (λ settled.
              Ensures-bind (λ r w. Unit {0}) (record { at = λ w h. tt })
                (λ unsettled. Ensures-pure Answers _ (λ w h l e.
                  subst (IsPage page) (ok-same e) (page_of-IsPage page (settled ++ unsettled))))
                (λ e w h l bad. cc))
            (λ e w h l bad. cc))
        (λ e w h l bad. cc)
    where
      ok-same : {a b : TransactionList} → ok a ≡ ok b → a ≡ b
      ok-same p = cc

  -- A page of transactions is newest first across settled and unsettled ones and no longer than its limit,
  -- which is from 1 to 100 and never above a positive limit that was asked for.
  pub list_my_transactions-IsPage :
      (w : World S) (l : TransactionList)
      → (list_my_transactions S has_ledger caller page w).0 ≡ ok l
      → IsPage page l
  list_my_transactions-IsPage w l answered = list-Answers.at w tt l answered
