-- ===== src/Tests/Memory.antt =====
-- Identifiers, the ledger and the queue, kept in memory.
use digital_wallet.Prelude.{
  ℕ, zero, suc, String, ◌≡◌, ◌≢◌, refl, ap, ◌∙◌, inl, inr, Bool, true, false, not, ◌||◌, ◌&&◌, sym,
  subst, ==_iff, All, Option, none, some, List, [], ◌∷◌, map, arith, ◌==◌, Bool-cases, select,
  is_empty,
}
use digital_wallet.Prelude.{if◌then◌else◌}
use digital_wallet.Exec.{ok}
use digital_wallet.External.Uuids.{Uuid, Uuids, UuidLaws}
use digital_wallet.External.TigerBeetle.{
  TigerBeetle, TigerBeetleLaws, Posting, TransferStatus, transfer_created, transfer_exists,
  account_created, transfer_refused, EntryLaws, IsSettled, IsEntryOf,
}
use digital_wallet.External.Broker.{Broker}
use digital_wallet.Queues.Tasks.{Task}

-- An identifier is printed as that many characters.
abbrev pub print_uuid : Uuid → String
print_uuid zero = String.[]
print_uuid (suc n) = String.◌∷◌ "u" (print_uuid n)

abbrev next : Option Uuid → Option Uuid
next none = none
next (some n) = some (suc n)

abbrev read_uuid : String → Option Uuid
read_uuid String.[] = some 0
read_uuid (String.◌∷◌ c s) = next (read_uuid s)

abbrev pub memory_uuids : Uuids
memory_uuids = record { parse = read_uuid; to_string = print_uuid }

read-print : (u : Uuid) → read_uuid (print_uuid u) ≡ some u
read-print zero = refl
read-print (suc n) = ap next (read-print n)

pub memory-UuidLaws : UuidLaws memory_uuids
memory-UuidLaws = record { parse-to_string = read-print }

-- whether there is a posting with that id
abbrev is_posted : List Posting → ℕ → Bool
is_posted [] i = false
is_posted (t ∷ ts) i = t.id == i || is_posted ts i

abbrev entry_of : List Posting → ℕ → Option Posting
entry_of [] i = none
entry_of (t ∷ ts) i = if t.id == i then some t else entry_of ts i

-- whether the posting that is there has the same fields
abbrev has_fields : Posting → Option Posting → Bool
has_fields t none = false
has_fields t (some e) =
    e.debit_account_id == t.debit_account_id
    && (e.credit_account_id == t.credit_account_id
        && (e.amount == t.amount && (e.ledger == t.ledger && e.code == t.code)))

abbrev post_if : Posting → List Posting → Bool → TransferStatus × List Posting
post_if t s true =
    (if has_fields t (entry_of s t.id) then transfer_exists else transfer_refused 36, s)
post_if t s false = (transfer_created, t ∷ s)

abbrev post_all : List Posting → List Posting → List TransferStatus × List Posting
post_all [] s = ([], s)
post_all (t ∷ ts) s =
    let (st, s') = post_if t s (is_posted s t.id) in
    let (sts, s'') = post_all ts s' in (st ∷ sts, s'')

abbrev is_among : List ℕ → Posting → Bool
is_among [] t = false
is_among (i ∷ is) t = t.id == i || is_among is t

-- A ledger that keeps no balances: it posts whatever has a new id.
abbrev pub memory_ledger : TigerBeetle
memory_ledger = record {
  Store = List Posting;
  bytes_to_uint128 = λ u. u;
  to_uint128 = λ n. n;
  to_uuid = λ i. i;
  create_accounts = λ accounts s. (ok (map (λ _. account_created) accounts), s);
  create_transfers = λ ts s. let (sts, s') = post_all ts s in (ok sts, s');
  lookup_transfers = λ is s. (ok (select (is_among is) s), s);
  lookup_accounts = λ is s. (ok [], s);
  get_account_transfers = λ account limit s. (ok s, s);
}

pub post_if_stays :
    (t : Posting) (s : List Posting) (b : Bool) (i : ℕ)
    → is_posted s i ≡ true
    → is_posted (post_if t s b).1 i ≡ true
post_if_stays t s true i h = h
post_if_stays t s false i h = ground arith

pub post_if_only :
    (t : Posting) (s : List Posting) (b : Bool) (i : ℕ)
    → i ≢ t.id
    → is_posted (post_if t s b).1 i ≡ is_posted s i
post_if_only t s true i ne = refl
post_if_only t s false i ne = ground arith

pub post_if_posts :
    (t : Posting) (s : List Posting) (b : Bool)
    → is_posted s t.id ≡ b
    → is_posted (post_if t s b).1 t.id ≡ true
post_if_posts t s true e = e
post_if_posts t s false e = ground arith

pub is_posted-select :
    (i : ℕ) (s : List Posting) → is_posted s i ≡ not (is_empty (select (is_among (i ∷ [])) s))
is_posted-select i [] = refl
is_posted-select i (t ∷ s) = elim (Bool-cases (t.id == i)) [
  | inl e ↦ rw e refl
  | inr e ↦ rw e (is_posted-select i s)
]

pub ok_list : {A : Type 0} {a b : List A} → ok a ≡ ok b → a ≡ b
ok_list p = cc

abbrev pub memory_ledger_laws : TigerBeetleLaws memory_ledger
memory_ledger_laws = record {
  bytes_injective = λ u v e. e;
  posted = is_posted;
  posted-create_accounts = λ accounts s i. refl;
  posted-lookup_transfers = λ is s i. refl;
  posted_stays = λ t s i h. post_if_stays t s (is_posted s t.id) i h;
  posted_only = λ t s i ne. post_if_only t s (is_posted s t.id) i ne;
  settled_posts = λ t s sts h all. post_if_posts t s (is_posted s t.id) refl;
  lookup_finds = λ i s ts h. is_posted-select i s ∙ ap (λ l. not (is_empty l)) (ok_list h);
}

refused-IsSettled : (n : ℕ) → IsSettled (transfer_refused n) → ⊥
refused-IsSettled n (inl e) = cc
refused-IsSettled n (inr e) = cc

has_fields-IsEntryOf : (t : Posting) (o : Option Posting) → has_fields t o ≡ true → IsEntryOf t o
has_fields-IsEntryOf t none h = cc
has_fields-IsEntryOf t (some e) h =
    (e, refl, ground arith, ground arith, ground arith, ground arith, ground arith)

answer-IsEntryOf :
    (t : Posting) (o : Option Posting) (b : Bool)
    → has_fields t o ≡ b
    → IsSettled (if b then transfer_exists else transfer_refused 36)
    → IsEntryOf t o
answer-IsEntryOf t o true e h = has_fields-IsEntryOf t o e
answer-IsEntryOf t o false e h = absurd (refused-IsSettled 36 h)

entry_of-new : (t : Posting) (s : List Posting) → entry_of (t ∷ s) t.id ≡ some t
entry_of-new t s = rw ((==_iff t.id t.id).1 refl) refl

pub post_if-IsEntryOf :
    (t : Posting) (s : List Posting) (b : Bool)
    → IsSettled (post_if t s b).0
    → IsEntryOf t (entry_of (post_if t s b).1 t.id)
post_if-IsEntryOf t s true h = answer-IsEntryOf t (entry_of s t.id) _ refl h
post_if-IsEntryOf t s false h = (t, entry_of-new t s, refl, refl, refl, refl, refl)

pub post_if-entry_of :
    (t : Posting) (s : List Posting) (b : Bool) (i : ℕ)
    → i ≢ t.id
    → entry_of (post_if t s b).1 i ≡ entry_of s i
post_if-entry_of t s true i ne = refl
post_if-entry_of t s false i ne = elim (Bool-cases (t.id == i)) [
  | inl e ↦ absurd (ne (sym ((==_iff t.id i).0 e)))
  | inr e ↦ rw e refl
]

abbrev pub memory_entry_laws : EntryLaws memory_ledger
memory_entry_laws = record {
  entry = entry_of;
  entry-create_accounts = λ accounts s i. refl;
  entry_only = λ t s i ne. post_if-entry_of t s (is_posted s t.id) i ne;
  entry_settled = λ t s sts h all.
      post_if-IsEntryOf t s (is_posted s t.id) (subst (All IsSettled) (sym (ok_list h)) all).0;
}

-- A queue that keeps its tasks.
abbrev pub memory_broker : Broker Task
memory_broker = record {
  State = List Task;
  enqueue = λ task s. (ok tt, task ∷ s);
  delete_task = λ queue id s. (ok tt, s);
}
