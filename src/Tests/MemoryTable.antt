-- ===== src/Tests/MemoryTable.antt =====
-- A table kept in memory, with a primary key that a write may not repeat.
use digital_wallet.Prelude.{
  ℕ, ◌≡◌, ◌≢◌, refl, sym, subst, ap, ◌∙◌, inl, inr, ◌⊎◌, Bool, true, false, not, ◌&&◌, Option, none,
  some, List, [], ◌∷◌, ◌++◌, map, Memᴰ, arith, ◌==◌, ==_iff, Bool-cases, some_eq, if◌then◌else◌,
  select, set_where, first_where, length, All,
}
use digital_wallet.Shared.{Error, record_not_found, not_found, transfer_not_pending, duplicated_key}
use digital_wallet.Repository.Insertion.{InsertLaws}
use digital_wallet.Exec.{Result, ok, err}
use digital_wallet.External.Table.{Table, TableLaws, KeyLaws}

and_right : (a b : Bool) → (a && b) ≡ true → b ≡ true
and_right true b h = h
and_right false b h = cc

pub ok_number : {a b : ℕ} → ok a ≡ ok b → a ≡ b
ok_number p = cc

pub ok_rows : {A : Type 0} {a b : List A} → ok a ≡ ok b → a ≡ b
ok_rows p = cc

module _ {Row : Type 0} (key : Row → ℕ) where
  abbrev has_key : ℕ → List Row → Bool
  has_key k [] = false
  has_key k (r ∷ rs) = if key r == k then true else has_key k rs

  abbrev distinct : List Row → Bool
  distinct [] = true
  distinct (r ∷ rs) = not (has_key (key r) rs) && distinct rs

  abbrev Rows : Type 0
  Rows = (rs : List Row) × (distinct rs ≡ true)

  -- a write that the key allows, or else an error
  abbrev commit_if :
      {A : Type 0} → A → (rs : List Row) → Rows → (b : Bool) → distinct rs ≡ b → Result A × Rows
  commit_if a rs s true e = (ok a, (rs, e))
  commit_if a rs s false e = (err duplicated_key, s)

  abbrev commit : {A : Type 0} → A → List Row → Rows → Result A × Rows
  commit a rs s = commit_if a rs s (distinct rs) refl

  abbrev found : Option Row → Rows → Result Row × Rows
  found none s = (err record_not_found, s)
  found (some r) s = (ok r, s)

  abbrev pub memory_table : Table Row
  memory_table = record {
    State = Rows;
    first = λ p s. found (first_where p s.0) s;
    find = λ p order limit offset s. (ok (select p s.0), s);
    count = λ p s. (ok (length (select p s.0)), s);
    create = λ r s. commit r (s.0 ++ r ∷ []) s;
    update = λ p f s. commit (map f (select p s.0)) (set_where p f s.0) s;
  }

  pub commit_if_rows :
      {A : Type 0} (a : A) (rs : List Row) (s : Rows) (b : Bool) (e : distinct rs ≡ b)
      → ((commit_if a rs s b e).1.0 ≡ s.0) ⊎ ((commit_if a rs s b e).1.0 ≡ rs)
  commit_if_rows a rs s true e = inr refl
  commit_if_rows a rs s false e = inl refl

  pub commit_if_ok :
      {A : Type 0} (a a' : A) (rs : List Row) (s : Rows) (b : Bool) (e : distinct rs ≡ b)
      → (commit_if a rs s b e).0 ≡ ok a'
      → (a' ≡ a) × ((commit_if a rs s b e).1.0 ≡ rs)
  commit_if_ok a a' rs s true e h = (cc, refl)
  commit_if_ok a a' rs s false e h = cc

  pub commit_if_foreign :
      {A : Type 0} (a : A) (rs : List Row) (s : Rows) (b : Bool) (e : distinct rs ≡ b)
      → (commit_if a rs s b e).0 ≢ err transfer_not_pending
  commit_if_foreign a rs s true e h = cc
  commit_if_foreign a rs s false e h = cc

  pub found_rows : (o : Option Row) (s : Rows) → (found o s).1.0 ≡ s.0
  found_rows none s = refl
  found_rows (some r) s = refl

  pub found_ok : (o : Option Row) (s : Rows) (r : Row) → (found o s).0 ≡ ok r → o ≡ some r
  found_ok none s r h = cc
  found_ok (some r') s r h = cc

  pub found_err : (o : Option Row) (s : Rows) → (found o s).0 ≡ err record_not_found → o ≡ none
  found_err none s h = refl
  found_err (some r') s h = cc

  pub found_foreign : (o : Option Row) (s : Rows) → (found o s).0 ≢ err not_found
  found_foreign none s h = cc
  found_foreign (some r) s h = cc

  pub first_fits :
      (p : Row → Bool) (rs : List Row) (r : Row)
      → first_where p rs ≡ some r
      → (p r ≡ true) × Memᴰ r rs
  first_fits p [] r h = cc
  first_fits p (x ∷ rs) r h = elim (Bool-cases (p x)) [
    | inl e ↦
        let same : some x ≡ some r = rw e at h in
        (subst (λ (y : Row). p y ≡ true) (some_eq refl same) e, Memᴰ.head (some_eq same refl))
    | inr e ↦ let (fits, member) = first_fits p rs r (rw e at h) in (fits, Memᴰ.tail member)
  ]

  pub first_none :
      (p : Row → Bool) (rs : List Row) → first_where p rs ≡ none → All (λ r. p r ≡ false) rs
  first_none p [] h = tt
  first_none p (x ∷ rs) h = elim (Bool-cases (p x)) [
    | inl e ↦ (let bad : some x ≡ none = rw e at h in cc)
    | inr e ↦ (e, first_none p rs (rw e at h))
  ]

  pub All-select :
      (p : Row → Bool) (rs whole : List Row)
      → ((r : Row) → Memᴰ r rs → Memᴰ r whole)
      → All (λ r. (p r ≡ true) × Memᴰ r whole) (select p rs)
  All-select p [] whole into = tt
  All-select p (x ∷ rs) whole into = elim (Bool-cases (p x)) [
    | inl e ↦
        rw e ((e, into x (Memᴰ.head refl)), All-select p rs whole (λ r m. into r (Memᴰ.tail m)))
    | inr e ↦ rw e (All-select p rs whole (λ r m. into r (Memᴰ.tail m)))
  ]

  pub select_fits :
      (p : Row → Bool) (rs found : List Row)
      → ok (select p rs) ≡ ok found
      → All (λ r. (p r ≡ true) × Memᴰ r rs) found
  select_fits p rs found h =
      subst (All (λ r. (p r ≡ true) × Memᴰ r rs)) (ok_rows h) (All-select p rs rs (λ r m. m))

  abbrev pub memory_laws : TableLaws memory_table
  memory_laws = record {
    rows = λ s. s.0;
    rows-first = λ p s. found_rows (first_where p s.0) s;
    first_matches = λ p s r h. first_fits p s.0 r (found_ok (first_where p s.0) s r h);
    first_misses = λ p s h. first_none p s.0 (found_err (first_where p s.0) s h);
    first_foreign = λ p s. found_foreign (first_where p s.0) s;
    rows-find = λ p order limit offset s. refl;
    find_matches = λ p order limit offset s rs h. select_fits p s.0 rs h;
    rows-count = λ p s. refl;
    count_counts = λ p s n h. sym (ok_number h);
    rows-update = λ p f s. commit_if_rows (map f (select p s.0)) (set_where p f s.0) s _ refl;
    update_returns =
        λ p f s rs h. commit_if_ok (map f (select p s.0)) rs (set_where p f s.0) s _ refl h;
    update_foreign = λ p f s. commit_if_foreign (map f (select p s.0)) (set_where p f s.0) s _ refl;
    rows-create = λ r s. commit_if_rows r (s.0 ++ r ∷ []) s _ refl;
  }

  has_key_of : (k : ℕ) (rs : List Row) (r : Row) → Memᴰ r rs → key r ≡ k → has_key k rs ≡ true
  has_key_of k [] r m same = elim m [ ]
  has_key_of k (x ∷ rs) r (Memᴰ.head e) same =
      let fits = (==_iff (key x) k).1 (ap key (sym e) ∙ same) in rw fits refl
  has_key_of k (x ∷ rs) r (Memᴰ.tail m) same = let rest = has_key_of k rs r m same in ground arith

  absent :
      (k : ℕ) (rs : List Row) (more : Bool)
      → (not (has_key k rs) && more) ≡ true
      → has_key k rs ≡ false
  absent k rs more h = elim (Bool-cases (has_key k rs)) [ inl e ↦ ground arith | inr e ↦ e ]

  distinct_unique :
      (rs : List Row) (r r' : Row)
      → distinct rs ≡ true
      → Memᴰ r rs
      → Memᴰ r' rs
      → key r ≡ key r'
      → r ≡ r'
  distinct_unique [] r r' d m m' same = elim m [ ]
  distinct_unique (x ∷ rs) r r' d (Memᴰ.head e) (Memᴰ.head e') same = e ∙ sym e'
  distinct_unique (x ∷ rs) r r' d (Memᴰ.head e) (Memᴰ.tail m') same =
      let there = has_key_of (key x) rs r' m' (sym same ∙ ap key e) in
      let missing = absent (key x) rs (distinct rs) d in cc
  distinct_unique (x ∷ rs) r r' d (Memᴰ.tail m) (Memᴰ.head e') same =
      let there = has_key_of (key x) rs r m (same ∙ ap key e') in
      let missing = absent (key x) rs (distinct rs) d in cc
  distinct_unique (x ∷ rs) r r' d (Memᴰ.tail m) (Memᴰ.tail m') same =
      distinct_unique rs r r' (and_right (not (has_key (key x) rs)) (distinct rs) d) m m' same

  pub memory_key : KeyLaws memory_laws key
  memory_key = record { unique = λ s r r' m m' same. distinct_unique s.0 r r' s.1 m m' same }

  pub commit_if_err :
      {A : Type 0} (a : A) (rs : List Row) (s : Rows) (b : Bool) (e : distinct rs ≡ b) (x : Error)
      → (commit_if a rs s b e).0 ≡ err x
      → (commit_if a rs s b e).1.0 ≡ s.0
  commit_if_err a rs s true e x h = cc
  commit_if_err a rs s false e x h = refl

  abbrev pub memory_insert : InsertLaws memory_table
  memory_insert = record {
    table = memory_laws;
    insert_adds = λ r r' s h. commit_if_ok r r' (s.0 ++ r ∷ []) s _ refl h;
    insert_duplicate = λ r e s h taken. commit_if_err r (s.0 ++ r ∷ []) s _ refl e h;
  }
