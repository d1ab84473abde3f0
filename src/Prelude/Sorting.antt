-- ===== src/Prelude/Sorting.antt =====
-- `sort.SliceStable` with the latest first, and a page of a list.
use digital_wallet.Prelude.{
  ℕ, zero, suc, ◌≤◌, ◌≡◌, inl, inr, true, false, List, [], ◌∷◌, ltb, All, Bool-cases, if◌then◌else◌,
  arith, length,
}

module _ {A : Type 0} where
  abbrev pub take : ℕ → List A → List A
  take zero xs = []
  take (suc n) [] = []
  take (suc n) (x ∷ xs) = x ∷ take n xs

  abbrev pub drop : ℕ → List A → List A
  drop zero xs = xs
  drop (suc n) [] = []
  drop (suc n) (x ∷ xs) = drop n xs

  pub length-take : (n : ℕ) (xs : List A) → length (take n xs) ≤ n
  length-take zero xs = omega arith
  length-take (suc n) [] = omega arith
  length-take (suc n) (x ∷ xs) = let h = length-take n xs in omega arith

  take-All : (P : A → Type 0) (n : ℕ) (xs : List A) → All P xs → All P (take n xs)
  take-All P zero xs h = tt
  take-All P (suc n) [] h = tt
  take-All P (suc n) (x ∷ xs) h = (h.0, take-All P n xs h.1)

module _ {A : Type 0} (key : A → ℕ) where
  -- An element goes behind the equally late ones that came before it.
  abbrev pub insert_by : A → List A → List A
  insert_by x [] = x ∷ []
  insert_by x (y ∷ ys) =
      let later = insert_by x ys in if ltb (key y) (key x) then x ∷ y ∷ ys else y ∷ later

  abbrev pub sort_by : List A → List A → List A
  sort_by [] sorted = sorted
  sort_by (x ∷ xs) sorted = sort_by xs (insert_by x sorted)

  abbrev pub IsLatestFirst : List A → Type 0
  IsLatestFirst [] = Unit
  IsLatestFirst (x ∷ xs) = All (λ y. key y ≤ key x) xs × IsLatestFirst xs

  insert_by-All : (P : A → Type 0) (x : A) (ys : List A) → P x → All P ys → All P (insert_by x ys)
  insert_by-All P x [] h all = (h, tt)
  insert_by-All P x (y ∷ ys) h all = elim (Bool-cases (ltb (key y) (key x))) [
    | inl e ↦ rw e (h, all)
    | inr e ↦ rw e (all.0, insert_by-All P x ys h all.1)
  ]

  at_most_trans :
      (a b : ℕ) (ys : List A) → a ≤ b → All (λ y. key y ≤ a) ys → All (λ y. key y ≤ b) ys
  at_most_trans a b [] h all = tt
  at_most_trans a b (y ∷ ys) h all = (omega arith, at_most_trans a b ys h all.1)

  insert_by-IsLatestFirst :
      (x : A) (ys : List A) → IsLatestFirst ys → IsLatestFirst (insert_by x ys)
  insert_by-IsLatestFirst x [] h = (tt, tt)
  insert_by-IsLatestFirst x (y ∷ ys) h = elim (Bool-cases (ltb (key y) (key x))) [
    | inl e ↦ rw e (
      (later (key y) (key x) e, at_most_trans (key y) (key x) ys (later (key y) (key x) e) h.0),
      h,
    )
    | inr e ↦ rw e (
      insert_by-All (λ k. key k ≤ key y) x ys (not_later (key y) (key x) e) h.0,
      insert_by-IsLatestFirst x ys h.1,
    )
  ]
    where
      later : (a b : ℕ) → ltb a b ≡ true → a ≤ b
      later a b e = ground arith

      not_later : (a b : ℕ) → ltb a b ≡ false → b ≤ a
      not_later a b e = ground arith

  pub sort_by-IsLatestFirst :
      (xs sorted : List A) → IsLatestFirst sorted → IsLatestFirst (sort_by xs sorted)
  sort_by-IsLatestFirst [] sorted h = h
  sort_by-IsLatestFirst (x ∷ xs) sorted h =
      sort_by-IsLatestFirst xs (insert_by x sorted) (insert_by-IsLatestFirst x sorted h)

  pub sort_by-All :
      (P : A → Type 0) (xs sorted : List A) → All P xs → All P sorted → All P (sort_by xs sorted)
  sort_by-All P [] sorted h all = all
  sort_by-All P (x ∷ xs) sorted h all =
      sort_by-All P xs (insert_by x sorted) h.1 (insert_by-All P x sorted h.0 all)

  pub take-IsLatestFirst : (n : ℕ) (xs : List A) → IsLatestFirst xs → IsLatestFirst (take n xs)
  take-IsLatestFirst zero xs h = tt
  take-IsLatestFirst (suc n) [] h = tt
  take-IsLatestFirst (suc n) (x ∷ xs) h =
      (take-All (λ y. key y ≤ key x) n xs h.0, take-IsLatestFirst n xs h.1)

  pub drop-IsLatestFirst : (n : ℕ) (xs : List A) → IsLatestFirst xs → IsLatestFirst (drop n xs)
  drop-IsLatestFirst zero xs h = h
  drop-IsLatestFirst (suc n) [] h = tt
  drop-IsLatestFirst (suc n) (x ∷ xs) h = drop-IsLatestFirst n xs h.1
