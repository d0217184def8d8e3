-- ===== src/Table/Laws.antt =====
-- How queries and counts read a table after a row was written back or inserted.
use mad_devs_transport_shari.Prelude.{
  ℕ, ◌+◌, ◌≤◌, ◌≡◌, refl, Bool, true, Option, none, some, List, [], ◌∷◌, ◌++◌, ◌==◌, ◌≢◌, ==_refl,
  All, bit, if◌then◌else◌, arith, Bool-cases, inl, inr, ==_iff, subst,
}
use mad_devs_transport_shari.Table.{scalar, count, get, put, IsKeyed}

-- The first of two answers.
abbrev pub or_if {ℓ} : {A : Type ℓ} → Option A → Option A → Option A
or_if none b = b
or_if (some a) b = some a

module _ {ℓ} {A : Type ℓ} (test : A → Bool) where
  pub scalar-holds : (xs : List A) (x : A) → scalar test xs ≡ some x → test x ≡ true
  unfolding scalar
  scalar-holds [] x h = cc
  scalar-holds (y ∷ ys) x h = ground (arith, scalar-holds ys x)

  pub count-scalar-none : (xs : List A) → scalar test xs ≡ none → count test xs ≡ 0
  unfolding scalar count
  count-scalar-none [] h = refl
  count-scalar-none (y ∷ ys) h = ground (arith, count-scalar-none ys)

  pub scalar-count_zero : (xs : List A) → count test xs ≡ 0 → scalar test xs ≡ none
  unfolding scalar count
  scalar-count_zero [] h = refl
  scalar-count_zero (y ∷ ys) h = ground (arith, scalar-count_zero ys)

  pub count-scalar-some : (xs : List A) (x : A) → scalar test xs ≡ some x → 1 ≤ count test xs
  unfolding scalar count
  count-scalar-some [] x h = cc
  count-scalar-some (y ∷ ys) x h = ground (arith, count-scalar-some ys x)

  pub scalar-count_pos : (xs : List A) → 1 ≤ count test xs → (x : A) × (scalar test xs ≡ some x)
  unfolding scalar count
  scalar-count_pos [] h = absurd (omega arith)
  scalar-count_pos (y ∷ ys) h = elim (Bool-cases (test y)) [
    | inl hit ↦ (y, ground arith)
    | inr miss ↦ let rest = scalar-count_pos ys (ground arith) in (rest.0, ground arith)
  ]

  pub scalar-insert :
      (xs : List A) (x : A)
      → scalar test (xs ++ x ∷ []) ≡ or_if (scalar test xs) (if test x then some x else none)
  unfolding scalar
  scalar-insert [] x = ground arith
  scalar-insert (y ∷ ys) x = ground (arith, scalar-insert ys x)

  pub count-insert :
      (xs : List A) (x : A) → count test (xs ++ x ∷ []) ≡ count test xs + bit (test x)
  unfolding count
  count-insert [] x = omega arith
  count-insert (y ∷ ys) x = omega (arith, count-insert ys x)

module _ {ℓ} {A : Type ℓ} (key : A → ℕ) where
  -- No row has the key: nothing is written.
  put-missing : (row : A) (xs : List A) → count (λ x. key x == key row) xs ≡ 0 → put key row xs ≡ xs
  unfolding count put
  put-missing row [] h = refl
  put-missing row (x ∷ xs) h = ground (arith, put-missing row xs)

  pub IsKeyed-tail : (x : A) (xs : List A) → IsKeyed key (x ∷ xs) → IsKeyed key xs
  unfolding count
  IsKeyed-tail x xs keyed i = omega (arith, keyed i)

  -- Writing a row back moves a count by what the old and the new row contribute.
  pub count-put :
      (test : A → Bool) (row old : A) (xs : List A)
      → IsKeyed key xs
      → get key (key row) xs ≡ some old
      → count test (put key row xs) + bit (test old) ≡ count test xs + bit (test row)
  unfolding scalar count put
  count-put test row old [] keyed h = cc
  count-put test row old (x ∷ xs) keyed h = elim (Bool-cases (key x == key row)) [
    | inl hit ↦ ground (arith, keyed (key row), put-missing row xs)
    | inr miss ↦ ground (arith, count-put test row old xs (IsKeyed-tail x xs keyed))
  ]

  -- A row written back keeps the keys.
  pub put-IsKeyed :
      (row old : A) (xs : List A)
      → IsKeyed key xs
      → get key (key row) xs ≡ some old
      → IsKeyed key (put key row xs)
  put-IsKeyed row old xs keyed h i =
      let same = (==_iff (key old) (key row)).0 (scalar-holds (λ x. key x == key row) xs old h) in
      ground (arith, keyed i, same, count-put (λ x. key x == i) row old xs keyed h)

  -- The row that was written back is read again, the others as before.
  pub get-put_self :
      (row old : A) (xs : List A)
      → get key (key row) xs ≡ some old
      → get key (key row) (put key row xs) ≡ some row
  unfolding scalar put
  get-put_self row old [] h = cc
  get-put_self row old (x ∷ xs) h = ground (arith, get-put_self row old xs)

  pub get-put_ne :
      (i : ℕ) (row : A) (xs : List A) → i ≢ key row → get key i (put key row xs) ≡ get key i xs
  unfolding scalar put
  get-put_ne i row [] h = refl
  get-put_ne i row (x ∷ xs) h = ground (arith, get-put_ne i row xs h)

  -- The row with a key is the only one: who counts it counts at most once.
  pub count-by_key :
      (test : A → Bool) (xs : List A) (x : A)
      → IsKeyed key xs
      → get key (key x) xs ≡ some x
      → test x ≡ true
      → 1 ≤ count test xs
  unfolding scalar count
  count-by_key test [] x keyed h t = cc
  count-by_key test (y ∷ ys) x keyed h t =
      ground (arith, count-by_key test ys x (IsKeyed-tail y ys keyed))

  -- Inserting a row under a fresh key keeps the keys.
  pub insert-IsKeyed :
      (xs : List A) (x : A)
      → IsKeyed key xs
      → count (λ y. key y == key x) xs ≡ 0
      → IsKeyed key (xs ++ x ∷ [])
  insert-IsKeyed xs x keyed fresh i = elim (Bool-cases (key x == i)) [
    | inl hit ↦
        let e = (==_iff (key x) i).0 hit in
        ground (
          arith,
          subst (λ j. count (λ y. key y == j) xs ≡ 0) e fresh,
          count-insert (λ y. key y == i) xs x,
        )
    | inr miss ↦ ground (arith, keyed i, count-insert (λ y. key y == i) xs x)
  ]

  -- What a query finds is found again by its key.
  pub get-scalar :
      (test : A → Bool) (xs : List A) (x : A)
      → IsKeyed key xs
      → scalar test xs ≡ some x
      → get key (key x) xs ≡ some x
  unfolding scalar count
  get-scalar test [] x keyed h = cc
  get-scalar test (y ∷ ys) x keyed h = elim (Bool-cases (test y)) [
    | inl hit ↦ ground (arith, ==_refl (key y))
    | inr miss ↦
        let rest = get-scalar test ys x (IsKeyed-tail y ys keyed) (ground arith) in
        ground (arith, rest, keyed (key x), count-scalar-some (λ z. key z == key x) ys x rest)
  ]

  -- The row with a key has that key.
  pub key-get : (i : ℕ) (xs : List A) (x : A) → get key i xs ≡ some x → key x ≡ i
  key-get i xs x h = (==_iff (key x) i).0 (scalar-holds (λ y. key y == i) xs x h)

  pub get_self : (i : ℕ) (xs : List A) (x : A) → get key i xs ≡ some x → get key (key x) xs ≡ some x
  get_self i xs x h = rw (key-get i xs x h) h

module _ {ℓ κ} {A : Type ℓ} (P : A → Type κ) where
  pub All-scalar :
      (test : A → Bool) (xs : List A) (x : A) → All P xs → scalar test xs ≡ some x → P x
  unfolding scalar
  All-scalar test [] x h e = cc
  All-scalar test (y ∷ ys) x (hy, h) e = elim (Bool-cases (test y)) [
    | inl hit ↦ let same : y ≡ x = ground arith in subst P same hy
    | inr miss ↦ All-scalar test ys x h (ground arith)
  ]

  pub All-put : (key : A → ℕ) (row : A) (xs : List A) → All P xs → P row → All P (put key row xs)
  unfolding put
  All-put key row [] h p = tt
  All-put key row (x ∷ xs) (hx, h) p = elim (Bool-cases (key x == key row)) [
    | inl hit ↦ (rw hit p, All-put key row xs h p)
    | inr miss ↦ (rw miss hx, All-put key row xs h p)
  ]
