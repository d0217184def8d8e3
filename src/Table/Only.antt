-- ===== src/Table/Only.antt =====
-- Counts of one condition that implies another, in tables where the weaker one holds of one row.
use mad_devs_transport_shari.Prelude.{
  ℕ, ◌+◌, ◌≤◌, ◌≡◌, Bool, not, ◌&&◌, true, some, List, [], ◌∷◌, ◌==◌, bit, arith, Bool-cases, inl,
  inr,
}
use mad_devs_transport_shari.Table.{scalar, count, get, IsKeyed}
use mad_devs_transport_shari.Table.Laws.{count-by_key, IsKeyed-tail}

module _ {ℓ} {A : Type ℓ} (p q : A → Bool) (implies : (x : A) → bit (p x) ≤ bit (q x)) where
  pub count_mono : (xs : List A) → count p xs ≤ count q xs
  unfolding count
  count_mono [] = omega arith
  count_mono (x ∷ xs) = omega (arith, implies x, count_mono xs)

  -- If `q` holds of one row at most, and of the row `x`, then `p` counts `x` or nothing.
  pub count-only :
      (key : A → ℕ) (x : A) (xs : List A)
      → IsKeyed key xs
      → get key (key x) xs ≡ some x
      → q x ≡ true
      → count q xs ≤ 1
      → count p xs ≡ bit (p x)
  unfolding count scalar
  count-only key x [] keyed h hq one = cc
  count-only key x (y ∷ ys) keyed h hq one = elim (Bool-cases (key y == key x)) [
    | inl hit ↦ ground (arith, count_mono ys, implies x)
    | inr miss ↦
        let rest : get key (key x) ys ≡ some x = ground arith in
        ground (
          arith,
          implies y,
          count-by_key key q ys x (IsKeyed-tail key y ys keyed) rest hq,
          count-only key x ys (IsKeyed-tail key y ys keyed) rest hq,
        )
  ]

-- The rows that a test accepts, parted by another test.
pub count-split {ℓ} :
    {A : Type ℓ} (p q : A → Bool) (xs : List A)
    → count p xs ≡ count (λ x. p x && q x) xs + count (λ x. p x && not (q x)) xs
unfolding count
count-split p q [] = omega arith
count-split p q (x ∷ xs) = ground (arith, count-split p q xs)
