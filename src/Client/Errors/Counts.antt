-- ===== src/Client/Errors/Counts.antt =====
-- The counts that `aggregate_error` keeps.
use oprf_service.Base.{
  ℕ, suc, ◌+◌, ◌≤◌, ◌<◌, ◌≡◌, refl, sym, ap, List, [], ◌∷◌, true, false, leb, subst, arith,
}
use mathlib.Core.Logic.{ite}
use oprf_service.Client.Errors.{count_entry}

module _ {K : Type 0} (d : Discrete K) where
  -- What a map holds for a key.
  unfoldable pub lookup : K → List (K × ℕ) → ℕ
  lookup k [] = 0
  lookup k (entry ∷ entries) = let rest = lookup k entries in ite (d entry.0 k) entry.1 rest

  unfoldable pub tick : K → K → ℕ → ℕ
  tick k k' n = ite (d k k') (suc n) n

  count-lookup :
      (k : K) (entries : List (K × ℕ)) → (count_entry d k entries).0 ≡ suc (lookup k entries)
  unfolding count_entry lookup
  count-lookup k [] = refl
  count-lookup k (entry ∷ entries) = ground (arith, count-lookup k entries)

  pub lookup-count :
      (k k' : K) (entries : List (K × ℕ))
      → lookup k' (count_entry d k entries).1 ≡ tick k k' (lookup k' entries)
  unfolding count_entry lookup tick
  lookup-count k k' [] = ground arith
  lookup-count k k' (entry ∷ entries) = ground (arith, lookup-count k k' entries)

  pub tick-add : (k k' : K) (m n : ℕ) → tick k k' m + n ≡ m + tick k k' n
  unfolding tick
  tick-add k k' m n = ground arith

  tick_self : (k : K) (n : ℕ) → tick k k n ≡ suc n
  unfolding tick
  tick_self k n = ground arith

  tick_below :
      (threshold : ℕ) (k k' : K) (m n : ℕ)
      → suc m < threshold
      → n < threshold
      → (k ≡ k' → n ≡ m)
      → tick k k' n < threshold
  unfolding tick
  tick_below threshold k k' m n a b c = ground arith

pub reached :
    {K : Type 0} (d : Discrete K) (k : K) (entries : List (K × ℕ)) (threshold n : ℕ)
    → leb threshold (count_entry d k entries).0 ≡ true
    → threshold ≤ lookup d k entries + tick d k k n
reached d k entries threshold n q =
    let a = count-lookup d k entries in let b = tick_self d k n in grind arith

pub below_count :
    {K : Type 0} (d : Discrete K) (k : K) (entries : List (K × ℕ)) (threshold : ℕ)
    → leb threshold (count_entry d k entries).0 ≡ false
    → ((k' : K) → lookup d k' entries < threshold)
    → (k' : K) → lookup d k' (count_entry d k entries).1 < threshold
below_count d k entries threshold q h k' =
    subst (λ n. n < threshold) (sym (lookup-count d k k' entries))
      (tick_below d threshold k k' (lookup d k entries) (lookup d k' entries)
        (let a = count-lookup d k entries in grind arith) (h k')
        (λ e. ap (λ t. lookup d t entries) (sym e)))
