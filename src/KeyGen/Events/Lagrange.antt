-- ===== src/KeyGen/Events/Lagrange.antt =====
-- The coefficients of a resharing, from the chain.
use oprf_service.Base.{
  ◌≡◌, refl, List, [], ◌∷◌, map, ok, arith, Bool-cases, inl, inr, ◌==◌, if◌then◌else◌,
}
use oprf_service.Algebra.Field.{Field}
use oprf_service.Types.Chain.{try_u256_into_bjj_fr, try_collect}
use oprf_service.KeyGen.Events.{without_zeros, parse_lagrange}

module _ {Fr : Type 0} ⦃S : Field Fr⦄ where
  -- The coefficients as the contract gives them, and those that are not zero in order.
  unfoldable pub nonzero : List Fr → List Fr
  nonzero [] = []
  nonzero (c ∷ cs) = let rest = nonzero cs in if S.into_bigint c == 0 then rest else c ∷ rest

  try_u256_into_bjj_fr-into : (c : Fr) → try_u256_into_bjj_fr (S.into_bigint c) ≡ ok c
  unfolding try_u256_into_bjj_fr
  try_u256_into_bjj_fr-into c =
      let small = S.into_bigint-lt c in let e = S.of_ℕ-into_bigint c in ground (arith, small, e)

  pub parse_lagrange-into : (cs : List Fr) → parse_lagrange (map S.into_bigint cs) ≡ ok (nonzero cs)
  unfolding parse_lagrange without_zeros try_collect nonzero
  parse_lagrange-into [] = refl
  parse_lagrange-into (c ∷ cs) = elim (Bool-cases (S.into_bigint c == 0)) [
    | inl e ↦ rw (without_zeros, nonzero, e) (parse_lagrange-into cs)
    | inr e ↦ rw (e, try_u256_into_bjj_fr-into c, parse_lagrange-into cs) refl
  ]
