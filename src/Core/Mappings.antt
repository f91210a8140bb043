-- ===== src/Core/Mappings.antt =====
-- oprf-core/src/oprf/mappings.rs: field elements mapped to points of the curve. A `Choice` is a
-- truth value; the comparison of serialized field elements is the decision of their equality; a
-- panic is `none`.
use mathlib.Core.Logic.{ite}
use oprf_service.Base.{
  ℕ, ◌%◌, [], ◌∷◌, Bool, true, false, Option, some, codes, if◌then◌else◌, ◌==◌, not,
}
use oprf_service.Algebra.Field.{Field}
use oprf_service.Algebra.Suite.{Suite}
use oprf_service.Core.Shamir.{◌>>=◌}

-- What the mapping uses of `ark_ff` and `ark_ec`.
pub record Arithmetic (Fq Affine : Type 0) : Type 0 where
  pub pow : Fq → ℕ → Fq
  pub modulus_minus_one_div_two : ℕ
  pub sqrt : Fq → Option Fq
  pub affine : Fq → Fq → Affine
  pub clear_cofactor : Affine → Affine

infixl 20 ◌^^◌
abbrev pub ◌^^◌ : Bool → Bool → Bool
true ^^ b = not b
false ^^ b = b

module _ {Fr Fq Affine : Type 0} ⦃S : Field Fr⦄ ⦃B : Field Fq⦄ (C : Suite Fr Fq Affine S)
    (A : Arithmetic Fq Affine) where
  open C use {◌⊕◌, permutation_t3, base_from_be_bytes_mod_order}
  open B use {zero, one, ◌+◌, ◌-◌, ◌*◌, of_ℕ}

  infixl 65 ◌+◌ ◌-◌ ◌⊕◌
  infixl 70 ◌*◌
  unfoldable pub get_hash_to_field_ds : Fq
  get_hash_to_field_ds = base_from_be_bytes_mod_order (codes "OPRF_HashToField_BabyJubJub")

  -- `ct_eq` of the serialized elements.
  unfoldable pub ct_eq : Fq → Fq → Bool
  ct_eq v w = ite (B.discrete v w) true false

  unfoldable pub ct_is_zero : Fq → Bool
  unfolding ct_eq
  ct_is_zero v = ct_eq v zero

  unfoldable pub ct_select : Fq → Fq → Bool → Fq
  ct_select lhs rhs choice =
      let choice = of_ℕ (if choice then 1 else 0) in rhs + (lhs - rhs) * choice

  unfoldable pub ct_is_square : Fq → Bool
  unfolding ct_eq
  ct_is_square x =
      let x = A.pow x A.modulus_minus_one_div_two in
      let is_zero = ct_eq x zero in let is_one = ct_eq x one in is_zero ^^ is_one

  -- The exponent is the modulus of the field, less two.
  unfoldable pub inv0 : Fq → Fq
  inv0 x = A.pow x 21888242871839275222246405745257275088548364400416034343698204186575808495615

  unfoldable pub sgn0 : Fq → Bool
  sgn0 x = B.into_bigint x % 2 == 1

  unfoldable pub hash_to_field : Fq → Fq
  unfolding get_hash_to_field_ds
  hash_to_field input = permutation_t3 (get_hash_to_field_ds ∷ input ∷ zero ∷ []) 1

  unfoldable pub hash_to_field2 : Fq → Fq × Fq
  unfolding get_hash_to_field_ds
  hash_to_field2 input =
      let output = permutation_t3 (get_hash_to_field_ds ∷ input ∷ one ∷ []) in (output 1, output 2)

  unfoldable pub map_to_curve_elligator2 : Fq → Option (Fq × Fq)
  unfolding ct_is_zero ct_select ct_is_square inv0 sgn0
  map_to_curve_elligator2 input =
      let j = of_ℕ 168698 in
      let c1 = j in
      let z = of_ℕ 5 in
      let tv1 = input * input in
      let tv1 = z * tv1 in
      let e = ct_is_zero (tv1 + one) in
      let tv1 = ct_select zero tv1 e in
      let x1 = tv1 + one in
      let x1 = inv0 x1 in
      let x1 = (zero - c1) * x1 in
      let gx1 = x1 + c1 in
      let gx1 = gx1 * (x1 * x1) + x1 in
      let x2 = zero - x1 - c1 in
      let gx2 = tv1 * gx1 in
      let e2 = ct_is_square gx1 in
      let x = ct_select x1 x2 e2 in
      let y2 = ct_select gx1 gx2 e2 in
      do y ← A.sqrt y2; let e3 = sgn0 y; let y = ct_select (zero - y) y (e2 ^^ e3); some (x, y)

  unfoldable pub rational_map_mont_to_twisted_edwards : Fq → Fq → Fq × Fq
  unfolding ct_is_zero ct_select inv0
  rational_map_mont_to_twisted_edwards s t =
      let tv1 = s + one in
      let tv2 = tv1 * t in
      let tv2 = inv0 tv2 in
      let v = tv1 * tv2 in
      let v = v * s in
      let w = tv2 * t in
      let tv1 = s - one in
      let w = w * tv1 in let e = ct_is_zero tv2 in let w = ct_select one w e in (v, w)

  unfoldable pub map_to_curve_twisted_edwards : Fq → Option Affine
  unfolding map_to_curve_elligator2 rational_map_mont_to_twisted_edwards
  map_to_curve_twisted_edwards input = do
    (s, t) ← map_to_curve_elligator2 input
    let (v, w) = rational_map_mont_to_twisted_edwards s t
    some (A.affine v w)

  unfoldable pub encode_to_curve : Fq → Option Affine
  unfolding hash_to_field map_to_curve_twisted_edwards
  encode_to_curve input = do
    let u = hash_to_field input
    q ← map_to_curve_twisted_edwards u
    some (A.clear_cofactor q)

  unfoldable pub hash_to_curve : Fq → Option Affine
  unfolding hash_to_field2 map_to_curve_twisted_edwards
  hash_to_curve input = do
    let (u0, u1) = hash_to_field2 input
    q0 ← map_to_curve_twisted_edwards u0
    q1 ← map_to_curve_twisted_edwards u1
    let r = q0 ⊕ q1
    some (A.clear_cofactor r)
