-- ===== src/KeyGen/Rounds/Again.antt =====
-- A first round that is run again, after a restart or a second event.
use oprf_service.Base.{ℕ, ◌-◌, ◌≡◌, ap, some, ok}
use oprf_service.Algebra.Field.{Field}
use oprf_service.Algebra.Suite.{Suite}
use oprf_service.KeyGen.Db.{Db}
use oprf_service.KeyGen.Db.Keygens.{try_store_keygen_intermediates-again}
use oprf_service.KeyGen.Direct.{direct_manager}
use oprf_service.KeyGen.Values.{
  KeyGenIntermediateValues, Randomness, new_values, build_round1_contribution,
}
use oprf_service.KeyGen.Rounds.{store_round1, key_gen_round1}

module _ {Fr Fq Affine : Type 0} ⦃S : Field Fr⦄ ⦃B : Field Fq⦄ (C : Suite Fr Fq Affine S)
    (new_unchecked : Fq → Fq → Affine) where
  store_round1-again :
      (id epoch : ℕ) (v w : KeyGenIntermediateValues Fr Fq Affine)
      (db : Db Fr Affine (KeyGenIntermediateValues Fr Fq Affine))
      → store_round1 C new_unchecked direct_manager id epoch
          (some w)
          (store_round1 C new_unchecked direct_manager id epoch (some v) db).1
        ≡ store_round1 C new_unchecked direct_manager id epoch (some v) db
  unfolding store_round1
  store_round1-again id epoch v w db =
      ap (λ out. (some (ok (build_round1_contribution C new_unchecked out.0)), out.1))
        (try_store_keygen_intermediates-again id epoch v w db)

  -- Where the values of the second run can be computed, a first round of key generation that is run
  -- again, with other randomness and another threshold, gives the same contribution, and changes
  -- nothing.
  pub key_gen_round1-again :
      (id epoch threshold later : ℕ) (rng fresh : Randomness Fr)
      (v w : KeyGenIntermediateValues Fr Fq Affine)
      (db : Db Fr Affine (KeyGenIntermediateValues Fr Fq Affine))
      → new_values C (threshold - 1) rng ≡ some v
      → new_values C (later - 1) fresh ≡ some w
      → key_gen_round1 C new_unchecked direct_manager id epoch later fresh
          (key_gen_round1 C new_unchecked direct_manager id epoch threshold rng db).1
        ≡ key_gen_round1 C new_unchecked direct_manager id epoch threshold rng db
  unfolding key_gen_round1
  key_gen_round1-again id epoch threshold later rng fresh v w db e f =
      rw (e, f) (store_round1-again id epoch v w db)
