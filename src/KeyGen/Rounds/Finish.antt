-- ===== src/KeyGen/Rounds/Finish.antt =====
-- A key generation among honest nodes, from the first round to the share that can be used.
use oprf_service.Base.{ℕ, ◌+◌, ◌-◌, ◌≤◌, ◌≡◌, refl, sym, ap, ◌∙◌, List, Option, none, some, ok}
use oprf_service.Algebra.Field.{Field}
use oprf_service.Algebra.Suite.{Suite}
use oprf_service.Core.Keygen.{KeyGenPoly, new}
use oprf_service.Core.Keygen.Dealing.{key_share}
use oprf_service.Types.Chain.{SecretGenCiphertext}
use oprf_service.KeyGen.Db.{Db, fetch_keygen, confirm_dlog_share, get_share_by_epoch}
use oprf_service.KeyGen.Db.Rows.{find_row}
use oprf_service.KeyGen.Db.Fresh.{
  begun, received, finished, fetch-fresh, try_store-fresh, store_pending_dlog_share-fresh,
  confirm_dlog_share-fresh,
}
use oprf_service.KeyGen.Effects.{◌>>◌, >>=-run, call-run}
use oprf_service.KeyGen.Direct.{direct_manager}
use oprf_service.KeyGen.Values.{
  full, KeyGenIntermediateValues, Randomness, new_values, sample, build_round1_contribution,
  decrypt_key_gen_ciphertexts,
}
use oprf_service.KeyGen.Values.Decrypt.{
  Producer, sent_each, keys_of, dealers_of, dealt_shares, decrypt_key_gen_ciphertexts-sent_each,
}
use oprf_service.KeyGen.Rounds.{
  secret_manager_error, key_gen_round1, store_round1, round3, finalize,
}

module _ {Fr Fq Affine : Type 0} ⦃S : Field Fr⦄ ⦃B : Field Fq⦄ (C : Suite Fr Fq Affine S)
    (new_unchecked : Fq → Fq → Affine) where
  module _ (id epoch : ℕ) (v : KeyGenIntermediateValues Fr Fq Affine) (share : Fr)
      (public_key : Affine) (db : Db Fr Affine (KeyGenIntermediateValues Fr Fq Affine))
      (no_row : find_row id db.shares ≡ none)
      (no_keygen : fetch_keygen id epoch db.in_progress_keygens ≡ none) where
    abbrev after_round1 : Db Fr Affine (KeyGenIntermediateValues Fr Fq Affine)
    after_round1 = begun id epoch v share public_key db no_row no_keygen

    abbrev after_round3 : Db Fr Affine (KeyGenIntermediateValues Fr Fq Affine)
    after_round3 = received id epoch v share public_key db no_row no_keygen

    abbrev after_finalize : Db Fr Affine (KeyGenIntermediateValues Fr Fq Affine)
    after_finalize = finished id epoch v share public_key db no_row no_keygen

    round1-run :
        (threshold : ℕ) (rng : Randomness Fr)
        → new_values C (threshold - 1) rng ≡ some v
        → key_gen_round1 C new_unchecked direct_manager id epoch threshold rng db
          ≡ (some (ok (build_round1_contribution C new_unchecked v)), after_round1)
    unfolding key_gen_round1 store_round1
    round1-run threshold rng e = rw e (
        ap (λ out. (some (ok (build_round1_contribution C new_unchecked out.0)), out.1))
          (try_store-fresh id epoch v share public_key db no_row no_keygen))

    round3-run :
        (ciphers : List (SecretGenCiphertext Fq Affine)) (pks : List Affine)
        → decrypt_key_gen_ciphertexts C ciphers v full pks ≡ some (ok share)
        → round3 C new_unchecked direct_manager id epoch ciphers full pks after_round1
          ≡ (some (ok tt), after_round3)
    unfolding round3
    round3-run ciphers pks e =
        rw
          (
            fetch-fresh id epoch v share public_key db no_row no_keygen,
            e,
            store_pending_dlog_share-fresh id epoch v share public_key db no_row no_keygen,
          )
          refl

    finalize-run :
        finalize C new_unchecked direct_manager id epoch public_key after_round3
        ≡ (some (ok tt), after_finalize)
    unfolding finalize
    finalize-run =
        call-run secret_manager_error (confirm_dlog_share id epoch public_key)
          (confirm_dlog_share-fresh id epoch v share public_key db no_row no_keygen).0

  new_values-sk :
      (degree : ℕ) (rng : Randomness Fr) (v : KeyGenIntermediateValues Fr Fq Affine)
      → new_values C degree rng ≡ some v
      → v.sk ≡ rng.sk
  unfolding new_values sample
  new_values-sk degree rng v = go (new C rng.secret (sample degree rng.coeff))
    where
      go :
          (poly : Option (KeyGenPoly Fr Fq Affine))
          → elim poly [
            | none ↦ none
            | some poly ↦
                let made : KeyGenIntermediateValues Fr Fq Affine = record {
                  sk = rng.sk;
                  poly = some poly;
                } in
                some made
          ]
            ≡ some v
          → v.sk ≡ rng.sk
      go none e = absurd (cc e)
      go (some poly) e =
          let made : KeyGenIntermediateValues Fr Fq Affine = record {
            sk = rng.sk;
            poly = some poly;
          } in
          let same : made ≡ v = cc e in ap (λ v. v.sk) (sym same)

  -- A party that has nothing stored for a key runs the first round of a key generation, whose values
  -- can be computed. Producers send their shares to it under its public key, and it gets their
  -- ciphertexts and public keys in the third round, and then finalizes. All three succeed, and the
  -- share that can then be read is the sum of what the producers deal to it, the share of the sum of
  -- their polynomials. The scalar field is no larger than the base field.
  pub key_gen_round1-round3-finalize :
      (id epoch party threshold : ℕ) (rng : Randomness Fr)
      (v : KeyGenIntermediateValues Fr Fq Affine) (producers : List (Producer Fr Fq Affine))
      (public_key : Affine) (db : Db Fr Affine (KeyGenIntermediateValues Fr Fq Affine))
      → S.modulus ≤ B.modulus
      → new_values C (threshold - 1) rng ≡ some v
      → find_row id db.shares ≡ none
      → fetch_keygen id epoch db.in_progress_keygens ≡ none
      → (ciphers : List (SecretGenCiphertext Fq Affine)) × (after : Db Fr Affine
          (KeyGenIntermediateValues Fr Fq Affine))
        × (sent_each C party rng.sk producers ≡ some ciphers)
        × ((key_gen_round1 C new_unchecked direct_manager id epoch threshold rng
                >> (round3 C new_unchecked direct_manager id epoch ciphers full
                      (keys_of C producers)
                    >> finalize C new_unchecked direct_manager id epoch public_key))
              db
            ≡ (some (ok tt), after))
        × (get_share_by_epoch id epoch after
            ≡ ok (some (key_share (dealers_of C producers) (S.of_ℕ (party + 1)))))
  key_gen_round1-round3-finalize id epoch party threshold rng v producers public_key db h e no_row
        no_keygen =
      let share = key_share (dealers_of C producers) (S.of_ℕ (party + 1)) in
      let (ciphers, sent, decrypted, _) =
        decrypt_key_gen_ciphertexts-sent_each C party v.sk v.poly (dealt_shares C party producers)
          producers h refl in
      let r3 =
        round3-run id epoch v share public_key db no_row no_keygen ciphers (keys_of C producers)
          decrypted in
      let m3 = round3 C new_unchecked direct_manager id epoch ciphers full (keys_of C producers) in
      let m4 = finalize C new_unchecked direct_manager id epoch public_key in
      (
        ciphers,
        after_finalize id epoch v share public_key db no_row no_keygen,
        ap (λ sk. sent_each C party sk producers) (sym (new_values-sk (threshold - 1) rng v e))
            ∙ sent,
        >>=-run (key_gen_round1 C new_unchecked direct_manager id epoch threshold rng)
              (λ _. m3 >> m4)
              (round1-run id epoch v share public_key db no_row no_keygen threshold rng e)
            ∙ >>=-run m3 (λ _. m4) r3
            ∙ finalize-run id epoch v share public_key db no_row no_keygen,
        (confirm_dlog_share-fresh id epoch v share public_key db no_row no_keygen).1,
      )
