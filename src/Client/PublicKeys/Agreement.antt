-- ===== src/Client/PublicKeys/Agreement.antt =====
-- What the client's public key says of the answers of the nodes.
use oprf_service.Base.{
  ℕ, suc, ◌+◌, ◌≤◌, ◌<◌, ◌≡◌, refl, sym, ap, ◌∙◌, List, [], ◌∷◌, ◌++◌, Bool-cases, inl, inr, Option,
  none, some, Result, ok, err, length, leb, arith, length-append, ltb, ◌||◌, ◌==◌, ◌≢◌, ◌⊎◌,
}
use oprf_service.Client.Errors.{
  Error, count_entry, networking, inconsistent_oprf_public_keys, invalid_threshold,
  non_unique_services,
}
use oprf_service.Client.Errors.Counts.{lookup, lookup-count, tick, tick-add, reached, below_count}
use oprf_service.Client.Distributed.{collect}
use oprf_service.Client.PublicKeys.{OprfPublicKeyWithEpoch, agree, fetch_oprf_public_key}

module _ {PublicKey E : Type 0} (d : Discrete (OprfPublicKeyWithEpoch PublicKey)) where
  -- How many nodes give a key, do not know it, and cannot be reached.
  unfoldable pub key_count :
      OprfPublicKeyWithEpoch PublicKey
      → List (Result E (Option (OprfPublicKeyWithEpoch PublicKey)))
      → ℕ
  unfolding tick
  key_count key [] = 0
  key_count key (ok (some response) ∷ results) = tick d response key (key_count key results)
  key_count key (ok none ∷ results) = key_count key results
  key_count key (err e ∷ results) = key_count key results

module _ {PublicKey E : Type 0} where
  unfoldable pub unknown_count : List (Result E (Option (OprfPublicKeyWithEpoch PublicKey))) → ℕ
  unknown_count [] = 0
  unknown_count (ok none ∷ results) = suc (unknown_count results)
  unknown_count (ok (some key) ∷ results) = unknown_count results
  unknown_count (err e ∷ results) = unknown_count results

  unfoldable pub error_count : List (Result E (Option (OprfPublicKeyWithEpoch PublicKey))) → ℕ
  error_count [] = 0
  error_count (err e ∷ results) = suc (error_count results)
  error_count (ok key ∷ results) = error_count results

  -- By the result: how often what it says was said, from the given counts on.
  abbrev pub Agrees :
      ℕ
      → (OprfPublicKeyWithEpoch PublicKey → ℕ)
      → ℕ
      → ℕ
      → Result (Error E) (Option (OprfPublicKeyWithEpoch PublicKey))
      → Type 0
  Agrees threshold keys unknown errors (ok (some key)) = threshold ≤ keys key
  Agrees threshold keys unknown errors (ok none) = threshold ≤ unknown
  Agrees threshold keys unknown errors (err (networking found)) =
      (threshold ≤ errors) × (length found ≤ errors)
  Agrees threshold keys unknown errors (err inconsistent_oprf_public_keys) =
      ((key : OprfPublicKeyWithEpoch PublicKey) → keys key < threshold)
      × (unknown < threshold)
      × (errors < threshold)
  Agrees threshold keys unknown errors (err e) = ⊥

module _ {PublicKey E : Type 0} (d : Discrete (OprfPublicKeyWithEpoch PublicKey)) where
  agree-Agrees :
      (threshold : ℕ) (results : List (Result E (Option (OprfPublicKeyWithEpoch PublicKey))))
      (agreement : List (OprfPublicKeyWithEpoch PublicKey × ℕ)) (unknown : ℕ) (errors : List E)
      (keys : OprfPublicKeyWithEpoch PublicKey → ℕ) (unknowns all : ℕ)
      → ((key : OprfPublicKeyWithEpoch PublicKey)
          → keys key ≡ lookup d key agreement + key_count d key results)
      → unknowns ≡ unknown + unknown_count results
      → all ≡ length errors + error_count results
      → ((key : OprfPublicKeyWithEpoch PublicKey) → lookup d key agreement < threshold)
      → unknown < threshold
      → length errors < threshold
      → Agrees threshold keys unknowns all (agree d threshold results agreement unknown errors)
  unfolding agree key_count unknown_count error_count
  agree-Agrees threshold [] agreement unknown errors keys unknowns all hk hu he lk lu le =
      (λ key. let a = hk key in let b = lk key in omega arith, omega arith, omega arith)
  agree-Agrees threshold (ok (some key) ∷ results) agreement unknown errors keys unknowns all hk hu
        he lk lu le =
      elim (Bool-cases (leb threshold (count_entry d key agreement).0)) [
        | inl q ↦
            rw (agree, q)
              (let a = reached d key agreement threshold (key_count d key results) q in
                let b = hk key in omega arith)
        | inr q ↦
            rw (agree, q)
              (agree-Agrees threshold results (count_entry d key agreement).1 unknown errors keys
                unknowns all
                (λ k.
                  let a = hk k in
                  let b = lookup-count d key k agreement in
                  let c = tick-add d key k (lookup d k agreement) (key_count d k results) in
                  a ∙ sym (ap (λ n. n + key_count d k results) b ∙ c))
                hu he (below_count d key agreement threshold q lk) lu le)
      ]
  agree-Agrees threshold (ok none ∷ results) agreement unknown errors keys unknowns all hk hu he lk
        lu le =
      elim (Bool-cases (leb threshold (suc unknown))) [
        | inl q ↦ rw (agree, q) (ground arith)
        | inr q ↦
            rw (agree, q)
              (agree-Agrees threshold results agreement (suc unknown) errors keys unknowns all hk
                (omega arith) he lk (ground arith) le)
      ]
  agree-Agrees threshold (err e ∷ results) agreement unknown errors keys unknowns all hk hu he lk lu
        le =
      let n = length-append errors (e ∷ []) in
      elim (Bool-cases (leb threshold (length (errors ++ e ∷ [])))) [
        | inl q ↦ rw (agree, q) (ground arith, omega arith)
        | inr q ↦
            rw (agree, q)
              (agree-Agrees threshold results agreement unknown (errors ++ e ∷ []) keys unknowns all
                hk hu (omega arith) lk lu (ground arith))
      ]

  -- The same of the whole call, with what its two checks say.
  abbrev pub Fetches :
      List ℕ
      → ℕ
      → List (Result E (Option (OprfPublicKeyWithEpoch PublicKey)))
      → Result (Error E) (Option (OprfPublicKeyWithEpoch PublicKey))
      → Type 0
  Fetches urls threshold results (err (invalid_threshold peers t)) =
      ((threshold ≡ 0) ⊎ (length urls < threshold)) × (peers ≡ length urls) × (t ≡ threshold)
  Fetches urls threshold results (err non_unique_services) = length (collect urls) ≢ length urls
  Fetches urls threshold results r =
      (0 < threshold)
      × (threshold ≤ length urls)
      × Agrees threshold (λ key. key_count d key results) (unknown_count results)
          (error_count results) r

  Agrees-Fetches :
      (urls : List ℕ) (threshold : ℕ)
      (results : List (Result E (Option (OprfPublicKeyWithEpoch PublicKey))))
      (r : Result (Error E) (Option (OprfPublicKeyWithEpoch PublicKey)))
      → 0 < threshold
      → threshold ≤ length urls
      → Agrees threshold
          (λ key. key_count d key results)
          (unknown_count results)
          (error_count results)
          r
      → Fetches urls threshold results r
  Agrees-Fetches urls threshold results (ok key) p l h = (p, l, h)
  Agrees-Fetches urls threshold results (err (invalid_threshold peers t)) p l h = absurd h
  Agrees-Fetches urls threshold results (err non_unique_services) p l h = absurd h
  Agrees-Fetches urls threshold results (err e) p l h = (p, l, h)

  agree_start :
      (urls : List ℕ) (threshold : ℕ)
      (results : List (Result E (Option (OprfPublicKeyWithEpoch PublicKey))))
      → 0 < threshold
      → Agrees threshold
          (λ key. key_count d key results)
          (unknown_count results)
          (error_count results)
          (agree d threshold results [] 0 [])
  unfolding lookup
  agree_start urls threshold results h =
      agree-Agrees threshold results [] 0 [] (λ key. key_count d key results)
        (unknown_count results) (error_count results) (λ key. omega arith) (omega arith)
        (omega arith) (λ key. h) h h

  -- The two checks come first. Then a key that the client returns was given by threshold many of the
  -- nodes, and it returns that the key is not known only if threshold many say so, and an error of
  -- the network only if threshold many could not be asked. It reports that the keys are inconsistent
  -- only if no key was given, and neither of the two others was met, threshold many times.
  pub fetch_oprf_public_key-Fetches :
      (urls : List ℕ) (threshold : ℕ)
      (results : List (Result E (Option (OprfPublicKeyWithEpoch PublicKey))))
      → Fetches urls threshold results (fetch_oprf_public_key d urls threshold results)
  unfolding fetch_oprf_public_key
  fetch_oprf_public_key-Fetches urls threshold results =
      elim (Bool-cases (threshold == 0 || ltb (length urls) threshold)) [
        | inl q ↦ rw (fetch_oprf_public_key, q) (ground arith, refl, refl)
        | inr q ↦ elim (Bool-cases (length (collect urls) == length urls)) [
          | inl u ↦
              rw (fetch_oprf_public_key, q, u)
                (Agrees-Fetches urls threshold results (agree d threshold results [] 0 [])
                  (ground arith) (ground arith) (agree_start urls threshold results (ground arith)))
          | inr u ↦ rw (fetch_oprf_public_key, q, u) (λ e. let a = u in ground arith)
        ]
      ]
