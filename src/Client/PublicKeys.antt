-- ===== src/Client/PublicKeys.antt =====
-- oprf-client/src/lib.rs, fetch_oprf_public_key: the public key that enough nodes agree on. The
-- answers of the services are in the order of their arrival.
pub mod Agreement
use oprf_service.Base.{
  ℕ, suc, List, [], ◌∷◌, ◌++◌, Bool, ◌||◌, not, Option, none, some, Result, ok, err, length, ltb,
  leb, ◌==◌, if◌then◌else◌,
}
use oprf_service.Client.Errors.{
  Error, count_entry, invalid_threshold, non_unique_services, networking,
  inconsistent_oprf_public_keys,
}
use oprf_service.Client.Distributed.{collect}

-- `OprfPublicKeyWithEpoch`.
pub record OprfPublicKeyWithEpoch (PublicKey : Type 0) : Type 0 where
  pub key : PublicKey
  pub epoch : ℕ

-- The response of a service: whether its status is 404, whether it is an error, and its body where
-- that is JSON.
pub data Response (PublicKey : Type 0) : Type 0 where
  not_found bad_status bad_json : Response PublicKey
  found : OprfPublicKeyWithEpoch PublicKey → Response PublicKey

module _ {PublicKey E : Type 0} where
  -- With the errors of `reqwest` for a bad status and a bad body.
  unfoldable pub fetch_oprf_public_key_from_service :
      E → E → Result E (Response PublicKey) → Result E (Option (OprfPublicKeyWithEpoch PublicKey))
  fetch_oprf_public_key_from_service status_error json_error (err e) = err e
  fetch_oprf_public_key_from_service status_error json_error (ok not_found) = ok none
  fetch_oprf_public_key_from_service status_error json_error (ok bad_status) = err status_error
  fetch_oprf_public_key_from_service status_error json_error (ok bad_json) = err json_error
  fetch_oprf_public_key_from_service status_error json_error (ok (found key)) = ok (some key)

  module _ (d : Discrete (OprfPublicKeyWithEpoch PublicKey)) where
    -- The loop, with the counts so far.
    unfoldable pub agree :
        ℕ
        → List (Result E (Option (OprfPublicKeyWithEpoch PublicKey)))
        → List (OprfPublicKeyWithEpoch PublicKey × ℕ)
        → ℕ
        → List E
        → Result (Error E) (Option (OprfPublicKeyWithEpoch PublicKey))
    unfolding count_entry
    agree threshold [] agreement not_found_count network_errors = err inconsistent_oprf_public_keys
    agree threshold (ok (some response) ∷ results) agreement not_found_count network_errors =
        let counted = count_entry d response agreement in
        let rest = agree threshold results counted.1 not_found_count network_errors in
        if leb threshold counted.0 then ok (some response) else rest
    agree threshold (ok none ∷ results) agreement not_found_count network_errors =
        let rest = agree threshold results agreement (suc not_found_count) network_errors in
        if leb threshold (suc not_found_count) then ok none else rest
    agree threshold (err e ∷ results) agreement not_found_count network_errors =
        let errors = network_errors ++ e ∷ [] in
        let rest = agree threshold results agreement not_found_count errors in
        if leb threshold (length errors) then err (networking errors) else rest

    unfoldable pub fetch_oprf_public_key :
        List ℕ
        → ℕ
        → List (Result E (Option (OprfPublicKeyWithEpoch PublicKey)))
        → Result (Error E) (Option (OprfPublicKeyWithEpoch PublicKey))
    unfolding agree collect
    fetch_oprf_public_key urls threshold results =
        if threshold == 0 || ltb (length urls) threshold
        then err (invalid_threshold (length urls) threshold)
        else if not (length (collect urls) == length urls)
        then err non_unique_services
        else agree threshold results [] 0 []
