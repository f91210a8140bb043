-- ===== src/Service/Session.antt =====
-- oprf-service/src/api/oprf.rs (challenge), api/errors.rs and the sessions of
-- services/oprf_key_material_store.rs. A panic is `none`.
pub mod Checks
use oprf_service.Base.{
  ℕ, ◌+◌, ◌%◌, ◌^◌, List, [], ◌∷◌, Bool, true, false, ◌||◌, not, Option, none, some, Result, ok,
  err, length, ◌==◌, if◌then◌else◌, is_sorted, dedup,
}
use oprf_service.Algebra.Field.{Field}
use oprf_service.Algebra.Suite.{Suite}
use oprf_service.Core.Shamir.{◌>>=◌, single_lagrange_from_coeff}
use oprf_service.Core.Ddlog.{DLogEqualityCommitments, DLogEqualitySession}
use oprf_service.Core.Ddlog as Ddlog
use oprf_service.Types.{
  session_reuse_code, corrupted_message_code, unknown_oprf_key_id_code,
  blinded_query_is_identity_code, coefficients_does_not_equal_threshold_code,
  missing_my_coefficient_code, unsorted_contributing_parties_code, duplicate_coefficient_code,
  deleted_oprf_key_id_code, coeff_of,
}

-- `tungstenite::Error` inside an `axum::Error`, as far as it is told apart.
pub data AxumError : Type 0 where
  reset_without_closing_handshake connection_reset capacity : AxumError
  other : AxumError

pub data SecretManagerError : Type 0 where
  unknown_oprf_key_id deleted_oprf_key_id : ℕ → SecretManagerError
  internal : SecretManagerError

-- `auth` carries the code of the authenticator's error.
pub data Error : Type 0 where
  session_reuse : List ℕ → Error
  connection_closed : Error
  axum : AxumError → Error
  unexpected_message : Error
  auth : ℕ → Error
  json cbor : Error
  blinded_query_is_identity : Error
  threshold_contributing_parties_missmatch : ℕ → ℕ → Error
  missing_my_coefficient : Error
  contributions_not_sorted : Error
  duplicate_coefficients : Error
  secret_manager : SecretManagerError → Error

-- The code of the close frame.
unfoldable pub handle_secret_manager_error : SecretManagerError → ℕ
handle_secret_manager_error (unknown_oprf_key_id _) = unknown_oprf_key_id_code
handle_secret_manager_error (deleted_oprf_key_id _) = deleted_oprf_key_id_code
handle_secret_manager_error internal = 1011

unfoldable pub handle_axum_error : AxumError → Option ℕ
handle_axum_error reset_without_closing_handshake = none
handle_axum_error connection_reset = none
handle_axum_error capacity = some 1009
handle_axum_error other = some 1011

unfoldable pub into_close_frame : Error → Option ℕ
unfolding handle_secret_manager_error handle_axum_error
into_close_frame (axum e) = handle_axum_error e
into_close_frame (auth code) = some code
into_close_frame (secret_manager e) = some (handle_secret_manager_error e)
into_close_frame connection_closed = none
into_close_frame blinded_query_is_identity = some blinded_query_is_identity_code
into_close_frame (session_reuse _) = some session_reuse_code
into_close_frame unexpected_message = some 1003
into_close_frame json = some corrupted_message_code
into_close_frame cbor = some corrupted_message_code
into_close_frame (threshold_contributing_parties_missmatch _ _) =
    some coefficients_does_not_equal_threshold_code
into_close_frame contributions_not_sorted = some unsorted_contributing_parties_code
into_close_frame duplicate_coefficients = some duplicate_coefficient_code
into_close_frame missing_my_coefficient = some missing_my_coefficient_code

unfoldable pub contains : ℕ → List ℕ → Bool
contains x [] = false
contains x (y ∷ ys) = y == x || contains x ys

-- The checks of `challenge`.
unfoldable pub check_coefficients : ℕ → ℕ → List ℕ → Result Error (Unit {0})
unfolding contains is_sorted dedup
check_coefficients threshold party_id coeffs =
    let num_coeffs = length coeffs in
    let my_coeff = coeff_of party_id in
    if not (num_coeffs == threshold)
    then err (threshold_contributing_parties_missmatch threshold num_coeffs)
    else if not (contains my_coeff coeffs)
    then err missing_my_coefficient
    else if not (is_sorted coeffs)
    then err contributions_not_sorted
    else if not (length (dedup coeffs) == num_coeffs)
    then err duplicate_coefficients
    else ok tt

pub record OprfKeyMaterial (Fr Affine : Type 0) : Type 0 where
  pub share : Fr
  pub public_key : Affine
  pub epoch : ℕ

pub record OprfSession (Fr Affine : Type 0) : Type 0 where
  pub oprf_key_id : ℕ
  pub dlog_session : DLogEqualitySession Fr Affine
  pub key_material : OprfKeyMaterial Fr Affine

module _ {Fr Fq Affine : Type 0} ⦃S : Field Fr⦄ ⦃B : Field Fq⦄ (C : Suite Fr Fq Affine S) where
  -- `OprfKeyMaterialStore::partial_commit` on the key material that the store gives.
  unfoldable pub partial_commit :
      Affine
      → ℕ
      → OprfKeyMaterial Fr Affine
      → Fr
      → Fr
      → OprfSession Fr Affine × Ddlog.PartialDLogEqualityCommitments Affine
  partial_commit point_b oprf_key_id key_material d_share e_share =
      let (dlog_session, commitment) =
        Ddlog.partial_commitments C point_b key_material.share d_share e_share in
      (
        record {
          oprf_key_id = oprf_key_id;
          dlog_session = dlog_session;
          key_material = key_material;
        },
        commitment,
      )

  -- `OprfKeyMaterialStore::challenge`.
  unfoldable pub store_challenge :
      List ℕ → ℕ → OprfSession Fr Affine → DLogEqualityCommitments Affine → Option Fr
  store_challenge session_id my_party_id session challenge = do
    lagrange_coefficient ←
        single_lagrange_from_coeff (coeff_of my_party_id) challenge.contributing_parties
    some (
        Ddlog.challenge C session.dlog_session session_id session.key_material.share
          session.key_material.public_key challenge lagrange_coefficient)

  unfoldable pub challenge :
      DLogEqualityCommitments Affine
      → List ℕ
      → ℕ
      → ℕ
      → OprfSession Fr Affine
      → Option (Result Error Fr)
  unfolding check_coefficients store_challenge
  challenge request request_id party_id threshold session =
      elim (check_coefficients threshold party_id request.contributing_parties) [
        | err e ↦ some (err e)
        | ok _ ↦ do
          proof_share ← store_challenge request_id party_id session request
          some (ok proof_share)
      ]
