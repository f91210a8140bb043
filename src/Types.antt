-- ===== src/Types.antt =====
-- oprf-types/src/lib.rs and api.rs: epochs, and the codes with which a web-socket is closed.
pub mod Chain
use oprf_service.Base.{
  ℕ, ◌+◌, ◌-◌, ◌^◌, ◌%◌, Bool, ◌&&◌, Option, none, some, leb, ◌==◌, if◌then◌else◌,
}

-- `ShareEpoch`, a `u32`.
unfoldable pub is_initial_epoch : ℕ → Bool
is_initial_epoch epoch = epoch == 0

unfoldable pub prev : ℕ → ℕ
unfolding is_initial_epoch
prev epoch = if is_initial_epoch epoch then epoch else epoch - 1

-- `none` at `u32::MAX`.
unfoldable pub next : ℕ → Option ℕ
next epoch = if epoch == 2 ^ 32 - 1 then none else some (epoch + 1)

-- The Lagrange point of a party, `party_id + 1` on `u16`.
abbrev pub coeff_of : ℕ → ℕ
coeff_of party_id = (party_id + 1) % 2 ^ 16

-- `oprf_error_codes`.
abbrev pub timeout_code : ℕ
timeout_code = 4001

abbrev pub corrupted_message_code : ℕ
corrupted_message_code = 4002

abbrev pub session_reuse_code : ℕ
session_reuse_code = 4003

abbrev pub unknown_oprf_key_id_code : ℕ
unknown_oprf_key_id_code = 4004

abbrev pub blinded_query_is_identity_code : ℕ
blinded_query_is_identity_code = 4005

abbrev pub coefficients_does_not_equal_threshold_code : ℕ
coefficients_does_not_equal_threshold_code = 4006

abbrev pub missing_my_coefficient_code : ℕ
missing_my_coefficient_code = 4007

abbrev pub unsorted_contributing_parties_code : ℕ
unsorted_contributing_parties_code = 4008

abbrev pub duplicate_coefficient_code : ℕ
duplicate_coefficient_code = 4009

abbrev pub deleted_oprf_key_id_code : ℕ
deleted_oprf_key_id_code = 4010

pub data OprfErrorKind : Type 0 where
  timeout corrupted_message session_reuse unknown_oprf_key_id : OprfErrorKind
  blinded_query_is_identity coefficients_does_not_equal_threshold : OprfErrorKind
  missing_my_coefficient unsorted_contributing_parties duplicate_coefficient : OprfErrorKind
  deleted_oprf_key_id auth away protocol unsupported invalid policy size : OprfErrorKind
  internal again unknown : OprfErrorKind

-- The codes of RFC 6455 and the range of the authenticator.
unfoldable pub from_other_code : ℕ → OprfErrorKind
from_other_code value =
    if leb 4500 value && leb value 4999
    then auth
    else if value == 1001
    then away
    else if value == 1002
    then protocol
    else if value == 1003
    then unsupported
    else if value == 1007
    then invalid
    else if value == 1008
    then policy
    else if value == 1009
    then size
    else if value == 1011
    then internal
    else if value == 1013
    then again
    else unknown

-- `From<u16>`.
unfoldable pub from_code : ℕ → OprfErrorKind
unfolding from_other_code
from_code value =
    if value == timeout_code
    then timeout
    else if value == corrupted_message_code
    then corrupted_message
    else if value == session_reuse_code
    then session_reuse
    else if value == unknown_oprf_key_id_code
    then unknown_oprf_key_id
    else if value == blinded_query_is_identity_code
    then blinded_query_is_identity
    else if value == coefficients_does_not_equal_threshold_code
    then coefficients_does_not_equal_threshold
    else if value == missing_my_coefficient_code
    then missing_my_coefficient
    else if value == unsorted_contributing_parties_code
    then unsorted_contributing_parties
    else if value == duplicate_coefficient_code
    then duplicate_coefficient
    else if value == deleted_oprf_key_id_code
    then deleted_oprf_key_id
    else from_other_code value
