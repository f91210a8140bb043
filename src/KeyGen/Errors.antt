-- ===== src/KeyGen/Errors.antt =====
-- oprf-key-gen/src/services/key_event_watcher.rs: the errors of the handling of an event, and which
-- of them end the watcher.

use oprf_service.Base.{ℕ, Option, none, some, Result, ok, err}
use oprf_service.Types.Chain.{Report, report}
use oprf_service.KeyGen.Db.{SecretManagerError}
use oprf_service.KeyGen.Rounds.{SecretGenError}

-- The errors of the contract, as its ABI lists them. Of `wrong_round` the round and of `deleted_id`
-- the key is kept.
pub data OprfKeyRegistryErrors : Type 0 where
  parties_not_distinct address_empty_code already_submitted bad_contribution : OprfKeyRegistryErrors
  deleted_id : ℕ → OprfKeyRegistryErrors
  erc1967_invalid_implementation erc1967_non_payable failed_call : OprfKeyRegistryErrors
  implementation_not_initialized invalid_initialization last_admin : OprfKeyRegistryErrors
  not_a_participant not_a_producer not_initializing not_ready only_admin : OprfKeyRegistryErrors
  ownable_invalid_owner ownable_unauthorized_account : OprfKeyRegistryErrors
  uups_unauthorized_call_context uups_unsupported_proxiable_uuid : OprfKeyRegistryErrors
  unexpected_amount_peers unknown_id unsupported_num_peers_threshold : OprfKeyRegistryErrors
  wrong_round : ℕ → OprfKeyRegistryErrors

pub data VerifierErrors : Type 0 where
  public_input_not_in_field proof_invalid : VerifierErrors

pub data RevertError : Type 0 where
  oprf_key_registry : OprfKeyRegistryErrors → RevertError
  verifier : VerifierErrors → RevertError

-- What the code tells apart of the errors of alloy's transports and pending transactions.
pub data RpcError : Type 0 where
  null_resp : RpcError
  other_rpc : Report → RpcError

pub data PendingTransactionError : Type 0 where
  transport_error : RpcError → PendingTransactionError
  tx_watcher_timeout : PendingTransactionError
  other_pending : Report → PendingTransactionError

-- `E` is alloy's `contract::Error`, with what it decodes to.
pub record Decoder (E : Type 0) : Type 0 where
  pub as_registry_errors : E → Option OprfKeyRegistryErrors
  pub as_verifier_errors : E → Option VerifierErrors
  pub as_wrong_round : E → Option ℕ
  pub as_deleted_id : E → Option ℕ

pub data KeyRegistryEventError (E : Type 0) : Type 0 where
  revert : RevertError → KeyRegistryEventError E
  contract : E → KeyRegistryEventError E
  rpc : RpcError → KeyRegistryEventError E
  pending_transaction_error : PendingTransactionError → KeyRegistryEventError E
  transaction_failed_error : Report → KeyRegistryEventError E
  secret_manager_error : SecretManagerError → KeyRegistryEventError E
  internal : Report → KeyRegistryEventError E

module _ {E : Type 0} where
  -- `From<SecretGenError>`.
  unfoldable pub from_secret_gen : SecretGenError → KeyRegistryEventError E
  from_secret_gen (SecretGenError.secret_manager_error SecretManagerError.internal) =
      internal report
  from_secret_gen (SecretGenError.secret_manager_error e) = secret_manager_error e
  from_secret_gen SecretGenError.internal = internal report

  -- `From<alloy::contract::Error>`.
  unfoldable pub from_contract : Decoder E → E → KeyRegistryEventError E
  from_contract decoder value = elim (decoder.as_registry_errors value) [
    | some e ↦ revert (oprf_key_registry e)
    | none ↦ elim (decoder.as_verifier_errors value) [
      | some e ↦ revert (verifier e)
      | none ↦ contract value
    ]
  ]

  -- Which errors are taken as handled.
  unfoldable pub handle_soft_errors :
      Result (KeyRegistryEventError E) (Unit {0}) → Result Report (Unit {0})
  handle_soft_errors (ok a) = ok tt
  handle_soft_errors (err (revert (oprf_key_registry (wrong_round round)))) = ok tt
  handle_soft_errors (err (revert (oprf_key_registry (deleted_id id)))) = ok tt
  handle_soft_errors (err (revert (oprf_key_registry already_submitted))) = ok tt
  handle_soft_errors
        (err (secret_manager_error (SecretManagerError.missing_intermediates id epoch))) =
      ok tt
  handle_soft_errors (err (secret_manager_error SecretManagerError.refusing_to_rollback_epoch)) =
      ok tt
  handle_soft_errors (err (secret_manager_error SecretManagerError.internal)) = err report
  handle_soft_errors (err (internal r)) = err r
  handle_soft_errors (err e) = err report
