-- ===== src/KeyGen/Events.antt =====
-- oprf-key-gen/src/services/key_event_watcher/events.rs: what a log of the contract says.
pub mod Lagrange
use oprf_service.Base.{
  ℕ, List, [], ◌∷◌, Option, none, some, Result, ok, err, bind_ok, ◌==◌, if◌then◌else◌,
}
use oprf_service.Algebra.Field.{Field}
use oprf_service.Types.Chain.{Report, try_u256_into_bjj_fr, try_collect}
use oprf_service.KeyGen.Values.{Contributions, full, shamir}

pub data KeyRegistryEvent (Fr : Type 0) : Type 0 where
  key_gen_round1 delete abort not_enough_producers : ℕ → KeyRegistryEvent Fr
  round2 finalize reshare_round1 : ℕ → ℕ → KeyRegistryEvent Fr
  round3 : ℕ → ℕ → Contributions Fr → KeyRegistryEvent Fr
  unknown : KeyRegistryEvent Fr

-- The first topic of a log: the hash of one of the contract's events, or something else.
pub data Topic : Type 0 where
  secret_gen_round1 secret_gen_round2 secret_gen_round3 secret_gen_finalize : Topic
  reshare_round1 reshare_round3 key_gen_abort key_deletion not_enough_producers : Topic
  other : ℕ → Topic

pub record Log (Data : Type 0) : Type 0 where
  pub topic0 : Option Topic
  pub data_of : Data
  pub block_number : Option ℕ
  pub log_index : Option ℕ

-- What `log_decode` makes of the bytes of each event: the key, and the epoch where the event has
-- one.
pub record Abi (Data : Type 0) : Type 0 where
  pub as_secret_gen_round1 : Data → Result Report ℕ
  pub as_secret_gen_round2 : Data → Result Report (ℕ × ℕ)
  pub as_secret_gen_round3 : Data → Result Report ℕ
  pub as_secret_gen_finalize : Data → Result Report (ℕ × ℕ)
  pub as_reshare_round1 : Data → Result Report (ℕ × ℕ)
  pub as_reshare_round3 : Data → Result Report (ℕ × (List ℕ × ℕ))
  pub as_key_gen_abort : Data → Result Report ℕ
  pub as_key_deletion : Data → Result Report ℕ
  pub as_not_enough_producers : Data → Result Report ℕ

unfoldable pub without_zeros : List ℕ → List ℕ
without_zeros [] = []
without_zeros (x ∷ xs) = let rest = without_zeros xs in if x == 0 then rest else x ∷ rest

module _ {Fr : Type 0} ⦃S : Field Fr⦄ where
  -- The coefficients that are not zero.
  unfoldable pub parse_lagrange : List ℕ → Result Report (List Fr)
  unfolding without_zeros try_collect
  parse_lagrange lagrange = try_collect try_u256_into_bjj_fr (without_zeros lagrange)

  -- `record_span_fields` and the traces around it are left out.
  unfoldable pub try_decode_log :
      {Data : Type 0} → Abi Data → Log Data → Result Report (KeyRegistryEvent Fr)
  unfolding parse_lagrange
  try_decode_log abi log = elim log.topic0 [
    | some secret_gen_round1 ↦
        bind_ok (abi.as_secret_gen_round1 log.data_of) (λ key_id. ok (key_gen_round1 key_id))
    | some secret_gen_round2 ↦
        bind_ok (abi.as_secret_gen_round2 log.data_of) (λ (key_id, epoch). ok (round2 key_id epoch))
    | some secret_gen_round3 ↦
        bind_ok (abi.as_secret_gen_round3 log.data_of) (λ key_id. ok (round3 key_id 0 full))
    | some secret_gen_finalize ↦
        bind_ok (abi.as_secret_gen_finalize log.data_of)
          (λ (key_id, epoch). ok (finalize key_id epoch))
    | some Topic.reshare_round1 ↦
        bind_ok (abi.as_reshare_round1 log.data_of)
          (λ (key_id, epoch). ok (KeyRegistryEvent.reshare_round1 key_id epoch))
    | some reshare_round3 ↦
        bind_ok (abi.as_reshare_round3 log.data_of) (λ (key_id, (lagrange, epoch)).
          bind_ok (parse_lagrange lagrange)
            (λ coefficients. ok (round3 key_id epoch (shamir coefficients))))
    | some key_gen_abort ↦ bind_ok (abi.as_key_gen_abort log.data_of) (λ key_id. ok (abort key_id))
    | some key_deletion ↦ bind_ok (abi.as_key_deletion log.data_of) (λ key_id. ok (delete key_id))
    | some Topic.not_enough_producers ↦
        bind_ok (abi.as_not_enough_producers log.data_of)
          (λ key_id. ok (KeyRegistryEvent.not_enough_producers key_id))
    | some (other hash) ↦ ok unknown
    | none ↦ ok unknown
  ]
