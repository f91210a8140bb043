-- ===== src/Tests/Rounds.antt =====
-- Runs of the rounds of key generation and of the retries around the database.
use oprf_service.Base.{
  ℕ, suc, zero, ◌≤◌, ◌<◌, ◌≡◌, refl, ap, ◌∙◌, List, [], ◌∷◌, Option, none, some, ok, arith,
}
use oprf_service.Algebra.Five.{Five, g0, g1, g2, g3, g4, five}
use oprf_service.Algebra.Line.{line}
use oprf_service.Core.Shamir.{dot}
use oprf_service.Core.Keygen.{new}
use oprf_service.Core.Keygen.Dealing.{key_share}
use oprf_service.Types.Chain.{
  SecretGenCiphertext, ciphertext_into, ciphertext_try_from, ciphertext_try_from-into,
}
use oprf_service.KeyGen.Db.{
  Db, pool_timed_out, get_share_by_epoch, fetch_keygen, store_chain_cursor, ChainCursor,
}
use oprf_service.KeyGen.Db.Rows.{find_row}
use oprf_service.KeyGen.Effects.{◌>>◌}
use oprf_service.KeyGen.Retry.{
  Backon, Attempt, reached, unacknowledged, Store, retry_after, retry_constant, with_retry,
}
use oprf_service.KeyGen.Retry.Once.{RunsOnce, with_retry-RunsOnce}
use oprf_service.KeyGen.Postgres.{writes}
use oprf_service.KeyGen.Postgres.Stable.{store_chain_cursor-IsStable}
use oprf_service.KeyGen.Direct.{direct_manager}
use oprf_service.KeyGen.Values.{
  KeyGenIntermediateValues, Randomness, new_values, full, shamir, decrypt_key_gen_ciphertexts,
}
use oprf_service.KeyGen.Values.Decrypt.{
  Producer, sent_each, keys_of, dealers_of, dealt_shares, decrypt_key_gen_ciphertexts-sent_each,
}
use oprf_service.KeyGen.Rounds.{key_gen_round1, round3, finalize}
use oprf_service.KeyGen.Rounds.Again.{key_gen_round1-again}
use oprf_service.KeyGen.Rounds.Finish.{key_gen_round1-round3-finalize}

-- The retry of backon, as `retry_constant` does it.
pub constant_backoff : {St E A : Type 0} → Backon St E A
unfolding retry_constant
constant_backoff = record {
  retry = retry_constant;
  retry-zero = λ accepts f s. refl;
  retry-ok = λ n accepts f s a s' e. ap (retry_after accepts (retry_constant n accepts f)) e;
  retry-refused = λ n accepts f s x s' e q.
      ap (retry_after accepts (retry_constant n accepts f)) e ∙ rw (retry_after, q) refl;
  retry-again = λ n accepts f s x s' e q.
      ap (retry_after accepts (retry_constant n accepts f)) e ∙ rw (retry_after, q) refl;
}

abbrev pub Values : Type 0
Values = KeyGenIntermediateValues Five Five Five

abbrev pub tables : Db Five Five Values
tables = record {
  shares = [];
  in_progress_keygens = [];
  chain_cursor = record { block = 9223372036854775808; idx = 9223372036854775808 };
  node_information = none;
}

abbrev producers : List (Producer Five Five Five)
producers =
    record {
      dealer = record { id = 1; secret = g3; coeffs = g2 ∷ [] };
      comm_share = g3;
      comm_coeffs = g1;
      sk = g2;
      nonce = g4;
    }
    ∷ record {
      dealer = record { id = 2; secret = g4; coeffs = g4 ∷ [] };
      comm_share = g4;
      comm_coeffs = g1;
      sk = g3;
      nonce = g1;
    }
    ∷ []

decrypt_key_gen_ciphertexts-sent_each_example :
    (ciphers : List (SecretGenCiphertext Five Five)) × (sent_each line 1 g3 producers
      ≡ some ciphers)
    × (decrypt_key_gen_ciphertexts line ciphers
          (record { sk = g3; poly = none })
          full
          (keys_of line producers)
        ≡ some (ok (key_share (dealers_of line producers) g2)))
    × (decrypt_key_gen_ciphertexts line ciphers
          (record { sk = g3; poly = none })
          (shamir (g1 ∷ g4 ∷ []))
          (keys_of line producers)
        ≡ some (ok (dot g0 (dealt_shares line 1 producers) (g1 ∷ g4 ∷ []))))
decrypt_key_gen_ciphertexts-sent_each_example =
    decrypt_key_gen_ciphertexts-sent_each line 1 g3 none (g1 ∷ g4 ∷ []) producers (omega arith) refl

-- Its own randomness.
abbrev pub rng : Randomness Five
rng = record { secret = g4; coeff = λ i. g2; sk = g3 }

abbrev values_of : Option Values → Values
values_of (some v) = v
values_of none = record { sk = g0; poly = none }

abbrev fresh_rng : Randomness Five
fresh_rng = record { secret = g1; coeff = λ i. g3; sk = g1 }

abbrev point : Five → Five → Five
point px py = px

rng_values : new_values line 1 rng ≡ some (values_of (new_values line 1 rng))
unfolding new_values new
rng_values = refl

abbrev dealing : Values
dealing = values_of (new_values line 1 rng)

key_gen_round1-round3-finalize_example :
    (ciphers : List (SecretGenCiphertext Five Five)) × (after : Db Five Five Values) × (sent_each
        line 1 g3 producers
      ≡ some ciphers)
    × ((key_gen_round1 line point direct_manager 7 0 2 rng
            >> (round3 line point direct_manager 7 0 ciphers full (keys_of line producers)
                >> finalize line point direct_manager 7 0 g2))
          tables
        ≡ (some (ok tt), after))
    × (get_share_by_epoch 7 0 after ≡ ok (some (key_share (dealers_of line producers) g2)))
unfolding find_row fetch_keygen
key_gen_round1-round3-finalize_example =
    key_gen_round1-round3-finalize line point 7 0 1 2 rng dealing producers g2 tables (omega arith)
      rng_values refl refl

fresh_values : new_values line 2 fresh_rng ≡ some (values_of (new_values line 2 fresh_rng))
unfolding new_values new
fresh_values = refl

key_gen_round1-again_example :
    key_gen_round1 line point direct_manager 7 0 3 fresh_rng
      (key_gen_round1 line point direct_manager 7 0 2 rng tables).1
    ≡ key_gen_round1 line point direct_manager 7 0 2 rng tables
key_gen_round1-again_example =
    key_gen_round1-again line point 7 0 2 3 rng fresh_rng dealing
      (values_of (new_values line 2 fresh_rng)) tables rng_values fresh_values

-- The first attempt is run, but its answer is lost; the second reaches the database.
abbrev pub lossy : ℕ → Attempt
lossy zero = unacknowledged pool_timed_out
lossy (suc n) = reached

abbrev cursor : ChainCursor
cursor = record { block = 3; index = 4 }

abbrev pub store : Store Five Five Values
store = record { db = tables; now = 0 }

with_retry-RunsOnce_example :
    RunsOnce
      (writes (store_chain_cursor cursor))
      tables
      (with_retry lossy constant_backoff 2 (writes (store_chain_cursor cursor)) store)
    × (0 < (with_retry lossy constant_backoff 2 (writes (store_chain_cursor cursor)) store).1.now)
    × ((with_retry lossy constant_backoff 2 (writes (store_chain_cursor cursor)) store).1.now ≤ 3)
with_retry-RunsOnce_example =
    with_retry-RunsOnce (writes (store_chain_cursor cursor)) (store_chain_cursor-IsStable cursor)
      lossy constant_backoff 2 store

abbrev on_line : Five → Five → Five
on_line px py = px

abbrev ciphertext : SecretGenCiphertext Five Five
ciphertext = record { nonce = g2; cipher = g4; commitment = g3 }

ciphertext_try_from-into_example :
    ciphertext_try_from line on_line (ciphertext_into line on_line ciphertext) ≡ ok ciphertext
ciphertext_try_from-into_example =
    ciphertext_try_from-into line on_line ciphertext refl (refl, refl)
