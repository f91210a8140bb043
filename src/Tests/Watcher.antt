-- ===== src/Tests/Watcher.antt =====
-- Runs of the event watcher and of the transaction handler.
use oprf_service.Base.{ℕ, suc, refl, List, [], ◌∷◌, false, none, some, Result, ok, err}
use oprf_service.Algebra.Five.{Five, g2, five}
use oprf_service.Algebra.Line.{line}
use oprf_service.Types.Chain.{Report, report}
use oprf_service.KeyGen.Db.{ChainCursor}
use oprf_service.KeyGen.Postgres.{postgres_manager}
use oprf_service.KeyGen.Manager.{manager_beside}
use oprf_service.KeyGen.Retry.{Store}
use oprf_service.KeyGen.Errors.{Decoder, already_submitted, tx_watcher_timeout}
use oprf_service.KeyGen.Events.{Abi, Log, key_deletion, KeyRegistryEvent}
use oprf_service.KeyGen.Transactions.{add_round3_contribution, Provider, TransactionHandler, submit}
use oprf_service.KeyGen.Transactions.Sent.{Counted, Submits, submit-Submits}
use oprf_service.KeyGen.Transactions.Runs.{ProviderKeeps}
use oprf_service.KeyGen.Handler.{Registry, KeyRegistryEventHandler, handle}
use oprf_service.KeyGen.Handler.Runs.{RegistryKeeps}
use oprf_service.KeyGen.Watcher.{Turn, next, Task, event_loop, open_stream, key_event_watcher_task}
use oprf_service.KeyGen.Watcher.Cursor.{Progress, IsDone, Same}
use oprf_service.KeyGen.Watcher.Flags.{Ends, Signals, key_event_watcher_task-Ends}
use oprf_service.KeyGen.Watcher.Tables.{World, Apart, over_postgres, cursor_service}
use oprf_service.KeyGen.Watcher.Serving.{Serving}
use oprf_service.KeyGen.Watcher.Writes.{Leaves, handle-Serves}
use oprf_service.KeyGen.Watcher.Resume.{cursor_row, event_loop-cursor}
use oprf_service.Tests.Rounds.{constant_backoff, Values, tables, rng, lossy, store}

-- The chain: how many transactions were sent, and how many receipts were asked for.
abbrev Chain : Type 0
Chain = ℕ × ℕ

-- A call of the chain beside other state.
abbrev on_chain : {St A : Type 0} → (Chain → A × Chain) → St × Chain → A × (St × Chain)
on_chain op (s, c) = let out = op c in (out.0, (s, out.1))

abbrev simulates : Chain → Result ℕ (Unit {0}) × Chain
simulates c = (ok tt, c)

abbrev sends : Chain → Result ℕ ℕ × Chain
sends (n, m) = (ok 99, (suc n, m))

-- A provider whose first wait times out; a receipt is its hash.
abbrev provider : {St : Type 0} → Provider (St × Chain) ℕ ℕ ℕ
provider = record {
  simulate = λ gas t. on_chain simulates;
  send = λ gas t. on_chain sends;
  get_receipt = λ confirmations timeout hash. on_chain (λ c. (err tx_watcher_timeout, c));
  get_transaction_receipt = λ hash. on_chain (λ (n, m). (ok (some hash), (n, suc m)));
  get_balance = λ address. on_chain (λ c. (ok 1000, c));
  ensure_success = λ receipt. ok tt;
  transaction_hash = λ receipt. receipt;
}

abbrev decoder : Decoder ℕ
decoder = record {
  as_registry_errors = λ e. some already_submitted;
  as_verifier_errors = λ e. none;
  as_wrong_round = λ e. none;
  as_deleted_id = λ e. none;
}

abbrev tx : TransactionHandler
tx = record {
  max_wait_time_watch_transaction = 10;
  confirmations_for_transaction = 1;
  max_tries_fetching_receipt = 5;
  max_gas_per_transaction = 10000000;
  wallet_address = 1;
}

counted : Counted {W = Unit {0} × Chain} provider (λ w. w.1.0) (λ w. w.1.1)
counted = record {
  simulate = λ gas t w. (refl, refl);
  send = λ gas t w. (refl, refl);
  get_receipt = λ confirmations timeout hash w. (refl, refl);
  get_transaction_receipt = λ hash w. (refl, refl);
  get_balance = λ address w. (refl, refl);
}

submit-Submits_example :
    Submits decoder
      (provider {St = Unit {0}})
      constant_backoff
      tx
      (λ w. w.1.0)
      (λ w. w.1.1)
      counted
      (tt, (0, 0))
      (ok tt)
      (submit decoder
        (provider {St = Unit {0}})
        constant_backoff
        tx
        (add_round3_contribution 7)
        (tt, (0, 0)))
submit-Submits_example =
    submit-Submits decoder (provider {St = Unit {0}}) constant_backoff tx (λ w. w.1.0) (λ w. w.1.1)
      counted (add_round3_contribution 7) (tt, (0, 0))

abbrev registry : {St : Type 0} → Registry (St × Chain) ℕ
registry = record {
  load_peer_public_keys_for_producers = λ id. on_chain (λ c. (ok [], c));
  get_oprf_public_key = λ id. on_chain (λ c. (ok (record { x = 2; y = 1 }), c));
  check_is_participant_and_return_round2_ciphers = λ id. on_chain (λ c. (ok [], c));
  load_peer_public_keys_for_consumers = λ id. on_chain (λ c. (ok [], c));
}

abbrev handler : KeyRegistryEventHandler (World Chain Five Five Five) Five Five Five ℕ ℕ ℕ ℕ
handler = record {
  contract = registry;
  decoder = decoder;
  secret_manager = manager_beside (postgres_manager lossy (λ A. constant_backoff) 2);
  key_gen_material = record {
    generate_proof = λ inputs. err report;
    verify_proof = λ proof inputs. ok tt;
  };
  threshold = 2;
  provider = provider;
  backon = constant_backoff;
  tx = tx;
  compress = λ proof. proof;
  new_unchecked = λ px py. px;
  rng = λ w. rng;
  draw = λ w i. g2;
}

-- The bytes of a log are its key.
abbrev abi : Abi ℕ
abi = record {
  as_secret_gen_round1 = λ d. ok d;
  as_secret_gen_round2 = λ d. ok (d, 0);
  as_secret_gen_round3 = λ d. ok d;
  as_secret_gen_finalize = λ d. ok (d, 0);
  as_reshare_round1 = λ d. ok (d, 1);
  as_reshare_round3 = λ d. ok (d, (2 ∷ 0 ∷ [], 1));
  as_key_gen_abort = λ d. ok d;
  as_key_deletion = λ d. ok d;
  as_not_enough_producers = λ d. ok d;
}

abbrev deletion : Log ℕ
deletion = record {
  topic0 = some key_deletion;
  data_of = 7;
  block_number = some 12;
  log_index = some 3;
}

abbrev turns : List (Turn ℕ)
turns = next (ok deletion) ∷ next (err report) ∷ []

abbrev build : ChainCursor → Result Report (List (Turn ℕ))
build cursor = ok turns

abbrev world : World Chain Five Five Five
world = (store, (0, 0))

abbrev task : Task (World Chain Five Five Five)
task = record { world = world; start_signal = false; cancellation = false }

registry-Apart : RegistryKeeps Apart (registry {St = Store Five Five Values})
registry-Apart = record {
  producers = λ id w. refl;
  public_key = λ id w. refl;
  ciphers = λ id w. refl;
  consumers = λ id w. refl;
}

provider-Apart : ProviderKeeps Apart (provider {St = Store Five Five Values})
provider-Apart = record {
  simulate = λ gas t w. refl;
  send = λ gas t w. refl;
  get_receipt = λ confirmations timeout hash w. refl;
  get_transaction_receipt = λ hash w. refl;
  get_balance = λ address w. refl;
}

abbrev deleting : KeyRegistryEvent Five
deleting = KeyRegistryEvent.delete 7

handle-Serves_example :
    Serving deleting tables
      (handle line (over_postgres lossy (λ A. constant_backoff) 2 handler) deleting world).1.0.db
    × Leaves deleting
        (handle line (over_postgres lossy (λ A. constant_backoff) 2 handler) deleting world)
handle-Serves_example =
    handle-Serves line lossy (λ A. constant_backoff) 2 handler registry-Apart provider-Apart
      deleting world

registry-Same : RegistryKeeps (Same cursor_row) (registry {St = Store Five Five Values})
registry-Same = record {
  producers = λ id w. refl;
  public_key = λ id w. refl;
  ciphers = λ id w. refl;
  consumers = λ id w. refl;
}

provider-Same : ProviderKeeps (Same cursor_row) (provider {St = Store Five Five Values})
provider-Same = record {
  simulate = λ gas t w. refl;
  send = λ gas t w. refl;
  get_receipt = λ confirmations timeout hash w. refl;
  get_transaction_receipt = λ hash w. refl;
  get_balance = λ address w. refl;
}

event_loop-cursor_example :
    Progress
      (IsDone line abi
        (over_postgres lossy (λ A. constant_backoff) 2 handler)
        (cursor_service lossy (λ A. constant_backoff) 2))
      turns
      (cursor_row world)
      (event_loop line abi
        (over_postgres lossy (λ A. constant_backoff) 2 handler)
        (cursor_service lossy (λ A. constant_backoff) 2)
        turns
        world).0
      (cursor_row
        (event_loop line abi
          (over_postgres lossy (λ A. constant_backoff) 2 handler)
          (cursor_service lossy (λ A. constant_backoff) 2)
          turns
          world).1)
event_loop-cursor_example =
    event_loop-cursor line abi lossy (λ A. constant_backoff) 2 handler registry-Same provider-Same
      turns world

key_event_watcher_task-Ends_example :
    Signals task
      (open_stream line abi handler (cursor_service lossy (λ A. constant_backoff) 2) build world).0
      (key_event_watcher_task line abi handler
        (cursor_service lossy (λ A. constant_backoff) 2)
        build
        task)
    × Ends task (
        key_event_watcher_task line abi handler
          (cursor_service lossy (λ A. constant_backoff) 2)
          build
          task)
key_event_watcher_task-Ends_example =
    key_event_watcher_task-Ends line abi handler (cursor_service lossy (λ A. constant_backoff) 2)
      build task
