-- ===== src/Client/Sockets/Frames.antt =====
-- What a client reads of what a node sends: its message, or a close frame for its error.
use oprf_service.Base.{
  ℕ, ◌<◌, ◌≡◌, ◌≢◌, ◌⊎◌, inl, inr, Bool-cases, refl, List, Option, none, some, Result, ok, err,
  arith, ◌==◌,
}
use oprf_service.Types.{OprfErrorKind, from_code, from_other_code}
use oprf_service.Service.Session.{
  Error, into_close_frame, handle_secret_manager_error, handle_axum_error, axum, auth,
  session_reuse, connection_closed, unexpected_message, json, cbor, blinded_query_is_identity,
  threshold_contributing_parties_missmatch, missing_my_coefficient, contributions_not_sorted,
  duplicate_coefficients, secret_manager, reset_without_closing_handshake, connection_reset,
  capacity, other, unknown_oprf_key_id, deleted_oprf_key_id, internal,
}
use oprf_service.Client.Sessions.{NodeError, ServiceError, service_error, ws_error}
use oprf_service.Client.Sockets.{Message, Reasons, binary, close, text, msg_of, read, read_close}
use oprf_service.Client.Sockets.Wasm.{
  WasmMessage, WebSocketError, bytes, connection_close, connection_error, wasm_read,
}
use oprf_service.Client.Sockets.Wasm as Wasm

module _ {E Msg : Type 0} where
  -- A frame with the code, where the error has one; the stream ends after it.
  abbrev pub frame_for : List ℕ → Option ℕ → Option (Result E (Message Msg))
  frame_for reason none = none
  frame_for reason (some code) = some (ok (close (some (record { code = code; reason = reason }))))

  abbrev pub sent : List ℕ → Result Error Msg → Option (Result E (Message Msg))
  sent reason (ok msg) = some (ok (binary (some msg)))
  sent reason (err e) = frame_for reason (into_close_frame e)

-- What a node means by an error: the code that its authenticator has chosen, a kind of its own, or
-- nothing, if the stream ends.
pub data Meaning : Type 0 where
  coded : ℕ → Meaning
  kinded : OprfErrorKind → Meaning
  nothing : Meaning

abbrev pub meaning_of : Error → Meaning
meaning_of (auth code) = coded code
meaning_of connection_closed = nothing
meaning_of (axum reset_without_closing_handshake) = nothing
meaning_of (axum connection_reset) = nothing
meaning_of (axum capacity) = kinded OprfErrorKind.size
meaning_of (axum other) = kinded OprfErrorKind.internal
meaning_of (session_reuse _) = kinded OprfErrorKind.session_reuse
meaning_of unexpected_message = kinded OprfErrorKind.unsupported
meaning_of json = kinded OprfErrorKind.corrupted_message
meaning_of cbor = kinded OprfErrorKind.corrupted_message
meaning_of blinded_query_is_identity = kinded OprfErrorKind.blinded_query_is_identity
meaning_of (threshold_contributing_parties_missmatch _ _) =
    kinded OprfErrorKind.coefficients_does_not_equal_threshold
meaning_of missing_my_coefficient = kinded OprfErrorKind.missing_my_coefficient
meaning_of contributions_not_sorted = kinded OprfErrorKind.unsorted_contributing_parties
meaning_of duplicate_coefficients = kinded OprfErrorKind.duplicate_coefficient
meaning_of (secret_manager (unknown_oprf_key_id _)) = kinded OprfErrorKind.unknown_oprf_key_id
meaning_of (secret_manager (deleted_oprf_key_id _)) = kinded OprfErrorKind.deleted_oprf_key_id
meaning_of (secret_manager internal) = kinded OprfErrorKind.internal

-- A code of the range for authenticators is of the kind for them.
abbrev pub IsAuth : ℕ → Type 0
IsAuth code = (code < 4500) ⊎ (4999 < code) ⊎ (from_code code ≡ OprfErrorKind.auth)

code-IsAuth : (code : ℕ) → IsAuth code
unfolding from_code from_other_code
code-IsAuth code = ground arith

module _ {E A : Type 0} (reasons : Reasons E) where
  -- By what a node means: the error that the client ends with. The code for a normal end is taken for
  -- a stream that is closed too early.
  abbrev pub Reports : List ℕ → Meaning → Result (NodeError E) A → Type 0
  Reports reason nothing r = r ≡ err (ws_error reasons.unexpected_close)
  Reports reason (kinded kind) r =
      (refused : ServiceError) × (r ≡ err (service_error refused))
      × (from_code refused.error_code ≡ kind)
      × (refused.msg ≡ msg_of reason)
  Reports reason (coded code) r =
      ((code ≡ 1000) × (r ≡ err (ws_error reasons.closed_without_finishing)))
      ⊎ ((code ≢ 1000)
          × (r ≡ err (service_error (record { error_code = code; msg = msg_of reason })))
          × IsAuth code)

module _ {E : Type 0} (reasons : Reasons E) where
  coded-Reports :
      (Msg : Type 0) (reason : List ℕ) (code : ℕ)
      → Reports {A = Msg} reasons reason (coded code) (
          read {Msg = Msg} reasons
            (some (ok (close (some (record { code = code; reason = reason }))))))
  unfolding read read_close
  coded-Reports Msg reason code = elim (Bool-cases (code == 1000)) [
    | inl q ↦ inl (ground (arith, q), rw q refl)
    | inr q ↦ inr (ground (arith, q), rw q refl, code-IsAuth code)
  ]

  pub read-Reports :
      (Msg : Type 0) (reason : List ℕ) (e : Error)
      → Reports {A = Msg} reasons reason
          (meaning_of e)
          (read {Msg = Msg} reasons (sent reason (err e)))
  unfolding read read_close into_close_frame handle_secret_manager_error handle_axum_error from_code
      from_other_code
  read-Reports Msg reason (auth code) = coded-Reports Msg reason code
  read-Reports Msg reason connection_closed = refl
  read-Reports Msg reason (axum reset_without_closing_handshake) = refl
  read-Reports Msg reason (axum connection_reset) = refl
  read-Reports Msg reason (axum e) =
      (record { error_code = _; msg = msg_of reason }, refl, refl, refl)
  read-Reports Msg reason (secret_manager (unknown_oprf_key_id id)) =
      (record { error_code = _; msg = msg_of reason }, refl, refl, refl)
  read-Reports Msg reason (secret_manager e) =
      (record { error_code = _; msg = msg_of reason }, refl, refl, refl)
  read-Reports Msg reason e = (record { error_code = _; msg = msg_of reason }, refl, refl, refl)

module _ {E Msg : Type 0} (reasons : Reasons E) where
  -- What a browser gives for what a socket would.
  abbrev native :
      Option (Result (WebSocketError E) (WasmMessage Msg)) → Option (Result E (Message Msg))
  native none = none
  native (some (ok (bytes msg))) = some (ok (binary msg))
  native (some (ok Wasm.text)) = some (ok text)
  native (some (err (connection_close event))) = some (ok (close (some event)))
  native (some (err (connection_error e))) = some (err e)

  wasm_read-read :
      (next : Option (Result (WebSocketError E) (WasmMessage Msg)))
      → wasm_read reasons next ≡ read reasons (native next)
  unfolding wasm_read read read_close
  wasm_read-read none = refl
  wasm_read-read (some (ok (bytes none))) = refl
  wasm_read-read (some (ok (bytes (some msg)))) = refl
  wasm_read-read (some (ok Wasm.text)) = refl
  wasm_read-read (some (err (connection_close event))) = refl
  wasm_read-read (some (err (connection_error e))) = refl
