-- ===== src/Client/Sockets.antt =====
-- The web-sockets of the client: oprf-client/src/ws/native.rs and ws/wasm.rs, and the calls of
-- oprf-client/src/sessions.rs that use them. A message that a peer sends is known by what it
-- deserializes to.
pub mod Wasm
pub mod Frames
pub mod Meets
use oprf_service.Base.{
  ℕ, List, [], ◌∷◌, Option, none, some, Result, ok, err, bind_ok, map_err, ◌==◌, if◌then◌else◌,
}
use oprf_service.Client.Sessions.{
  NodeError, ServiceError, service_error, ws_error, unexpected_message,
}

pub record CloseFrame : Type 0 where
  pub code : ℕ
  pub reason : List ℕ

pub data Message (M : Type 0) : Type 0 where
  text other : Message M
  binary : Option M → Message M
  close : Option CloseFrame → Message M

-- The texts that say what is unexpected, and the errors of a stream that ends and of one that is
-- closed too early.
pub record Reasons (E : Type 0) : Type 0 where
  pub could_not_parse : List ℕ
  pub text_frame : List ℕ
  pub non_binary_frame : List ℕ
  pub unexpected_close : E
  pub closed_without_finishing : E

-- `(!reason.is_empty()).then(..)`.
unfoldable pub msg_of : List ℕ → Option (List ℕ)
msg_of [] = none
msg_of (byte ∷ bytes) = some (byte ∷ bytes)

-- The stream: whether a message is written, and what comes next once it is.
pub record WebSocketSession (Uri E Req Msg : Type 0) : Type 0 where
  pub service : Uri
  pub write : Req → Result E (Unit {0})
  pub inner : Req → Option (Result E (Message Msg))

module _ {E Msg : Type 0} (reasons : Reasons E) where
  unfoldable pub read_close : Option CloseFrame → Result (NodeError E) Msg
  unfolding msg_of
  read_close none = err (ws_error reasons.closed_without_finishing)
  read_close (some frame) =
      if frame.code == 1000
      then err (ws_error reasons.closed_without_finishing)
      else err (service_error (record { error_code = frame.code; msg = msg_of frame.reason }))

  unfoldable pub read : Option (Result E (Message Msg)) → Result (NodeError E) Msg
  unfolding read_close
  read (some (err e)) = err (ws_error e)
  read none = err (ws_error reasons.unexpected_close)
  read (some (ok (binary (some msg)))) = ok msg
  read (some (ok (binary none))) = err (unexpected_message reasons.could_not_parse)
  read (some (ok (close frame))) = read_close frame
  read (some (ok text)) = err (unexpected_message reasons.text_frame)
  read (some (ok other)) = err (unexpected_message reasons.non_binary_frame)

module _ {Uri E Req Msg : Type 0} (reasons : Reasons E) where
  unfoldable pub send : WebSocketSession Uri E Req Msg → Req → Result (NodeError E) (Unit {0})
  send self msg = map_err ws_error (self.write msg)

  -- From whether the connection is established.
  unfoldable pub init_session :
      Result E (WebSocketSession Uri E Req Msg) → Req → Result (NodeError E) (Uri × Msg)
  unfolding send read
  init_session connected req = bind_ok (map_err ws_error connected) (λ session.
      bind_ok (send session req) (λ _.
        bind_ok (read reasons (session.inner req)) (λ response. ok (session.service, response))))

  unfoldable pub finish_session : WebSocketSession Uri E Req Msg → Req → Result (NodeError E) Msg
  unfolding send read
  finish_session session req = bind_ok (send session req) (λ _. read reasons (session.inner req))
