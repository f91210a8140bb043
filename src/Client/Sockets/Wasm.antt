-- ===== src/Client/Sockets/Wasm.antt =====
-- oprf-client/src/ws/wasm.rs: how a client in a browser reads, where a close frame is an error.
use oprf_service.Base.{Option, none, some, Result, ok, err, ◌==◌, if◌then◌else◌}
use oprf_service.Client.Sessions.{NodeError, service_error, ws_error, unexpected_message}
use oprf_service.Client.Sockets.{CloseFrame, Reasons, msg_of}

pub data WasmMessage (M : Type 0) : Type 0 where
  bytes : Option M → WasmMessage M
  text : WasmMessage M

pub data WebSocketError (E : Type 0) : Type 0 where
  connection_close : CloseFrame → WebSocketError E
  connection_error : E → WebSocketError E

module _ {E Msg : Type 0} (reasons : Reasons E) where
  unfoldable pub wasm_read :
      Option (Result (WebSocketError E) (WasmMessage Msg)) → Result (NodeError E) Msg
  unfolding msg_of
  wasm_read (some (ok (bytes (some msg)))) = ok msg
  wasm_read (some (ok (bytes none))) = err (unexpected_message reasons.could_not_parse)
  wasm_read (some (ok text)) = err (unexpected_message reasons.text_frame)
  wasm_read (some (err (connection_close event))) =
      if event.code == 1000
      then err (ws_error reasons.closed_without_finishing)
      else err (service_error (record { error_code = event.code; msg = msg_of event.reason }))
  wasm_read (some (err (connection_error e))) = err (ws_error e)
  wasm_read none = err (ws_error reasons.unexpected_close)
