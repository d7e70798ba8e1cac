-- ===== src/Srpc/Serve.antt =====
-- `srpc_server::run` of xdrpp/srpc.cc, and a socket with that server at its other end.
use xdrpp.Common.{ℕ, Bool, Option, some, List, [], ◌∷◌, length}
use xdrpp.Common.Result.{ok}
use xdrpp.Types.{Schema}
use xdrpp.Message.{raw_data}
use xdrpp.MsgSock.Input.{ReadResult, got}
use xdrpp.Server.Registry.{Servers}
use xdrpp.Server.Dispatch.{Attempt, dispatch}
use xdrpp.Srpc.{ReadMessage, received, read_message}

-- One turn of the loop: a message is read and dispatched, or `read_message` throws.
pub data Turn : Type 0 where
  served : Attempt → List ReadResult → Turn
  stopped : ReadMessage → Turn

module _ (is_big_endian : Bool) (application : Schema) (depth limit : ℕ) where
  unfoldable pub serve_read : Servers → ReadMessage → Turn
  serve_read servers (received content kernel) =
      served (dispatch is_big_endian application depth limit servers content) kernel
  serve_read servers r = stopped r

  unfoldable pub run_once : Servers → List ReadResult → Turn
  unfolding serve_read
  run_once servers kernel = serve_read servers (read_message is_big_endian kernel)

-- What the peer of the server can read after a turn.
unfoldable pub answered : Turn → List ReadResult
answered (served ((some m ∷ []), ok e) kernel) = got (raw_data m) ∷ []
answered _ = []

-- The socket takes a message as a whole, in one piece, and then has the server's reply to it.
unfoldable pub loopback : Bool → Schema → ℕ → ℕ → Servers → List ℕ → Option ℕ × List ReadResult
unfolding run_once answered
loopback is_big_endian application depth limit servers raw = (
  some (length raw),
  answered (run_once is_big_endian application depth limit servers (got raw ∷ [])),
)
