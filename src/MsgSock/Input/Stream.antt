-- ===== src/MsgSock/Input/Stream.antt =====
-- The turns of `input`, and any number of calls of it, keep to the stream.
use xdrpp.Common.{List, [], ◌∷◌}
use xdrpp.MsgSock.Input.{ReadResult, got}
use xdrpp.MsgSock.Input.Frames.{AreBytes, Steps}

-- The kernel hands over bytes.
abbrev pub HasBytes : ReadResult → Type 0
HasBytes (got bs) = AreBytes bs
HasBytes _ = Unit

abbrev pub AllHaveBytes : List ReadResult → Type 0
AllHaveBytes [] = Unit
AllHaveBytes (a ∷ answers) = HasBytes a × AllHaveBytes answers

abbrev pub AllCallsHaveBytes : List (ReadResult × ReadResult × ReadResult) → Type 0
AllCallsHaveBytes [] = Unit
AllCallsHaveBytes ((a, b, c) ∷ calls) =
    (HasBytes a × HasBytes b × HasBytes c) × AllCallsHaveBytes calls
