-- ===== src/Examples/Async.antt =====
-- Asynchronous calls, and the xids of a socket.
use xdrpp.Common.{◌≡◌, refl, arith, true, false, some, [], ◌∷◌}
use xdrpp.Common.Result.{ok, throw, overflow}
use xdrpp.Endian.{swap32, swap32le}
use xdrpp.Types.{uint32, kind, with_mem_ptr, labelled_field}
use xdrpp.Marshal.{load32}
use xdrpp.Marshal.Words.{be32}
use xdrpp.Marshal.Bytes.{padded}
use xdrpp.Marshal.Put.Encode.{encode}
use xdrpp.Message.Args.{encode_args}
use xdrpp.MsgSock.Rpc.{Rpc, find, word, get_xid, send_call}
use xdrpp.MsgSock.Rpc.Xids.{get_xid-send_call_clash}
use xdrpp.RpcMsg.{rpc_schema}
use xdrpp.Server.Errors.{framed}
use xdrpp.Server.Dispatch.Routes.{find_proc, call_hdr}
use xdrpp.Srpc.EndToEnd.{prepared}
use xdrpp.Arpc.{result, no_result, Callback, AsyncProcedure, AsyncService, async_served}
use xdrpp.Arpc.Replying.{IsCall, find_async, async_served_once}
use xdrpp.Arpc.Loopback.{Completes, invoke-Completes}
use xdrpp.Examples.Data.{schema}
use xdrpp.Examples.Rpc.{
  servers, echo_service, echo_proc, seven, seven-Fits, arg-Fits, call-IsServed,
}

-- Two calls are waiting, under the keys 1 and 0x02000000.
abbrev waiting : Rpc
waiting = record {
  calls = (1, 70) ∷ (33554432, 71) ∷ [];
  has_servcb = false;
  effects = [];
  sent = [];
}

get_xid-send_call_clash_example :
    (get_xid 1 1 waiting.calls ≡ some 2)
    × (send_call false (0 ∷ 0 ∷ 0 ∷ 2 ∷ []) 80 waiting
        ≡ ok (record waiting { sent = (0 ∷ 0 ∷ 0 ∷ 2 ∷ []) ∷ [] }))
unfolding find word load32 swap32
get_xid-send_call_clash_example =
    get_xid-send_call_clash 0 1 80 71 (0 ∷ 0 ∷ 0 ∷ 2 ∷ []) waiting refl refl refl

abbrev quiet : Callback
quiet r = ok tt

invoke-Completes_example :
    Completes false true schema 3 0 5 6 7 200 3 1 servers seven seven 80 quiet waiting
unfolding find find_proc encode kind be32 with_mem_ptr labelled_field padded get_xid swap32le swap32
invoke-Completes_example =
    invoke-Completes false true schema 3 0 5 6 7 200 3 1 servers echo_service echo_proc seven seven
      80 quiet waiting refl refl
      (
        omega arith,
        (
          omega arith,
          omega arith,
          omega arith,
          omega arith,
          (omega arith, omega arith),
          (omega arith, omega arith),
        ),
      )
      call-IsServed refl refl (arg-Fits, tt) refl (seven-Fits, tt) (omega arith) (omega arith) refl

-- A callback that does not like results.
abbrev picky : Callback
picky (result vs) = throw overflow
picky (no_result s) = ok tt

-- Procedure 1 makes no reply, and procedure 2 throws.
abbrev silent : AsyncProcedure
silent = record { proc = 1; arg = uint32 ∷ []; method = λ vs. ([], ok tt) }

abbrev failing : AsyncProcedure
failing = record { proc = 2; arg = uint32 ∷ []; method = λ vs. ([], throw overflow) }

abbrev async_service : AsyncService
async_service = record { base = echo_service; procs = silent ∷ failing ∷ [] }

silent-IsCall : IsCall false schema 3 0 async_service (prepared 200 3 1) silent seven
unfolding find_async
silent-IsCall = record {
  version = refl;
  same_prog = refl;
  same_vers = refl;
  found = refl;
  typed = refl;
  fits = (arg-Fits, tt);
}

failing-IsCall : IsCall false schema 3 0 async_service (prepared 200 3 2) failing seven
unfolding find_async
failing-IsCall = record {
  version = refl;
  same_prog = refl;
  same_vers = refl;
  found = refl;
  typed = refl;
  fits = (arg-Fits, tt);
}

async_served_once_example :
    async_served false schema 3 6 async_service
      (call_hdr 9 (prepared 200 3 1))
      (prepared 200 3 1)
      (encode_args (rpc_schema schema) 6 seven)
    ≡ (some (framed (9 ∷ 1 ∷ 0 ∷ 0 ∷ 0 ∷ 3 ∷ [])) ∷ [], ok tt)
async_served_once_example =
    async_served_once false schema 3 0 async_service 9 (prepared 200 3 1) silent seven [] []
      (omega arith) silent-IsCall refl tt
