-- ===== src/MsgSock.antt =====
-- xdrpp/msgsock.h and msgsock.cc: delimited messages over a stream socket.
pub mod Input
pub mod Output
pub mod Rpc
