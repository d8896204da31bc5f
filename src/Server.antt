-- ===== src/Server.antt =====
-- Source/WisentServer.cpp: the command line, the requests, and the end of the server. httplib is
-- third-party code: a request is what its accessors return, and requests come one after another.
pub mod Options
pub mod Paths
pub mod Timings
pub mod Serializers
pub mod Requests
pub mod Files
pub mod Exit
pub mod Main
