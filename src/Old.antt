-- ===== src/Old.antt =====
-- socket_old and listenserver_old: earlier servers, which no other part uses.
pub mod ServerSocket
pub mod ListenServer
