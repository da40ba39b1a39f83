-- ===== src/Net.antt =====
-- kernel/net: TCP sockets.
pub mod Tcp
