-- ===== src/Boot.antt =====
-- tincd/boot: how a new node joins the network over HTTP.
pub mod Token
pub mod Exchange
