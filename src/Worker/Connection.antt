-- ===== src/Worker/Connection.antt =====
-- project/workers/src/client_connection.cpp: the connection of a client, a state machine that
-- connection_processing advances at each event on its sockets.
pub mod Stage
pub mod Progress
pub mod Receive
pub mod Send
pub mod SendFile
pub mod SendBody
pub mod Block
pub mod Respond
pub mod Proxy
pub mod Processing
pub mod Sockets
