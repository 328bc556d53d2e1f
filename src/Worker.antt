-- ===== src/Worker.antt =====
-- project/workers: the connections of a worker process.
pub mod Os
pub mod Connection
pub mod Banned
pub mod Process
