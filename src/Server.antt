-- ===== src/Server.antt =====
-- src/server.c: the work of a thread of the pool on the connections that it takes out of the queue, and
-- the epoll loop with its list of clients, the configuration and `main`.
pub mod Worker
pub mod Arrival
pub mod Clients
pub mod Epoll
pub mod Conf
pub mod Main
mod Examples
