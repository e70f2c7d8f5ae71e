-- ===== src/Server/Epoll.antt =====
-- src/server.c: `epoll_server`, the loop that serves all clients on one thread. `Client` is what it
-- does when a client's descriptor is ready, `Loop` the rest.
pub mod Client
pub mod Loop
pub mod Files
mod Examples
