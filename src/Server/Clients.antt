-- ===== src/Server/Clients.antt =====
-- src/server.c: the list of clients that the epoll loop keeps (`struct _client_data`, `add_client`,
-- `remove_client`, `free_clients`).
pub mod Laws
use barehttp.Base.{ℕ, List, [], ◌∷◌, Option, none, some, ◌==◌, if◌then◌else◌, ℤ}
use barehttp.CString.{Bytes}
use barehttp.Os.{Os, M, pure, ◌>>=◌, ◌>>◌}
use barehttp.Tcp.{close}
use barehttp.Http.{HttpRequest}

-- `client_state`.
pub data ClientState : Type 0 where
  client_reading_headers : ClientState
  client_reading_body : ClientState
  client_sending_response : ClientState

-- `struct _client_data` without `next`; `rq` is the whole array.
pub record ClientData : Type 0 where
  pub fd : ℕ
  pub state : ClientState
  pub rq : Bytes
  pub rq_size : ℕ
  pub http_rq : HttpRequest
  pub last_len : ℕ
  pub body_len : ℤ
  pub header_len : ℕ

-- The structures that the links lead through, each with its address.
abbrev pub Clients : Type 0
Clients = List (ℕ × ClientData)

-- What a pointer to a client leads to: `none` where no client stands at the address.
unfoldable pub client_at : Clients → ℕ → Option ClientData
client_at [] client = none
client_at ((aux, d) ∷ clients) client =
    let rest = client_at clients client in if aux == client then some d else rest

abbrev pub addresses : Clients → List ℕ
addresses [] = []
addresses ((aux, d) ∷ clients) = aux ∷ addresses clients

-- A client after writes through a pointer to it.
unfoldable pub update_client : Clients → ℕ → ClientData → Clients
update_client [] client d' = []
update_client ((aux, d) ∷ clients) client d' =
    let rest = update_client clients client d' in
    if aux == client then (aux, d') ∷ clients else (aux, d) ∷ rest

unfoldable pub add_client : Clients → ℕ → ClientData → Clients
add_client clients client d = (client, d) ∷ clients

unfoldable pub remove_client : Clients → ℕ → Clients
remove_client [] client = []
remove_client ((aux, d) ∷ clients) client =
    let rest = remove_client clients client in if aux == client then clients else (aux, d) ∷ rest

unfoldable pub free_clients : Os → Clients → M (Unit {0})
free_clients os [] = pure tt
free_clients os ((aux, d) ∷ clients) = do close os d.fd; free_clients os clients
