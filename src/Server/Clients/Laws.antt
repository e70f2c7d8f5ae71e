-- ===== src/Server/Clients/Laws.antt =====
-- What the calls on the list of clients of src/server.c do to it.
use barehttp.Base.{ℕ, ◌+◌, ◌≡◌, refl, arith, [], ◌∷◌, none, some, ◌==◌, if◌then◌else◌, ap, ◌∙◌}
use barehttp.Os.{Os, Trace, closed}
use barehttp.Server.Clients.{
  ClientData, Clients, client_at, update_client, add_client, remove_client, free_clients,
}

-- No address stands in the list twice.
unfoldable pub IsDistinct : Clients → Type 0
IsDistinct [] = Unit {0}
IsDistinct ((q, d) ∷ cs) = (client_at cs q ≡ none) × IsDistinct cs

pub remove_client-at :
    (cs : Clients) (p q : ℕ)
    → IsDistinct cs
    → client_at (remove_client cs p) q ≡ (if p == q then none else client_at cs q)
unfolding client_at remove_client IsDistinct
remove_client-at [] p q h = ground arith
remove_client-at ((r, d) ∷ cs) p q (n, h) = ground (arith, remove_client-at cs p q h)

pub remove_client-IsDistinct :
    (cs : Clients) (p : ℕ) → IsDistinct cs → IsDistinct (remove_client cs p)
unfolding remove_client IsDistinct
remove_client-IsDistinct [] p h = tt
remove_client-IsDistinct ((r, d) ∷ cs) p (n, h) =
    ground (arith, remove_client-at cs p r h, remove_client-IsDistinct cs p h)

pub update_client-at :
    (cs : Clients) (p q : ℕ) (d d' : ClientData)
    → client_at cs p ≡ some d
    → client_at (update_client cs p d') q ≡ (if p == q then some d' else client_at cs q)
unfolding client_at update_client
update_client-at [] p q d d' h = ground arith
update_client-at ((r, e) ∷ cs) p q d d' h = ground (arith, update_client-at cs p q d d')

update_client-none :
    (cs : Clients) (p q : ℕ) (d' : ClientData)
    → client_at cs q ≡ none
    → client_at (update_client cs p d') q ≡ none
unfolding client_at update_client
update_client-none [] p q d' h = h
update_client-none ((r, e) ∷ cs) p q d' h = ground (arith, update_client-none cs p q d')

pub update_client-IsDistinct :
    (cs : Clients) (p : ℕ) (d' : ClientData) → IsDistinct cs → IsDistinct (update_client cs p d')
unfolding update_client IsDistinct
update_client-IsDistinct [] p d' h = tt
update_client-IsDistinct ((r, e) ∷ cs) p d' (n, h) =
    ground (arith, update_client-none cs p r d' n, update_client-IsDistinct cs p d' h)

pub add_client-at :
    (cs : Clients) (p q : ℕ) (d : ClientData)
    → IsDistinct cs
    → client_at cs p ≡ none
    → (client_at (add_client cs p d) q ≡ (if p == q then some d else client_at cs q))
      × IsDistinct (add_client cs p d)
unfolding add_client client_at IsDistinct
add_client-at cs p q d h n = (refl, (n, h))

-- In a list with no address twice, put in a client at a new address and then take out the one at any
-- address: nothing stands at that address, the new client at its own if that is another, and what
-- stood there before at every other; no address stands in the list twice afterwards.
clients_lem :
    (cs : Clients) (p r q : ℕ) (d : ClientData)
    → IsDistinct cs
    → client_at cs p ≡ none
    → let after = remove_client (add_client cs p d) r in
      (client_at after q ≡ (if r == q then none else (if p == q then some d else client_at cs q)))
      × IsDistinct after
clients_lem cs p r q d h n =
    let (at, distinct) = add_client-at cs p q d h n in
    (
      remove_client-at (add_client cs p d) r q distinct ∙ ap (λ o. if r == q then none else o) at,
      remove_client-IsDistinct (add_client cs p d) r distinct,
    )

unfoldable close_count : ℕ → Trace → ℕ
close_count fd [] = 0
close_count fd (closed g r ∷ t) = let n = close_count fd t in if g == fd then n + 1 else n
close_count fd (e ∷ t) = close_count fd t

unfoldable clients_with : ℕ → Clients → ℕ
clients_with fd [] = 0
clients_with fd ((p, d) ∷ cs) = let n = clients_with fd cs in if d.fd == fd then n + 1 else n

-- `free_clients` closes each descriptor exactly as often as clients in the list have it.
free_clients_lem :
    (os : Os) (cs : Clients) (fd : ℕ) (t : Trace)
    → close_count fd (free_clients os cs t).1 ≡ clients_with fd cs + close_count fd t
unfolding free_clients close_count clients_with
free_clients_lem os [] fd t = omega arith
free_clients_lem os ((p, d) ∷ cs) fd t =
    ground (arith, free_clients_lem os cs fd (closed d.fd (os.close t d.fd) ∷ t))
