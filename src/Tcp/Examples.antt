-- ===== src/Tcp/Examples.antt =====
-- srclib/tcp.c over the sample system.
use barehttp.Base.{◌≡◌, ◌⊎◌, ℕ, pos, minus_one, []}
use barehttp.Os.Sample.{sample}
use barehttp.Tcp.{tcp_start_connection}
use barehttp.Tcp.Start.{socket_count, Started, tcp_start_connection_lem}

tcp_start_connection_lem_example :
    let r = tcp_start_connection sample (pos 8080) (pos 10) [] in
    ((fd : ℕ) × (r.0 ≡ (pos 0, pos fd)) × Started sample (pos 8080) (pos 10) [] fd r.1)
    ⊎ ((r.0.0 ≡ minus_one) × ((g : ℕ) → socket_count g r.1 ≡ socket_count g []))
tcp_start_connection_lem_example = tcp_start_connection_lem sample (pos 8080) (pos 10) []
