-- ===== src/Http/Script/Laws.antt =====
-- What `process_script` of srclib/http.c asks for, and which descriptors it leaves open.
use barehttp.Base.{ℕ, zero, suc, ◌-◌, ◌≡◌, ◌⊎◌, refl, arith, List, [], ◌∷◌, ◌++◌, length, drop}
use barehttp.CString.{Bytes}
use barehttp.Os.{Os, Trace, Result, ok, err, wrote, read_from}
use barehttp.Os.Traces.{opens, open_count}
use barehttp.Tcp.Laws.{opens-tcp_send}
use barehttp.Logs.Laws.{opens-logs_print, opens-get_client_ip_port}
use barehttp.Http.{ServerConf, max_buffr}
use barehttp.Http.Files.{safe_file, open_safe}
use barehttp.Http.Files.Laws.{opens-get_file_info}
use barehttp.Http.Response.ErrorPage.{opens-http_send_error}
use barehttp.Http.Script.{write_loop, read_loop, run_child, run_script, send_output, process_script}

abbrev pub more_written : Result ℕ → ℕ
more_written (ok n) = n - 1
more_written (err _) = 0

abbrev pub just_read : Result Bytes → Bytes
just_read (ok bs) = bs
just_read (err _) = []

module _ (os : Os) where
  opens-write_loop :
      (fuel fd : ℕ) (rest : Bytes) (t : Trace) → opens (write_loop os fuel fd rest t).1 ≡ opens t
  unfolding write_loop opens
  opens-write_loop zero fd rest t = refl
  opens-write_loop (suc fuel) fd [] t = refl
  opens-write_loop (suc fuel) fd (c ∷ rest) t =
      let r = os.write t fd (c ∷ rest) in
      ground
        (arith, opens-write_loop fuel fd (drop (more_written r) rest) (wrote fd (c ∷ rest) r ∷ t))

  opens-read_loop :
      (fuel fd : ℕ) (out : Bytes) (t : Trace) → opens (read_loop os fuel fd out t).1 ≡ opens t
  unfolding read_loop opens
  opens-read_loop zero fd out t = refl
  opens-read_loop (suc fuel) fd out t =
      let r = os.read t fd (max_buffr - length out) in
      ground (
        arith,
        opens-read_loop fuel fd (out ++ just_read r) (read_from fd (max_buffr - length out) r ∷ t),
      )

  count-write_loop :
      (fuel fd g : ℕ) (rest : Bytes) (t : Trace)
      → open_count g (write_loop os fuel fd rest t).1 ≡ open_count g t
  unfolding write_loop open_count
  count-write_loop zero fd g rest t = refl
  count-write_loop (suc fuel) fd g [] t = refl
  count-write_loop (suc fuel) fd g (c ∷ rest) t = grind (arith, count-write_loop fuel fd)

  count-read_loop :
      (fuel fd g : ℕ) (out : Bytes) (t : Trace)
      → open_count g (read_loop os fuel fd out t).1 ≡ open_count g t
  unfolding read_loop open_count
  count-read_loop zero fd g out t = refl
  count-read_loop (suc fuel) fd g out t = grind (arith, count-read_loop fuel fd)

  opens-run_script :
      (command : Bytes × List Bytes) (args : Bytes) (t : Trace)
      → opens (run_script os command args t).1 ≡ opens t
  unfolding run_script run_child opens
  opens-run_script command args t = grind (arith, opens-write_loop, opens-read_loop)

  -- Whichever of `pipe` and `fork` fails, and however the child behaves, every end of the two pipes
  -- that was opened for a script is closed again.
  pub run_script_closes :
      (command : Bytes × List Bytes) (args : Bytes) (g : ℕ) (t : Trace)
      → open_count g (run_script os command args t).1 ≡ open_count g t
  unfolding run_script run_child open_count
  run_script_closes command args g t = grind (arith, count-write_loop, count-read_loop)

  opens-send_output :
      (now clientfd : ℕ) (sc : ServerConf) (out : Bytes) (t : Trace)
      → opens (send_output os now clientfd sc out t).1 ≡ opens t
  unfolding send_output
  opens-send_output now clientfd sc out t =
      grind (arith, opens-http_send_error, opens-logs_print, opens-tcp_send)

  pub opens-process_script :
      (args path : Bytes) (clientfd : ℕ) (sc : ServerConf) (t : Trace)
      → let file = safe_file sc.root_fd path in
        let u = (process_script os args path clientfd sc t).1 in
        (opens u ≡ file ∷ opens t) ⊎ (opens u ≡ file ∷ file ∷ opens t)
  unfolding process_script open_safe opens
  opens-process_script args path clientfd sc t = grind (
    arith, opens-get_file_info, opens-run_script, opens-send_output, opens-http_send_error,
    opens-logs_print, opens-get_client_ip_port,
  )
