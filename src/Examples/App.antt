-- ===== src/Examples/App.antt =====
-- The theorems on the router and on the tasks of the server, applied.
use sifir.Base.Text.{Str, text}
use sifir.Server.Main.{Exchange, Args, build_setup, main}
use sifir.Base.{
  ◌≢◌, ◌⊎◌, ◌≡◌, ◌↔◌, refl, inl, inr, List, [], ◌∷◌, ◌++◌, none, some, map, ok, panic, All,
}
use sifir.Crates.Web.{Post}
use sifir.Server.App.{AppState, get, post, Request, routes, answer_request}
use sifir.Server.App.Laws.{generate_path, IsRefusal}
use sifir.Server.App.Answers.{
  IsForwarded, IsError, answer_request-posts_iff, answer_request_refused,
}
use sifir.Server.Tasks.{
  failed, closed, Task, handshake_ok, handshake_fails, request, close, Action, accept,
  listener_fails, of_task, Process, fresh, start, served, run, step, step_in, step_running, advance,
  advance_in,
}
use sifir.Server.Tasks.History.{IsHistory, IsGuarded, run-IsHistory}
use sifir.Server.Tasks.Steps.{own}
use sifir.Server.Tasks.Sequential.{schedule_events, results, run-main}
use sifir.Server.Tasks.Progress.{running, session, run-session}
use sifir.Server.Tasks.Stop.{EndsBy, run-stopped_iff}
use sifir.Examples.Axum.{toy_axum, toy_axum-IsRouter}
use sifir.Server.Main.Laws.{build_setup_iff}
use sifir.Server.Main.NoPanic.{build_setup-ne-panic}
use sifir.Examples.Packages.{toy, toy-IsP384, toy-IsSha2}
use sifir.Examples.Payload.{toy_serde}
use sifir.Examples.Hardware.{toy_kernel, toy_kernel-IsFirmware, toy_http}
use sifir.Examples.Rcgen.{toy_rcgen}
use sifir.Examples.Gpu.{toy_sidecar}
use sifir.Examples.Setups.{amd_gpu_run, script}
use sifir.Examples.Runs.{toy_upstream, toy_features, toy_args}

abbrev backend_state : AppState
backend_state = record { backend_url = some (text "http://backend") }

abbrev hello : Request
hello = record {
  method = post;
  path = generate_path;
  headers = λ name. none;
  body = inr (text "hello");
}

abbrev sent : Post
sent = record {
  url = text "http://backend" ++ text "/v1/generate";
  content_type = none;
  body = text "hello";
}

answer_request-posts_iff_example :
    ((answer_request toy_axum toy_upstream backend_state hello).0 ≡ sent ∷ [])
    ↔ IsForwarded toy_axum (toy_axum-IsRouter routes) toy_upstream backend_state hello (sent ∷ [])
answer_request-posts_iff_example =
    answer_request-posts_iff toy_axum (toy_axum-IsRouter routes) toy_upstream backend_state hello
      sent []

abbrev wrong : Request
wrong = record { method = get; path = generate_path; headers = λ name. none; body = inr [] }

wrong-IsRefusal : IsRefusal wrong.method wrong.path 405
wrong-IsRefusal = inr (inl (refl, (λ e. cc e), refl))

answer_request_refused_example :
    IsError toy_axum
      (toy_axum-IsRouter routes)
      toy_upstream
      backend_state
      wrong
      405
      (answer_request toy_axum toy_upstream backend_state wrong)
answer_request_refused_example =
    answer_request_refused toy_axum (toy_axum-IsRouter routes) toy_upstream backend_state wrong 405
      wrong-IsRefusal

abbrev exchange : Exchange
exchange = record { request = hello; upstream = toy_upstream }

-- Two connections whose tasks take turns: the handshake of the first fails after the second has been
-- served. Then the listener fails.
abbrev turns : List Action
turns =
    accept
    ∷ accept
    ∷ of_task 1 handshake_ok
    ∷ of_task 1 (request exchange)
    ∷ of_task 0 (handshake_fails (text "bad certificate"))
    ∷ of_task 1 close
    ∷ listener_fails (text "closed")
    ∷ []

abbrev served_task : Task
served_task = record { phase = closed; log = served toy_axum backend_state exchange ∷ [] }

abbrev ended : Process
ended = record {
  tasks = record { phase = failed (text "bad certificate"); log = [] } ∷ served_task ∷ [];
  stopped = some (text "closed");
}

turns_lem : run toy_axum backend_state start turns ≡ some ended
unfolding run step step_in step_running advance advance_in
turns_lem = refl

run-IsHistory_example :
    IsHistory toy_axum backend_state (own 1 turns) served_task
    × All (IsGuarded toy_axum (toy_axum-IsRouter routes) backend_state) served_task.log
run-IsHistory_example =
    run-IsHistory toy_axum (toy_axum-IsRouter routes) backend_state turns ended 1 served_task
      turns_lem refl

run-stopped_iff_example : (ended.stopped ≡ some (text "closed")) ↔ EndsBy (text "closed") turns
run-stopped_iff_example =
    run-stopped_iff toy_axum backend_state turns ended (text "closed") turns_lem

-- The first task still waits for its handshake while the second connection is served.
run-session_example :
    run toy_axum backend_state
      (running (fresh ∷ []))
      (accept ∷ map (of_task 1) (session (exchange ∷ [])))
    ≡ some (
        running (
          fresh
          ∷ record { phase = closed; log = map (served toy_axum backend_state) (exchange ∷ []) }
          ∷ []))
run-session_example = run-session toy_axum backend_state (fresh ∷ []) (exchange ∷ [])

-- The arguments of a server with the backend, and its listener.
abbrev proxy_args : Args
proxy_args = record {
  listen = toy_args.listen;
  backend = backend_state.backend_url;
  amd = toy_args.amd;
  snp_product = toy_args.snp_product;
  gpu_cc = toy_args.gpu_cc;
  gpu_attest_script = toy_args.gpu_attest_script;
}

abbrev bind : Str → Str ⊎ Unit {0}
bind address = inr tt

built :
    build_setup toy toy_rcgen toy_serde toy_http toy_kernel toy_sidecar toy_features proxy_args
    ≡ ok amd_gpu_run.0
built =
    (build_setup_iff toy toy_rcgen toy_serde toy_http toy_kernel toy_sidecar toy_features proxy_args
        amd_gpu_run.0).1
      (inr (inr (script, refl, refl, refl, refl, refl, amd_gpu_run.1)))

run-main_example :
    main toy toy_rcgen toy_serde toy_http toy_kernel toy_sidecar toy_axum bind toy_features
      proxy_args
      (schedule_events turns 0 turns)
    ≡ ok (map results ended.tasks, ended.stopped)
run-main_example =
    run-main toy toy_rcgen toy_serde toy_http toy_kernel toy_sidecar toy_axum bind toy_features
      proxy_args amd_gpu_run.0 turns ended built refl turns_lem

build_setup-ne-panic_example :
    build_setup toy toy_rcgen toy_serde toy_http toy_kernel toy_sidecar toy_features proxy_args
    ≢ panic
build_setup-ne-panic_example =
    build_setup-ne-panic toy toy-IsP384 toy-IsSha2 toy_rcgen toy_serde toy_http toy_kernel
      toy_kernel-IsFirmware.length-response toy_sidecar toy_features proxy_args
