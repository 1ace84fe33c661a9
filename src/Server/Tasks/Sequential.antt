-- ===== src/Server/Tasks/Sequential.antt =====
-- The tasks against the accept loop that serves one connection after the other.
use sifir.Base.{
  ℕ, suc, sym, ap, ◌∙◌, ◌++◌, arith, length, drop, drop_all, drop-zero, get_elem?, get_elem?-last,
  length-set, length-append_one, drop-get_elem?, ◌≡◌, refl, List, [], ◌∷◌, ◌⊎◌, inl, inr, none,
  some, map, ok,
}
use sifir.Base.Text.{Str}
use sifir.Crates.{Crates, Serde}
use sifir.Attest.Payload.{AttestationExtension}
use sifir.Server.Kds.{Http}
use sifir.Server.SnpGuest.{Kernel}
use sifir.Server.GpuAttestation.{Sidecar}
use sifir.Server.Tls.{Rcgen, TlsSetup}
use sifir.Server.Main.{
  Args, Features, build_setup, main, Exchange, Event, connection, listener_error, answer,
  accept_loop, serve_connection,
}
use sifir.Server.Main.Laws.{main_iff}
use sifir.Crates.Web.{Post, Answer}
use sifir.Server.App.{Axum, AppState}
use sifir.Server.Tasks.{
  Served, Task, TaskAction, handshake_ok, handshake_fails, request, close, Action, accept,
  listener_fails, of_task, Process, fresh, start, served, run,
}
use sifir.Server.Tasks.Steps.{
  own, run-nil, run-cons, of_task-inversion, accept-tasks, listener_fails-tasks,
}
use sifir.Server.Tasks.Stop.{accept-stopped, listener_fails-stopped, of_task-stopped, run_stopped}
use sifir.Server.Tasks.Isolation.{run-own}
use sifir.Server.Tasks.History.{IsHistory, own-IsHistory}

-- The requests among the steps of a connection.
abbrev pub requests : List TaskAction → List Exchange
requests [] = []
requests (request x ∷ acts) = x ∷ requests acts
requests (handshake_ok ∷ acts) = requests acts
requests (handshake_fails e ∷ acts) = requests acts
requests (close ∷ acts) = requests acts

-- What comes on a connection by its steps, as the accept loop takes it.
abbrev pub connection_of : List TaskAction → Str ⊎ List Exchange
connection_of [] = inr []
connection_of (handshake_fails e ∷ acts) = inl e
connection_of (handshake_ok ∷ acts) = inr (requests acts)
connection_of (request x ∷ acts) = inr []
connection_of (close ∷ acts) = inr []

-- What `accept` returns in the schedule `acts`, which is what is left of `all` when `n` connections
-- have been accepted.
abbrev pub schedule_events : List Action → ℕ → List Action → List Event
schedule_events all n [] = []
schedule_events all n (accept ∷ acts) =
    connection (connection_of (own n all)) ∷ schedule_events all (suc n) acts
schedule_events all n (listener_fails e ∷ acts) = listener_error e ∷ schedule_events all n acts
schedule_events all n (of_task i act ∷ acts) = schedule_events all n acts

abbrev pub results : Task → List (List Post × Answer)
results t = map (λ s. s.result) t.log

requests-map : (xs : List Exchange) → requests (map request xs) ≡ xs
requests-map [] = refl
requests-map (x ∷ xs) = ap (λ r. x ∷ r) (requests-map xs)

requests-map_close : (xs : List Exchange) → requests (map request xs ++ (close ∷ [])) ≡ xs
requests-map_close [] = refl
requests-map_close (x ∷ xs) = ap (λ r. x ∷ r) (requests-map_close xs)

module _ (a : Axum) (state : AppState) where
  map-served :
      (xs : List Exchange)
      → map (answer a state) xs ≡ map (λ (s : Served). s.result) (map (served a state) xs)
  map-served [] = refl
  map-served (x ∷ xs) = ap (λ r. answer a state x ∷ r) (map-served xs)

  -- The task of a connection sends and answers what it does when its requests come at once.
  serve_connection_lem :
      (acts : List TaskAction) (t : Task)
      → IsHistory a state acts t
      → serve_connection a state (connection_of acts) ≡ results t
  unfolding serve_connection
  serve_connection_lem acts t (inl (p, q)) = rw (p, q) refl
  serve_connection_lem acts t (inr (inl (e, p, q))) = rw (p, q) refl
  serve_connection_lem acts t (inr (inr (inl (xs, p, q)))) =
      rw (p, q, requests-map xs) (map-served xs)
  serve_connection_lem acts t (inr (inr (inr (xs, p, q)))) =
      rw (p, q, requests-map_close xs) (map-served xs)

  module _ (all : List Action) (p : Process) (ran : run a state start all ≡ some p) where
    -- What the loop does with the events of the rest of a schedule.
    abbrev IsRest : Process → List Action → Type 0
    IsRest q acts =
        accept_loop a state (schedule_events all (length q.tasks) acts)
        ≡ (map results (drop (length q.tasks) p.tasks), p.stopped)

    schedule_lem :
        (acts : List Action) (q : Process)
        → run a state q acts ≡ some p
        → q.stopped ≡ none
        → IsRest q acts
    unfolding accept_loop
    schedule_lem [] q r s =
        let d = run-nil a state q p r in
        rw (← d, s, drop_all (length q.tasks) q.tasks (omega arith)) refl
    schedule_lem (listener_fails e ∷ acts) q r s =
        let (m, f, g) = run-cons a state q (listener_fails e) acts p r in
        let stop = listener_fails-stopped a state q m e f in
        let (_, d) = run_stopped a state m p e acts stop g in
        let l : q.tasks ≡ p.tasks =
          listener_fails-tasks a state q.tasks e m f ∙ ap (λ (x : Process). x.tasks) d in
        let done : drop (length q.tasks) p.tasks ≡ [] =
          rw l (drop_all (length p.tasks) p.tasks (omega arith)) in
        let ended : p.stopped ≡ some e = rw (← d) stop in rw (done, ended) refl
    schedule_lem (of_task i act ∷ acts) q r s =
        let (m, f, g) = run-cons a state q (of_task i act) acts p r in
        let (_, next, _, _, k) = of_task-inversion a state q.tasks i act m f in
        let l : length m.tasks ≡ length q.tasks = ap length (sym k) ∙ length-set q.tasks i next in
        rw l at (schedule_lem acts m g (of_task-stopped a state q m i act f))
    schedule_lem (accept ∷ acts) q r s =
        let (m, f, g) = run-cons a state q accept acts p r in
        let k = accept-tasks a state q.tasks m f in
        let l : length m.tasks ≡ suc (length q.tasks) =
          ap length (sym k) ∙ length-append_one q.tasks fresh in
        let there : get_elem? m.tasks (length q.tasks) ≡ some fresh =
          rw (← k) (get_elem?-last q.tasks fresh) in
        let (t, h, _) = run-own a state acts m p (length q.tasks) fresh g there in
        let ih = rw l at (schedule_lem acts m g (accept-stopped a state q m f)) in
        let own_lem =
          serve_connection_lem (own (length q.tasks) all) t
            (own-IsHistory a state all p (length q.tasks) t ran h) in
        rw (ih, own_lem, drop-get_elem? p.tasks (length q.tasks) t h) refl

  -- In whatever order the tasks take their steps, what each has sent and answered is what the
  -- loop that serves one connection after the other does with the connections and the requests of
  -- the schedule, and the program has ended by the same error.
  pub run-accept_loop :
      (acts : List Action) (p : Process)
      → run a state start acts ≡ some p
      → accept_loop a state (schedule_events acts 0 acts) ≡ (map results p.tasks, p.stopped)
  run-accept_loop acts p e = rw (drop-zero p.tasks) at (schedule_lem acts p e acts start e refl)

module _ (c : Crates) (g : Rcgen) (s : Serde AttestationExtension) (http : Http) (kernel : Kernel)
    (sidecar : Sidecar) (a : Axum) (bind : Str → Str ⊎ Unit {0}) (f : Features) (args : Args) where
  -- On a server that has a setup and a listener, in whatever order the tasks take their steps,
  -- what each has sent and answered is what main does with the connections and requests of the
  -- schedule when it serves one connection after the other, and the program has ended by the same
  -- error.
  pub run-main :
      (setup : TlsSetup g.ServerConfig) (acts : List Action) (p : Process)
      → build_setup c g s http kernel sidecar f args ≡ ok setup
      → bind args.listen ≡ inr tt
      → run a (record { backend_url = args.backend }) start acts ≡ some p
      → main c g s http kernel sidecar a bind f args (schedule_events acts 0 acts)
        ≡ ok (map results p.tasks, p.stopped)
  run-main setup acts p built bound e =
      (main_iff c g s http kernel sidecar a bind f args (schedule_events acts 0 acts)
          (map results p.tasks, p.stopped)).1
        (setup, built, bound, run-accept_loop a (record { backend_url = args.backend }) acts p e)
