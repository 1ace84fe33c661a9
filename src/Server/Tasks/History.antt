-- ===== src/Server/Tasks/History.antt =====
-- What a task of the server has done, by its own steps in a schedule.
use sifir.Base.{
  ℕ, ◌≡◌, ◌⊎◌, refl, inl, inr, List, [], ◌∷◌, ◌++◌, map, append_assoc, append-nil, some, All,
  All-weaken, All-get_elem?, get_elem?,
}
use sifir.Base.Text.{Str}
use sifir.Server.App.{Axum, AppState, IsRouter, routes}
use sifir.Server.App.Answers.{IsForwarded, answer_request-posts}
use sifir.Server.Main.{Exchange, answer}
use sifir.Server.Tasks.{
  serving, failed, closed, Served, Task, TaskAction, handshake_ok, handshake_fails, request, close,
  Action, Process, fresh, start, served, advance_in, advance, run_task, run,
}
use sifir.Server.Tasks.Invariant.{IsServed, run-IsValid}
use sifir.Server.Tasks.Steps.{own}
use sifir.Server.Tasks.Isolation.{run-isolated}

module _ (a : Axum) (state : AppState) where
  -- The steps of a task, and the state that they have led to: none, a failed handshake, a handshake
  -- and requests, or a handshake, requests and the end of the connection.
  abbrev pub IsHistory : List TaskAction → Task → Type 0
  IsHistory acts t =
      ((acts ≡ []) × (t ≡ fresh))
      ⊎ ((e : Str) × (acts ≡ handshake_fails e ∷ []) × (t ≡ record { phase = failed e; log = [] }))
      ⊎ ((xs : List Exchange) × (acts ≡ handshake_ok ∷ map request xs)
          × (t ≡ record { phase = serving; log = map (served a state) xs }))
      ⊎ ((xs : List Exchange) × (acts ≡ handshake_ok ∷ (map request xs ++ (close ∷ [])))
          × (t ≡ record { phase = closed; log = map (served a state) xs }))

  failed_ended :
      (e : Str) (log : List Served) (acts : List TaskAction) (t : Task)
      → run_task a state (record { phase = failed e; log = log }) acts ≡ some t
      → (acts ≡ []) × (t ≡ record { phase = failed e; log = log })
  unfolding run_task advance advance_in
  failed_ended e log [] t h = (refl, cc h)
  failed_ended e log (act ∷ acts) t h = cc h

  closed_ended :
      (log : List Served) (acts : List TaskAction) (t : Task)
      → run_task a state (record { phase = closed; log = log }) acts ≡ some t
      → (acts ≡ []) × (t ≡ record { phase = closed; log = log })
  unfolding run_task advance advance_in
  closed_ended log [] t h = (refl, cc h)
  closed_ended log (act ∷ acts) t h = cc h

  -- The steps of a task whose handshake is over.
  abbrev IsService : List Served → List TaskAction → Task → Type 0
  IsService log acts t =
      ((xs : List Exchange) × (acts ≡ map request xs)
        × (t ≡ record { phase = serving; log = log ++ map (served a state) xs }))
      ⊎ ((xs : List Exchange) × (acts ≡ map request xs ++ (close ∷ []))
          × (t ≡ record { phase = closed; log = log ++ map (served a state) xs }))

  IsService-request :
      (x : Exchange) (log : List Served) (acts : List TaskAction) (t : Task)
      → IsService (log ++ (served a state x ∷ [])) acts t
      → IsService log (request x ∷ acts) t
  IsService-request x log acts t (inl (xs, p, q)) =
      inl (x ∷ xs, rw p refl, rw (q, append_assoc) refl)
  IsService-request x log acts t (inr (xs, p, q)) =
      inr (x ∷ xs, rw p refl, rw (q, append_assoc) refl)

  run_task-IsService :
      (acts : List TaskAction) (log : List Served) (t : Task)
      → run_task a state (record { phase = serving; log = log }) acts ≡ some t
      → IsService log acts t
  unfolding run_task advance advance_in
  run_task-IsService [] log t h = inl ([], refl, rw (append-nil log) (cc h))
  run_task-IsService (request x ∷ acts) log t h =
      IsService-request x log acts t (run_task-IsService acts (log ++ (served a state x ∷ [])) t h)
  run_task-IsService (close ∷ acts) log t h =
      let (p, q) = closed_ended log acts t h in inr ([], rw p refl, rw (append-nil log) q)
  run_task-IsService (handshake_ok ∷ acts) log t h = cc h
  run_task-IsService (handshake_fails e ∷ acts) log t h = cc h

  IsService-IsHistory :
      (acts : List TaskAction) (t : Task) → IsService [] acts t → IsHistory (handshake_ok ∷ acts) t
  IsService-IsHistory acts t (inl (xs, p, q)) = inr (inr (inl (xs, rw p refl, q)))
  IsService-IsHistory acts t (inr (xs, p, q)) = inr (inr (inr (xs, rw p refl, q)))

  run_task-IsHistory :
      (acts : List TaskAction) (t : Task) → run_task a state fresh acts ≡ some t → IsHistory acts t
  unfolding run_task advance advance_in
  run_task-IsHistory [] t h = inl (refl, cc h)
  run_task-IsHistory (handshake_ok ∷ acts) t h =
      IsService-IsHistory acts t (run_task-IsService acts [] t h)
  run_task-IsHistory (handshake_fails e ∷ acts) t h =
      let (p, q) = failed_ended e [] acts t h in inr (inl (e, rw p refl, q))
  run_task-IsHistory (request x ∷ acts) t h = cc h
  run_task-IsHistory (close ∷ acts) t h = cc h

  pub own-IsHistory :
      (acts : List Action) (p : Process) (i : ℕ) (t : Task)
      → run a state start acts ≡ some p
      → get_elem? p.tasks i ≡ some t
      → IsHistory (own i acts) t
  own-IsHistory acts p i t e h =
      run_task-IsHistory (own i acts) t (run-isolated a state acts p i t e h)

module _ (a : Axum) (router : IsRouter a routes) (state : AppState) where
  -- A served request has the answer that the service gives to it alone, and what was sent to the
  -- backend for it is nothing, or the client's own request to /v1/generate.
  abbrev pub IsGuarded : Served → Type 0
  IsGuarded s =
      (s.result ≡ answer a state s.exchange)
      × ((s.result.0 ≡ [])
          ⊎ IsForwarded a router s.exchange.upstream state s.exchange.request s.result.0)

  IsServed-IsGuarded : (s : Served) → IsServed a state s → IsGuarded s
  IsServed-IsGuarded s e =
      (e, rw e (answer_request-posts a router s.exchange.upstream state s.exchange.request))

  -- After any schedule, the steps of each task are none, a failed handshake alone, or a
  -- handshake, then requests, and then at most the end of the connection. The task waits, has
  -- failed, serves or is closed accordingly, its log has those requests in their order, with the
  -- answers that the service gives to each alone, and it has sent to the backend nothing for a
  -- request, or the client's own request by POST to /v1/generate, if the router does what axum
  -- documents of the table.
  pub run-IsHistory :
      (acts : List Action) (p : Process) (i : ℕ) (t : Task)
      → run a state start acts ≡ some p
      → get_elem? p.tasks i ≡ some t
      → IsHistory a state (own i acts) t × All IsGuarded t.log
  run-IsHistory acts p i t e h =
      let (valid, _) = All-get_elem? _ p.tasks i t (run-IsValid a state acts p e) h in
      (own-IsHistory a state acts p i t e h, All-weaken t.log IsServed-IsGuarded valid)
