-- ===== src/Server/Tasks/Progress.antt =====
-- A connection is served whatever the others do.
use sifir.Base.{
  ℕ, ◌≡◌, refl, ◌∙◌, List, [], ◌∷◌, ◌++◌, map, append_assoc, append-nil, none, some, length,
  get_elem?, set, get_elem?-set_self, get_elem?-last, set_last, set-set, set_same,
}
use sifir.Server.App.{Axum, AppState}
use sifir.Server.Main.{Exchange}
use sifir.Server.Tasks.{
  serving, closed, Served, Task, TaskAction, handshake_ok, request, close, accept, of_task, Process,
  fresh, served, advance_in, advance, run_task, step_running, step_in, step, run,
}
use sifir.Server.Tasks.Steps.{bind-some}

-- The steps of a connection on which the handshake succeeds and `xs` is asked for.
abbrev pub session : List Exchange → List TaskAction
session xs = handshake_ok ∷ (map request xs ++ (close ∷ []))

-- A running process whose tasks are `tasks`.
abbrev pub running : List Task → Process
running tasks = record { tasks = tasks; stopped = none }

module _ (a : Axum) (state : AppState) where
  run_task-serving :
      (xs : List Exchange) (log : List Served)
      → run_task a state (record { phase = serving; log = log }) (map request xs ++ (close ∷ []))
        ≡ some (record { phase = closed; log = log ++ map (served a state) xs })
  unfolding run_task advance advance_in
  run_task-serving [] log = rw append-nil refl
  run_task-serving (x ∷ xs) log =
      run_task-serving xs (log ++ (served a state x ∷ [])) ∙ rw append_assoc refl

  run_task-session :
      (xs : List Exchange)
      → run_task a state fresh (session xs)
        ≡ some (record { phase = closed; log = map (served a state) xs })
  unfolding run_task advance advance_in
  run_task-session xs = run_task-serving xs []

  -- A process makes the steps that one of its tasks can make alone, and no other task notices.
  pub run-of_task :
      (acts : List TaskAction) (tasks : List Task) (i : ℕ) (t next : Task)
      → get_elem? tasks i ≡ some t
      → run_task a state t acts ≡ some next
      → run a state (running tasks) (map (of_task i) acts) ≡ some (running (set tasks i next))
  unfolding run run_task step step_in step_running
  run-of_task [] tasks i t next h e = let d : t ≡ next = cc e in rw (← d, set_same tasks i t h) refl
  run-of_task (act ∷ acts) tasks i t next h e =
      let (m, f, g) = bind-some (advance a state t act) (λ m. run_task a state m acts) next e in
      rw (h, f)
        (run-of_task acts (set tasks i m) i m next (get_elem?-set_self tasks i m t h) g
          ∙ rw set-set refl)

  -- In whatever state the other tasks are, a program that has not ended accepts one more
  -- connection and can serve it to its end: every request is answered, and the other tasks are as
  -- before.
  pub run-session :
      (tasks : List Task) (xs : List Exchange)
      → run a state (running tasks) (accept ∷ map (of_task (length tasks)) (session xs))
        ≡ some (running (tasks ++ (record { phase = closed; log = map (served a state) xs } ∷ [])))
  unfolding run step step_in step_running
  run-session tasks xs =
      run-of_task (session xs) (tasks ++ (fresh ∷ [])) (length tasks) fresh _
        (get_elem?-last tasks fresh) (run_task-session xs)
      ∙ rw (set_last tasks fresh _) refl
