-- ===== src/Server/Tasks/Stop.antt =====
-- When the program ends.
use sifir.Base.{ℕ, ◌≡◌, ◌↔◌, refl, List, [], ◌∷◌, ◌++◌, none, some, get_elem?}
use sifir.Base.Text.{Str}
use sifir.Server.App.{Axum, AppState}
use sifir.Server.Tasks.{
  Action, accept, listener_fails, of_task, Process, start, step_running, run, TaskAction, step_in,
  step, advance,
}
use sifir.Server.Tasks.Steps.{bind-some, run-cons, run-nil}

-- The schedule's last action is the listener's error.
abbrev pub EndsBy : Str → List Action → Type 0
EndsBy e acts = (before : List Action) × (acts ≡ before ++ (listener_fails e ∷ []))

module _ (a : Axum) (state : AppState) where
  pub accept-stopped :
      (p q : Process) → step_running a state p.tasks accept ≡ some q → q.stopped ≡ none
  unfolding step_running
  accept-stopped p q e = cc

  pub listener_fails-stopped :
      (p q : Process) (x : Str)
      → step_running a state p.tasks (listener_fails x) ≡ some q
      → q.stopped ≡ some x
  unfolding step_running
  listener_fails-stopped p q x e = cc

  pub of_task-stopped :
      (p q : Process) (i : ℕ) (act : TaskAction)
      → step_running a state p.tasks (of_task i act) ≡ some q
      → q.stopped ≡ none
  unfolding step_running
  of_task-stopped p q i act e =
      let (s, f, g) = bind-some (get_elem? p.tasks i) _ q e in
      let (next, h, k) = bind-some (advance a state s act) _ q g in cc

  -- After the listener's error there is no step.
  pub run_stopped :
      (p q : Process) (e : Str) (acts : List Action)
      → p.stopped ≡ some e
      → run a state p acts ≡ some q
      → (acts ≡ []) × (p ≡ q)
  unfolding run step step_in
  run_stopped p q e [] s r = (refl, cc r)
  run_stopped p q e (act ∷ acts) s r =
      let none_left : run a state p (act ∷ acts) ≡ none = rw s refl in cc

  ends :
      (acts : List Action) (p q : Process) (e : Str)
      → run a state p acts ≡ some q
      → p.stopped ≡ none
      → q.stopped ≡ some e
      → EndsBy e acts
  ends [] p q e r s h = let d = run-nil a state p q r in cc
  ends (accept ∷ acts) p q e r s h =
      let (m, f, g) = run-cons a state p accept acts q r in
      let (before, d) = ends acts m q e g (accept-stopped p m f) h in (accept ∷ before, rw d refl)
  ends (of_task i act ∷ acts) p q e r s h =
      let (m, f, g) = run-cons a state p (of_task i act) acts q r in
      let (before, d) = ends acts m q e g (of_task-stopped p m i act f) h in
      (of_task i act ∷ before, rw d refl)
  ends (listener_fails x ∷ acts) p q e r s h =
      let (m, f, g) = run-cons a state p (listener_fails x) acts q r in
      let stop = listener_fails-stopped p m x f in
      let (last, d) = run_stopped m q x acts stop g in
      let same : x ≡ e = cc in ([], rw (last, same) refl)

  stops :
      (before : List Action) (p q : Process) (e : Str)
      → run a state p (before ++ (listener_fails e ∷ [])) ≡ some q
      → q.stopped ≡ some e
  stops [] p q e r =
      let (m, f, g) = run-cons a state p (listener_fails e) [] q r in
      let d = run-nil a state m q g in rw (← d) (listener_fails-stopped p m e f)
  stops (act ∷ before) p q e r =
      let (m, f, g) = run-cons a state p act (before ++ (listener_fails e ∷ [])) q r in
      stops before m q e g

  -- A schedule that can be run ends the program exactly if the listener's error is its last
  -- action; no task, whatever it does, ends it.
  pub run-stopped_iff :
      (acts : List Action) (p : Process) (e : Str)
      → run a state start acts ≡ some p
      → (p.stopped ≡ some e) ↔ EndsBy e acts
  run-stopped_iff acts p e r =
      (λ h. ends acts start p e r refl h, λ (before, d). stops before start p e (rw (← d) r))
