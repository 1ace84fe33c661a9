-- ===== src/Server/Tasks/Isolation.antt =====
-- What a task does depends on its own steps only.
use sifir.Base.{ℕ, ◌≡◌, refl, ◌∙◌, inl, inr, List, [], ◌∷◌, none, some, get_elem?}
use sifir.Server.App.{Axum, AppState}
use sifir.Server.Tasks.{Task, Action, Process, fresh, start, run_task, run}
use sifir.Server.Tasks.Steps.{
  own_step, own, run_task-append, run_task_none, step_running-own, step_running-new, run-cons,
  run-nil,
}

module _ (a : Axum) (state : AppState) where
  pub run-own :
      (acts : List Action) (p q : Process) (i : ℕ) (t : Task)
      → run a state p acts ≡ some q
      → get_elem? p.tasks i ≡ some t
      → (next : Task) × (get_elem? q.tasks i ≡ some next)
        × (run_task a state t (own i acts) ≡ some next)
  run-own [] p q i t e h = let d = run-nil a state p q e in (t, rw (← d) h, run_task_none a state t)
  run-own (act ∷ acts) p q i t e h =
      let (m, f, g) = run-cons a state p act acts q e in
      let (s, k, r) = step_running-own a state p.tasks act m i t f h in
      let (next, l, z) = run-own acts m q i s g k in
      (next, l, run_task-append a state t (own_step i act) (own i acts) s r ∙ z)

  run-new :
      (acts : List Action) (p q : Process) (i : ℕ) (t : Task)
      → run a state p acts ≡ some q
      → get_elem? p.tasks i ≡ none
      → get_elem? q.tasks i ≡ some t
      → run_task a state fresh (own i acts) ≡ some t
  run-new [] p q i t e h k = let d = run-nil a state p q e in cc
  run-new (act ∷ acts) p q i t e h k =
      let (m, f, g) = run-cons a state p act acts q e in
      let (n, cases) = step_running-new a state p.tasks act m i f h in
      elim cases [
        | inl c ↦ rw n (run-new acts m q i t g c k)
        | inr c ↦
            let (next, l, z) = run-own acts m q i fresh g c in
            let same : next ≡ t = cc in rw (n, ← same) z
      ]

  -- Whatever the other tasks do and in whatever order, a task is where its own steps lead a new
  -- task alone.
  pub run-isolated :
      (acts : List Action) (p : Process) (i : ℕ) (t : Task)
      → run a state start acts ≡ some p
      → get_elem? p.tasks i ≡ some t
      → run_task a state fresh (own i acts) ≡ some t
  run-isolated acts p i t e h = run-new acts start p i t e refl h
