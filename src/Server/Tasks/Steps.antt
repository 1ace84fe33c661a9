-- ===== src/Server/Tasks/Steps.antt =====
-- What one step of the program is for one of its tasks.
use sifir.Base.{
  ℕ, zero, suc, ◌≡◌, ◌≢◌, ◌⊎◌, refl, sym, ◌∙◌, inl, inr, List, [], ◌∷◌, ◌++◌, false, Option, none,
  some, Bool-cases, ◌==◌, ==_iff, if◌then◌else◌, get_elem?, set, get_elem?-set_self,
  get_elem?-set_ne, get_elem?-append,
}
use sifir.Base.Text.{Str}
use sifir.Server.App.{Axum, AppState}
use sifir.Server.Tasks.{
  Task, TaskAction, Action, accept, listener_fails, of_task, Process, fresh, ◌>>=◌, advance,
  run_task, step_running, step_in, step, run,
}

-- The steps of the task `i` in a schedule.
abbrev pub own_step : ℕ → Action → List TaskAction
own_step i accept = []
own_step i (listener_fails e) = []
own_step i (of_task j act) = if i == j then act ∷ [] else []

abbrev pub own : ℕ → List Action → List TaskAction
own i [] = []
own i (act ∷ acts) = own_step i act ++ own i acts

pub bind-some {ℓ} :
    {A : Type ℓ} {B : Type ℓ} (o : Option A) (f : A → Option B) (y : B)
    → (o >>= f) ≡ some y
    → (x : A) × (o ≡ some x) × (f x ≡ some y)
bind-some none f y e = cc
bind-some (some x) f y e = (x, refl, e)

get_elem?-append_one {ℓ} :
    {A : Type ℓ} (xs : List A) (x : A) (i : ℕ)
    → get_elem? xs i ≡ none
    → (get_elem? (xs ++ (x ∷ [])) i ≡ none) ⊎ (get_elem? (xs ++ (x ∷ [])) i ≡ some x)
get_elem?-append_one [] x zero e = inr refl
get_elem?-append_one [] x (suc i) e = inl refl
get_elem?-append_one (y ∷ ys) x zero e = cc
get_elem?-append_one (y ∷ ys) x (suc i) e = get_elem?-append_one ys x i e

module _ (a : Axum) (state : AppState) where
  pub run_task-append :
      (t : Task) (xs ys : List TaskAction) (next : Task)
      → run_task a state t xs ≡ some next
      → run_task a state t (xs ++ ys) ≡ run_task a state next ys
  unfolding run_task
  run_task-append t [] ys next e = let d : t ≡ next = cc e in rw d refl
  run_task-append t (x ∷ xs) ys next e =
      let (m, f, g) = bind-some (advance a state t x) (λ m. run_task a state m xs) next e in
      rw f (run_task-append m xs ys next g)

  pub of_task-inversion :
      (tasks : List Task) (j : ℕ) (act : TaskAction) (q : Process)
      → step_running a state tasks (of_task j act) ≡ some q
      → (s : Task) × (next : Task) × (get_elem? tasks j ≡ some s)
        × (advance a state s act ≡ some next)
        × (set tasks j next ≡ q.tasks)
  unfolding step_running
  of_task-inversion tasks j act q e =
      let (s, f, g) = bind-some (get_elem? tasks j) _ q e in
      let (next, h, k) = bind-some (advance a state s act) _ q g in (s, next, f, h, cc k)

  pub accept-tasks :
      (tasks : List Task) (q : Process)
      → step_running a state tasks accept ≡ some q
      → tasks ++ (fresh ∷ []) ≡ q.tasks
  unfolding step_running
  accept-tasks tasks q e = cc

  pub listener_fails-tasks :
      (tasks : List Task) (x : Str) (q : Process)
      → step_running a state tasks (listener_fails x) ≡ some q
      → tasks ≡ q.tasks
  unfolding step_running
  listener_fails-tasks tasks x q e = cc

  run_task_one :
      (t : Task) (act : TaskAction) (next : Task)
      → advance a state t act ≡ some next
      → run_task a state t (act ∷ []) ≡ some next
  unfolding run_task
  run_task_one t act next e = rw e refl

  pub run_task_none : (t : Task) → run_task a state t [] ≡ some t
  unfolding run_task
  run_task_none t = refl

  -- A step of the program is none or one step of a task that is there.
  pub step_running-own :
      (tasks : List Task) (act : Action) (q : Process) (i : ℕ) (t : Task)
      → step_running a state tasks act ≡ some q
      → get_elem? tasks i ≡ some t
      → (next : Task) × (get_elem? q.tasks i ≡ some next)
        × (run_task a state t (own_step i act) ≡ some next)
  step_running-own tasks accept q i t e h = (
    t,
    rw (← accept-tasks tasks q e) (get_elem?-append tasks (fresh ∷ []) i t h),
    run_task_none t,
  )
  step_running-own tasks (listener_fails x) q i t e h =
      (t, rw (← listener_fails-tasks tasks x q e) h, run_task_none t)
  step_running-own tasks (of_task j act) q i t e h =
      let (s, next, f, g, k) = of_task-inversion tasks j act q e in
      elim (Bool-cases (i == j)) [
        | inl d ↦
            let same : i ≡ j = (==_iff i j).0 d in
            let there : t ≡ s = cc in
            let put : get_elem? (set tasks j next) i ≡ some next =
              rw same (get_elem?-set_self tasks j next s f) in
            (next, rw (← k) put, rw d (run_task_one t act next (rw there g)))
        | inr d ↦
            let other : j ≢ i = λ x. cc ((==_iff i j).1 (sym x), d) in
            (t, rw (← k) (get_elem?-set_ne tasks j i next other ∙ h), rw d (run_task_none t))
      ]

  -- A step of the program makes no step of a task that is not there yet.
  pub step_running-new :
      (tasks : List Task) (act : Action) (q : Process) (i : ℕ)
      → step_running a state tasks act ≡ some q
      → get_elem? tasks i ≡ none
      → (own_step i act ≡ []) × ((get_elem? q.tasks i ≡ none) ⊎ (get_elem? q.tasks i ≡ some fresh))
  step_running-new tasks accept q i e h =
      (refl, rw (← accept-tasks tasks q e) (get_elem?-append_one tasks fresh i h))
  step_running-new tasks (listener_fails x) q i e h =
      (refl, inl (rw (← listener_fails-tasks tasks x q e) h))
  step_running-new tasks (of_task j act) q i e h =
      let (s, next, f, g, k) = of_task-inversion tasks j act q e in
      let other : j ≢ i = λ x. cc in
      let d : (i == j) ≡ false = elim (Bool-cases (i == j)) [
        | inl d ↦ absurd (other (sym ((==_iff i j).0 d)))
        | inr d ↦ d
      ] in
      (rw d refl, inl (rw (← k) (get_elem?-set_ne tasks j i next other ∙ h)))

  pub step_in-running :
      (stopped : Option Str) (tasks : List Task) (act : Action) (q : Process)
      → step_in a state stopped tasks act ≡ some q
      → step_running a state tasks act ≡ some q
  unfolding step_in
  step_in-running none tasks act q e = e
  step_in-running (some x) tasks act q e = cc

  pub run-cons :
      (p : Process) (act : Action) (acts : List Action) (q : Process)
      → run a state p (act ∷ acts) ≡ some q
      → (m : Process) × (step_running a state p.tasks act ≡ some m) × (run a state m acts ≡ some q)
  unfolding run step
  run-cons p act acts q e =
      let (m, f, g) = bind-some (step a state p act) (λ m. run a state m acts) q e in
      (m, step_in-running p.stopped p.tasks act m f, g)

  pub run-nil : (p q : Process) → run a state p [] ≡ some q → p ≡ q
  unfolding run
  run-nil p q e = cc
