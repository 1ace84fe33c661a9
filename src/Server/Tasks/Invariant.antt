-- ===== src/Server/Tasks/Invariant.antt =====
-- What holds of the tasks after any schedule.
use sifir.Base.{
  ℕ, zero, suc, ◌≡◌, refl, List, [], ◌∷◌, Option, none, some, All, All-append, All-set, get_elem?,
}
use sifir.Base.Text.{Str}
use sifir.Server.App.{Axum, AppState}
use sifir.Server.Main.{answer}
use sifir.Server.Tasks.{
  Phase, handshaking, serving, failed, closed, Served, Task, TaskAction, handshake_ok,
  handshake_fails, request, close, Action, accept, listener_fails, of_task, Process, fresh, start,
  served, ◌>>=◌, advance_in, advance, step_running, step_in, step, run,
}

-- No request has been served before the handshake, nor without one.
abbrev pub IsQuiet : Phase → List Served → Type 0
IsQuiet handshaking log = log ≡ []
IsQuiet (failed e) log = log ≡ []
IsQuiet serving log = Unit
IsQuiet closed log = Unit

-- `P` of the result, if there is one.
abbrev Holds {ℓ} : {A : Type ℓ} → (A → Type 0) → Option A → Type 0
Holds P none = Unit
Holds P (some x) = P x

Holds-some {ℓ} : {A : Type ℓ} (P : A → Type 0) (o : Option A) (x : A) → Holds P o → o ≡ some x → P x
Holds-some P none x h e = cc
Holds-some P (some y) x h e = let d : y ≡ x = cc e in rw (← d) h

Holds-bind {ℓ} :
    {A : Type ℓ} {B : Type ℓ} (P : A → Type 0) (Q : B → Type 0) (o : Option A) (f : A → Option B)
    → Holds P o
    → ((x : A) → P x → Holds Q (f x))
    → Holds Q (o >>= f)
Holds-bind P Q none f h k = tt
Holds-bind P Q (some x) f h k = k x h

module _ (a : Axum) (state : AppState) where
  -- A served request has the answer that the service gives to it alone.
  abbrev pub IsServed : Served → Type 0
  IsServed s = s.result ≡ answer a state s.exchange

  abbrev pub IsSound : Task → Type 0
  IsSound t = All IsServed t.log × IsQuiet t.phase t.log

  abbrev pub IsValid : Process → Type 0
  IsValid p = All IsSound p.tasks

  advance_in-IsSound :
      (phase : Phase) (log : List Served) (act : TaskAction)
      → IsSound (record { phase = phase; log = log })
      → Holds IsSound (advance_in a state phase log act)
  unfolding advance_in
  advance_in-IsSound handshaking log handshake_ok (h, q) = (h, tt)
  advance_in-IsSound handshaking log (handshake_fails e) (h, q) = (h, q)
  advance_in-IsSound handshaking log (request x) (h, q) = tt
  advance_in-IsSound handshaking log close (h, q) = tt
  advance_in-IsSound serving log (request x) (h, q) =
      (All-append IsServed log (served a state x ∷ []) h (refl, tt), tt)
  advance_in-IsSound serving log close (h, q) = (h, tt)
  advance_in-IsSound serving log handshake_ok (h, q) = tt
  advance_in-IsSound serving log (handshake_fails e) (h, q) = tt
  advance_in-IsSound (failed e) log act (h, q) = tt
  advance_in-IsSound closed log act (h, q) = tt

  get_elem?-Holds :
      (tasks : List Task) (i : ℕ) → All IsSound tasks → Holds IsSound (get_elem? tasks i)
  get_elem?-Holds [] i h = tt
  get_elem?-Holds (t ∷ ts) zero (h, hs) = h
  get_elem?-Holds (t ∷ ts) (suc i) (h, hs) = get_elem?-Holds ts i hs

  step_running-IsValid :
      (tasks : List Task) (act : Action)
      → All IsSound tasks
      → Holds IsValid (step_running a state tasks act)
  unfolding step_running advance
  step_running-IsValid tasks accept h = All-append IsSound tasks (fresh ∷ []) h ((tt, refl), tt)
  step_running-IsValid tasks (listener_fails e) h = h
  step_running-IsValid tasks (of_task i act) h =
      Holds-bind IsSound IsValid (get_elem? tasks i) _ (get_elem?-Holds tasks i h) (λ t s.
        Holds-bind IsSound IsValid (advance_in a state t.phase t.log act) _
          (advance_in-IsSound t.phase t.log act s) (λ next s. All-set IsSound tasks i next h s))

  step_in-IsValid :
      (stopped : Option Str) (tasks : List Task) (act : Action)
      → All IsSound tasks
      → Holds IsValid (step_in a state stopped tasks act)
  unfolding step_in
  step_in-IsValid none tasks act h = step_running-IsValid tasks act h
  step_in-IsValid (some e) tasks act h = tt

  run-Holds : (p : Process) (acts : List Action) → IsValid p → Holds IsValid (run a state p acts)
  unfolding run step
  run-Holds p [] h = h
  run-Holds p (act ∷ acts) h =
      Holds-bind IsValid IsValid (step_in a state p.stopped p.tasks act) _
        (step_in-IsValid p.stopped p.tasks act h) (λ next s. run-Holds next acts s)

  -- After any schedule, each task has served no request before its handshake, nor after a failed
  -- one, and has given to each request the answer that the service gives to it alone.
  pub run-IsValid : (acts : List Action) (p : Process) → run a state start acts ≡ some p → IsValid p
  run-IsValid acts p e = Holds-some IsValid (run a state start acts) p (run-Holds start acts tt) e
