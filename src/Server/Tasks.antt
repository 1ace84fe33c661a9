-- ===== src/Server/Tasks.antt =====
-- poc/crates/sifir-server/src/main.rs: the tasks that the accept loop spawns, in any interleaving.
pub mod Invariant
pub mod History
pub mod Steps
pub mod Isolation
pub mod Sequential
pub mod Progress
pub mod Stop
use sifir.Base.{ℕ, List, [], ◌∷◌, ◌++◌, Option, none, some, ◌==◌, if◌then◌else◌, get_elem?, set}
use sifir.Base.Text.{Str}
use sifir.Crates.Web.{Post, Answer}
use sifir.Server.App.{Axum, AppState}
use sifir.Server.Main.{Exchange, answer}

-- The `do` blocks of this module.
infixl 5 ◌>>=◌
abbrev pub ◌>>=◌ {ℓ} : {A : Type ℓ} {B : Type ℓ} → Option A → (A → Option B) → Option B
none >>= f = none
some x >>= f = f x

-- A task waits for the handshake, serves requests, or has ended: by a failed handshake, or because
-- its connection is closed.
pub data Phase : Type 0 where
  handshaking : Phase
  serving : Phase
  failed : Str → Phase
  closed : Phase

-- A request that has been served, with what was sent to the backend and the answer.
pub record Served : Type 0 where
  pub exchange : Exchange
  pub result : List Post × Answer

pub record Task : Type 0 where
  pub phase : Phase
  pub log : List Served

-- What a task does next: the handshake ends, a request is served, or the connection is closed.
pub data TaskAction : Type 0 where
  handshake_ok : TaskAction
  handshake_fails : Str → TaskAction
  request : Exchange → TaskAction
  close : TaskAction

-- What the program does next: a connection is accepted, the listener fails, or a task goes on.
pub data Action : Type 0 where
  accept : Action
  listener_fails : Str → Action
  of_task : ℕ → TaskAction → Action

-- The tasks in the order in which their connections were accepted, and the listener's error, which
-- has ended the program.
pub record Process : Type 0 where
  pub tasks : List Task
  pub stopped : Option Str

abbrev pub fresh : Task
fresh = record { phase = handshaking; log = [] }

abbrev pub start : Process
start = record { tasks = []; stopped = none }

module _ (a : Axum) (state : AppState) where
  abbrev pub served : Exchange → Served
  served x = record { exchange = x; result = answer a state x }

  -- A step of a task, if it can make it.
  unfoldable pub advance_in : Phase → List Served → TaskAction → Option Task
  advance_in handshaking log handshake_ok = some (record { phase = serving; log = log })
  advance_in handshaking log (handshake_fails e) = some (record { phase = failed e; log = log })
  advance_in serving log (request x) =
      some (record { phase = serving; log = log ++ (served x ∷ []) })
  advance_in serving log close = some (record { phase = closed; log = log })
  advance_in _ log _ = none

  unfoldable pub advance : Task → TaskAction → Option Task
  advance t act = advance_in t.phase t.log act

  unfoldable pub run_task : Task → List TaskAction → Option Task
  run_task t [] = some t
  run_task t (act ∷ acts) = do next ← advance t act; run_task next acts

  -- A step of the program while its loop runs.
  unfoldable pub step_running : List Task → Action → Option Process
  step_running tasks accept = some (record { tasks = tasks ++ (fresh ∷ []); stopped = none })
  step_running tasks (listener_fails e) = some (record { tasks = tasks; stopped = some e })
  step_running tasks (of_task i act) = do
    t ← get_elem? tasks i
    next ← advance t act
    some (record { tasks = set tasks i next; stopped = none })

  -- After the listener's error nothing happens any more.
  unfoldable pub step_in : Option Str → List Task → Action → Option Process
  step_in none tasks act = step_running tasks act
  step_in (some e) tasks act = none

  unfoldable pub step : Process → Action → Option Process
  step p act = step_in p.stopped p.tasks act

  unfoldable pub run : Process → List Action → Option Process
  run p [] = some p
  run p (act ∷ acts) = do next ← step p act; run next acts
