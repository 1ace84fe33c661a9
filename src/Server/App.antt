-- ===== src/Server/App.antt =====
-- poc/crates/sifir-server/src/main.rs: the router, its handlers, and the answer to a request.
pub mod Laws
pub mod Answers
use sifir.Base.{
  ℕ, ◌≤◌, length, List, [], ◌∷◌, Bool, true, false, ◌⊎◌, inl, inr, Option, none, some, ◌≡◌, ◌===◌,
  if◌then◌else◌,
}
use sifir.Base.Text.{Str, Bytes, text}
use sifir.Crates.Web.{Post, Answer}
use sifir.Server.Proxy
use sifir.Server.Proxy.{Upstream, Reply, json, with_bytes, handle_generate}

pub data Method : Type 0 where
  get : Method
  head : Method
  post : Method
  other : Str → Method

-- A request of HTTP, as hyper hands it on. `headers` looks a header's value up; `body` is what
-- reading the body yields.
pub record Request : Type 0 where
  pub method : Method
  pub path : Str
  pub headers : Str → Option Str
  pub body : Str ⊎ Bytes

pub record AppState : Type 0 where
  pub backend_url : Option Str

unfoldable pub generate_handler :
    Upstream → AppState → (Str → Option Str) → Bytes → List Post × Reply
generate_handler u state headers body = handle_generate u headers body state.backend_url

unfoldable pub health_handler : Str
health_handler = text "ok"

pub data Handler : Type 0 where
  generate : Handler
  health : Handler

pub record Route : Type 0 where
  pub path : Str
  pub method : Method
  pub handler : Handler

-- The table that `main` hands to the router.
abbrev pub routes : List Route
routes =
    record { path = text "/v1/generate"; method = post; handler = generate }
    ∷ record { path = text "/health"; method = get; handler = health }
    ∷ []

-- axum: the router, which fails, answers itself or picks a handler; the extractor of a body, which
-- answers itself or yields the bytes; the answers that a handler's results become; and what the
-- router makes of a handler's answer.
pub record Axum : Type 0 where
  pub oneshot : List Route → Method → Str → Str ⊎ (Answer ⊎ Handler)
  pub from_request : Request → Answer ⊎ Bytes
  pub into_response : Reply → Answer
  pub text_response : Str → Answer
  pub finish : Method → Answer → Answer

-- The route of a path, and the methods that a route serves: HEAD is served by GET.
abbrev pub route_of : List Route → Str → Option Route
route_of [] p = none
route_of (r ∷ rs) p = if p === r.path then some r else route_of rs p

abbrev pub serves : Method → Method → Bool
serves get get = true
serves get head = true
serves post post = true
serves _ _ = false

-- What axum documents of a table of GET and POST routes with different paths and no captures.
pub record IsRouter (a : Axum) (table : List Route) : Type 0 where
  pub found :
      (m : Method) (p : Str) (r : Route)
      → route_of table p ≡ some r
      → serves r.method m ≡ true
      → a.oneshot table m p ≡ inr (inr r.handler)
  pub wrong_method :
      (m : Method) (p : Str) (r : Route)
      → route_of table p ≡ some r
      → serves r.method m ≡ false
      → (answer : Answer) × (a.oneshot table m p ≡ inr (inl answer)) × (answer.status ≡ 405)
  pub unknown_path :
      (m : Method) (p : Str)
      → route_of table p ≡ none
      → (answer : Answer) × (a.oneshot table m p ≡ inr (inl answer)) × (answer.status ≡ 404)

-- The limit that axum sets on the body of a request: 2 MiB.
abbrev pub body_limit : ℕ
body_limit = 2097152

-- A body within the limit is read; a JSON value is its text with status 200; the bytes and the status of a reply with bytes are kept,
-- and the answer to a POST request is sent as it is.
pub record IsResponder (a : Axum) (to_vec : Proxy.GenerateResponse → Bytes) : Type 0 where
  pub into_response-json :
      (r : Proxy.GenerateResponse)
      → a.into_response (json r) ≡ record { status = 200; bytes = inr (to_vec r) }
  pub into_response-with_bytes :
      (s : ℕ) (b : Bytes) → a.into_response (with_bytes s b) ≡ record { status = s; bytes = inr b }
  pub from_request_small :
      (req : Request) (body : Bytes)
      → req.body ≡ inr body
      → length body ≤ body_limit
      → a.from_request req ≡ inr body
  pub finish-post : (answer : Answer) → a.finish post answer ≡ answer

module _ (a : Axum) (u : Upstream) (state : AppState) where
  -- The handlers, with the extractor of the body in front.
  unfoldable pub call_generate : (Str → Option Str) → Answer ⊎ Bytes → List Post × Answer
  call_generate headers (inl rejection) = ([], rejection)
  call_generate headers (inr body) =
      let (posts, reply) = generate_handler u state headers body in (posts, a.into_response reply)

  unfoldable pub call : Handler → Request → List Post × Answer
  call generate req = call_generate req.headers (a.from_request req)
  call health req = ([], a.text_response health_handler)

  -- An error of the router becomes an empty answer with status 500; the `unwrap` of its builder is
  -- left out.
  unfoldable pub answer_routed : Request → Str ⊎ (Answer ⊎ Handler) → List Post × Answer
  answer_routed req (inl e) = ([], record { status = 500; bytes = inr [] })
  answer_routed req (inr (inl answer)) = ([], answer)
  answer_routed req (inr (inr handler)) =
      let (posts, answer) = call handler req in (posts, a.finish req.method answer)

  -- The service of a connection: what is sent to the backend, and the answer.
  unfoldable pub answer_request : Request → List Post × Answer
  answer_request req = answer_routed req (a.oneshot routes req.method req.path)
