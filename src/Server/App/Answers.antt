-- ===== src/Server/App/Answers.antt =====
-- What the service of a connection sends to the backend, and what it answers by itself.
use sifir.Base.{ℕ, ◌∙◌, ◌≡◌, ◌↔◌, ◌⊎◌, refl, sym, inl, inr, List, [], ◌∷◌, ◌++◌, Option, none, some}
use sifir.Base.Text.{Str, Bytes, text}
use sifir.Crates.Web.{Post, Answer}
use sifir.Server.Proxy.{Upstream, handle_generate}
use sifir.Server.App.{
  post, Request, AppState, Handler, generate, health, Axum, IsRouter, routes, call, call_generate,
  generate_handler, answer_routed, answer_request,
}
use sifir.Server.App.Laws.{
  generate_path, IsRouted, IsRefusal, IsRefusal-unique, IsRouted-served, oneshot_lem,
  oneshot-generate,
}

-- The request that is sent to the backend for a client's.
abbrev pub forwarded : Str → Request → Bytes → Post
forwarded url req body = record {
  url = url ++ text "/v1/generate";
  content_type = req.headers (text "content-type");
  body = body;
}

module _ (a : Axum) (router : IsRouter a routes) (u : Upstream) (state : AppState)
    (req : Request) where
  -- `posts` is one request, the client's, for a POST request to /v1/generate with a readable body
  -- on a server with a backend.
  abbrev pub IsForwarded : List Post → Type 0
  IsForwarded posts =
      (url : Str) × (body : Bytes) × (state.backend_url ≡ some url)
      × (req.method ≡ post)
      × (req.path ≡ generate_path)
      × (a.from_request req ≡ inr body)
      × (posts ≡ forwarded url req body ∷ [])

  call_generate-posts :
      (backend : Option Str) (read : Answer ⊎ Bytes)
      → state.backend_url ≡ backend
      → a.from_request req ≡ read
      → req.method ≡ post
      → req.path ≡ generate_path
      → ((call_generate a u state req.headers read).0 ≡ [])
        ⊎ IsForwarded (call_generate a u state req.headers read).0
  unfolding call_generate generate_handler handle_generate
  call_generate-posts backend (inl rejection) b r m p = inl refl
  call_generate-posts none (inr body) b r m p = inl (rw b refl)
  call_generate-posts (some url) (inr body) b r m p = inr (url, body, b, m, p, r, rw b refl)

  answer_routed-posts :
      (o : Str ⊎ (Answer ⊎ Handler))
      → IsRouted req.method req.path o
      → ((answer_routed a u state req o).0 ≡ []) ⊎ IsForwarded (answer_routed a u state req o).0
  unfolding answer_routed call
  answer_routed-posts (inl e) h = inl refl
  answer_routed-posts (inr (inl answer)) h = inl refl
  answer_routed-posts (inr (inr generate)) (p, m) =
      call_generate-posts state.backend_url (a.from_request req) refl refl m p
  answer_routed-posts (inr (inr health)) h = inl refl

  pub answer_request-posts :
      ((answer_request a u state req).0 ≡ []) ⊎ IsForwarded (answer_request a u state req).0
  unfolding answer_request
  answer_request-posts = answer_routed-posts _ (oneshot_lem a router req.method req.path)

  -- A POST request to /v1/generate with a readable body gets the handler's answer.
  pub answer_request-generate :
      (body : Bytes)
      → req.method ≡ post
      → req.path ≡ generate_path
      → a.from_request req ≡ inr body
      → answer_request a u state req ≡ (
        (generate_handler u state req.headers body).0,
        a.finish post (a.into_response (generate_handler u state req.headers body).1),
      )
  unfolding answer_request answer_routed call call_generate
  answer_request-generate body m p r =
      rw (oneshot-generate a router req.method req.path p m, r, m) refl

  posts-generate_handler :
      (url : Str) (body : Bytes)
      → state.backend_url ≡ some url
      → (generate_handler u state req.headers body).0 ≡ forwarded url req body ∷ []
  unfolding generate_handler handle_generate
  posts-generate_handler url body b = rw b refl

  -- The backend gets at most one request for one of a client, and exactly then: the client's own,
  -- by POST to /v1/generate with a readable body, on a server with a backend, if the router does
  -- what axum documents of the table.
  pub answer_request-posts_iff :
      (p : Post) (ps : List Post)
      → ((answer_request a u state req).0 ≡ p ∷ ps) ↔ IsForwarded (p ∷ ps)
  answer_request-posts_iff p ps = (
    λ h. elim answer_request-posts [
      | inl e ↦ cc
      | inr (url, body, b, m, k, r, e) ↦ (url, body, b, m, k, r, sym h ∙ e)
    ],
    λ (url, body, b, m, k, r, e).
        rw (answer_request-generate body m k r) (posts-generate_handler url body b ∙ sym e),
  )

  abbrev pub IsError : ℕ → List Post × Answer → Type 0
  IsError status r = (r.0 ≡ []) × (r.1.status ≡ status)

  answer_routed_refused :
      (status : ℕ) (o : Str ⊎ (Answer ⊎ Handler))
      → IsRouted req.method req.path o
      → IsRefusal req.method req.path status
      → IsError status (answer_routed a u state req o)
  unfolding answer_routed
  answer_routed_refused status (inl e) routed refused = absurd routed
  answer_routed_refused status (inr (inl answer)) routed refused =
      (refl, IsRefusal-unique req.method req.path answer.status status routed refused)
  answer_routed_refused status (inr (inr handler)) routed refused =
      absurd (IsRouted-served req.method req.path handler status routed refused)

  -- Nothing is sent to the backend for a request to another path, which is answered with status
  -- 404, nor for one by another method than POST to /v1/generate or than GET and HEAD to /health,
  -- which is answered with 405, if the router does what axum documents of the table.
  pub answer_request_refused :
      (status : ℕ)
      → IsRefusal req.method req.path status
      → IsError status (answer_request a u state req)
  unfolding answer_request
  answer_request_refused status =
      answer_routed_refused status _ (oneshot_lem a router req.method req.path)
