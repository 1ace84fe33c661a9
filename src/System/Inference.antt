-- ===== src/System/Inference.antt =====
-- The client's request in the server's handler.
use sifir.Base.{
  ◌===◌, ===_iff, if◌then◌else◌, ℕ, ◌≡◌, ◌↔◌, refl, inl, inr, ok, ◌⊎◌, ◌++◌, Option, some, none,
  arith, Outcome, ◌>>◌, attempt, length, ◌≤◌,
}
use sifir.Base.Text.{Str, Bytes, text}
use sifir.Crates.Web.{Post, Answer, Reqwest}
use sifir.Client.Request
use sifir.Client.Request.{Codec, generate}
use sifir.Server.Proxy
use sifir.Server.Proxy.{
  Upstream, Reply, json, with_bytes, with_text, handle_generate, echo_response, reply_of,
}
use sifir.Server.App.{
  Axum, AppState, post, Request, IsRouter, IsResponder, routes, generate_handler, body_limit,
  answer_request,
}
use sifir.Server.App.Laws.{generate_path}
use sifir.Server.App.Answers.{answer_request-generate}

-- The header map of a request, as its handler looks it up.
unfoldable pub headers_of : Post → Str → Option Str
headers_of p name = if name === text "content-type" then p.content_type else none

headers_of_lem : (p : Post) → headers_of p (text "content-type") ≡ p.content_type
unfolding headers_of
headers_of_lem p = rw ((===_iff (text "content-type") (text "content-type")).1 refl)

-- Two tests that pass alike stand for each other in front of the same steps.
attempt_iff :
    {A : Type 0} (x y : Str ⊎ Unit {0}) (k : Outcome Str A) (r : A)
    → (x ≡ inr tt) ↔ (y ≡ inr tt)
    → ((do attempt (λ e. e) x; k) ≡ ok r) ↔ ((do attempt (λ e. e) y; k) ≡ ok r)
attempt_iff (inl x) (inl y) k r h = ground arith
attempt_iff (inl x) (inr y) k r h = ground arith
attempt_iff (inr x) (inl y) k r h = ground arith
attempt_iff (inr x) (inr y) k r h = ground arith

-- The request that the server receives for one of the client; `path_of` reads the path of a URL.
abbrev pub received : (Str → Str) → Post → Request
received path_of p = record {
  method = post;
  path = path_of p.url;
  headers = headers_of p;
  body = inr p.body;
}

-- A client whose requests reach the server.
abbrev pub connected :
    Axum → Upstream → AppState → (Str → Str) → (Str → ℕ → Str ⊎ Unit {0}) → Reqwest
connected a u state path_of error_for_status = record {
  send = λ p. inr (answer_request a u state (received path_of p)).1;
  error_for_status = error_for_status;
}

module _ (a : Axum) (router : IsRouter a routes) (to_vec : Proxy.GenerateResponse → Bytes)
    (responder : IsResponder a to_vec) (path_of : Str → Str) (u : Upstream) (j : Codec)
    (error_for_status : Str → ℕ → Str ⊎ Unit {0}) where
  -- What the client gets for a POST request to /v1/generate.
  send_lem :
      (state : AppState) (p : Post)
      → path_of p.url ≡ generate_path
      → length p.body ≤ body_limit
      → (answer_request a u state (received path_of p)).1
        ≡ a.into_response (generate_handler u state (headers_of p) p.body).1
  send_lem state p path small =
      rw
        (answer_request-generate a router u state (received path_of p) p.body refl path
          (responder.from_request_small (received path_of p) p.body refl small))
        (rw (responder.finish-post _) refl)

  -- The request that the client makes of its arguments.
  abbrev pub posted : Str → Str → ℕ → Post
  posted base_url prompt max_tokens = record {
    url = base_url ++ text "/v1/generate";
    content_type = some (text "application/json");
    body = j.to_vec (record { prompt = prompt; max_tokens = max_tokens });
  }

  -- Without a backend the client gets the echo of its prompt, and zero tokens, whatever its limit
  -- is, if its request is within axum's limit, the two sides read each other's JSON and 200 is no
  -- error.
  pub generate-echo :
      (base_url prompt : Str) (max_tokens : ℕ)
      → path_of (base_url ++ text "/v1/generate") ≡ generate_path
      → length (posted base_url prompt max_tokens).body ≤ body_limit
      → u.from_slice (posted base_url prompt max_tokens).body ≡ inr (record { prompt = prompt })
      → ((r : Proxy.GenerateResponse)
          → j.from_slice (to_vec r) ≡ inr (record { text = r.text; tokens_used = r.tokens_used }))
      → ((url : Str) → error_for_status url 200 ≡ inr tt)
      → generate j
          (connected a u (record { backend_url = none }) path_of error_for_status)
          base_url
          prompt
          max_tokens
        ≡ ok (record { text = text "[mock inference] echo: " ++ prompt; tokens_used = 0 })
  unfolding generate generate_handler handle_generate echo_response
  generate-echo base_url prompt max_tokens path small e f g =
      let sent =
        send_lem (record { backend_url = none }) (posted base_url prompt max_tokens) path small in
      rw (sent, e, responder.into_response-json, f, g)

  -- With a backend that always answers, with a valid status and a readable body, the client gets
  -- through the proxy the response that it would get from the backend itself, and none otherwise,
  -- if its path is the one of the URL, it is within axum's limit, axum keeps its laws and the
  -- test of the status does not depend on the URL.
  pub generate-proxy :
      (base_url url prompt : Str) (max_tokens : ℕ) (result : Request.GenerateResponse)
      → path_of (base_url ++ text "/v1/generate") ≡ generate_path
      → length (posted base_url prompt max_tokens).body ≤ body_limit
      → ((p : Post) (answer : Answer)
          → u.send p ≡ inr answer
          → (u.from_u16 answer.status ≡ some answer.status)
            × (body : Bytes) × (answer.bytes ≡ inr body))
      → ((p : Post) → (answer : Answer) × (u.send p ≡ inr answer))
      → ((s : ℕ) (x y : Str) → (error_for_status x s ≡ inr tt) ↔ (error_for_status y s ≡ inr tt))
      → (generate j
            (connected a u (record { backend_url = some url }) path_of error_for_status)
            base_url
            prompt
            max_tokens
          ≡ ok result)
        ↔ (generate j
              (record { send = u.send; error_for_status = error_for_status })
              url
              prompt
              max_tokens
            ≡ ok result)
  unfolding generate generate_handler handle_generate reply_of
  generate-proxy base_url url prompt max_tokens result path small valid answers same =
      let sent =
        send_lem (record { backend_url = some url }) (posted base_url prompt max_tokens) path
          small in
      let (answer, reached) = answers (posted url prompt max_tokens) in
      let (kept, body, read) = valid (posted url prompt max_tokens) answer reached in
      rw (sent, headers_of_lem _, reached, kept, responder.into_response-with_bytes, read)
        (attempt_iff _ _ _ result (same answer.status _ _))
