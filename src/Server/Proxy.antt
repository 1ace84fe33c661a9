-- ===== src/Server/Proxy.antt =====
-- poc/crates/sifir-server/src/proxy.rs: the handler of /v1/generate.
use sifir.Base.{ℕ, List, [], ◌∷◌, ◌++◌, ◌⊎◌, inl, inr, Option, none, some}
use sifir.Base.Text.{Str, Bytes, text}
use sifir.Crates.Web.{Post, Answer}

pub record GenerateRequest : Type 0 where
  pub prompt : Str

pub record GenerateResponse : Type 0 where
  pub text : Str
  pub tokens_used : ℕ

-- What a handler hands to axum's `into_response`: a JSON value, a status with the bytes of the body,
-- or a status with a text.
pub data Reply : Type 0 where
  json : GenerateResponse → Reply
  with_bytes : ℕ → Bytes → Reply
  with_text : ℕ → Str → Reply

-- The deserialiser of a request, sending a request to the backend, and `StatusCode::from_u16`.
pub record Upstream : Type 0 where
  pub from_slice : Bytes → Str ⊎ GenerateRequest
  pub send : Post → Str ⊎ Answer
  pub from_u16 : ℕ → Option ℕ

-- `unwrap_or` and `unwrap_or_default`
abbrev status_or : ℕ → Option ℕ → ℕ
status_or d none = d
status_or d (some s) = s

abbrev body_or_default : Str ⊎ Bytes → Bytes
body_or_default (inl e) = []
body_or_default (inr b) = b

abbrev prompt_or : Str → Str ⊎ GenerateRequest → Str
prompt_or d (inl e) = d
prompt_or d (inr r) = r.prompt

module _ (u : Upstream) where
  unfoldable pub echo_response : Bytes → Reply
  echo_response body =
      let prompt = prompt_or (text "(unparseable request)") (u.from_slice body) in
      json (record { text = text "[mock inference] echo: " ++ prompt; tokens_used = 0 })

  -- The reply to the backend's answer.
  unfoldable pub reply_of : Str ⊎ Answer → Reply
  reply_of (inr resp) =
      with_bytes (status_or 500 (u.from_u16 resp.status)) (body_or_default resp.bytes)
  reply_of (inl e) = with_text 502 (text "backend unavailable: " ++ e)

  -- The requests that are sent to the backend, and the reply. `headers` looks a header's value up.
  -- The panic of `reqwest::Client::new()` without a TLS backend is left out.
  unfoldable pub handle_generate : (Str → Option Str) → Bytes → Option Str → List Post × Reply
  handle_generate headers body none = ([], echo_response body)
  handle_generate headers body (some url) =
      let req : Post = record {
        url = url ++ text "/v1/generate";
        content_type = headers (text "content-type");
        body = body;
      } in
      (req ∷ [], reply_of (u.send req))
