-- ===== src/Client/Request.antt =====
-- poc/crates/sifir-client/src/request.rs: the inference request.
use sifir.Base.{ℕ, ◌++◌, some, ◌⊎◌, Outcome, ◌>>=◌, ◌>>◌, attempt}
use sifir.Base.Text.{Str, Bytes, text}
use sifir.Crates.Web.{Reqwest}

pub record GenerateRequest : Type 0 where
  pub prompt : Str
  pub max_tokens : ℕ

pub record GenerateResponse : Type 0 where
  pub text : Str
  pub tokens_used : ℕ

-- What serde derives for the two.
pub record Codec : Type 0 where
  pub to_vec : GenerateRequest → Bytes
  pub from_slice : Bytes → Str ⊎ GenerateResponse

-- `RequestBuilder::json` writes the body and its content type.
unfoldable pub generate : Codec → Reqwest → Str → Str → ℕ → Outcome Str GenerateResponse
generate j client base_url prompt max_tokens = do
  let url = base_url ++ text "/v1/generate"
  resp ←
      attempt (λ e. e)
        (client.send (record {
          url = url;
          content_type = some (text "application/json");
          body = j.to_vec (record { prompt = prompt; max_tokens = max_tokens });
        }))
  attempt (λ e. e) (client.error_for_status url resp.status)
  body ← attempt (λ e. e) resp.bytes
  attempt (λ e. e) (j.from_slice body)
