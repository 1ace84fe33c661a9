-- ===== src/Crates/Web.antt =====
-- The HTTP requests and responses of reqwest and axum, as far as the program reads and writes them.
use sifir.Base.{ℕ, Option, ◌⊎◌}
use sifir.Base.Text.{Str, Bytes}

-- A POST request.
pub record Post : Type 0 where
  pub url : Str
  pub content_type : Option Str
  pub body : Bytes

-- A response: its status, and its body or the error of the transfer.
pub record Answer : Type 0 where
  pub status : ℕ
  pub bytes : Str ⊎ Bytes

-- A client of reqwest: sending, and the test of the status, whose error names the URL.
pub record Reqwest : Type 0 where
  pub send : Post → Str ⊎ Answer
  pub error_for_status : Str → ℕ → Str ⊎ Unit {0}
