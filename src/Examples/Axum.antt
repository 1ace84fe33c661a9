-- ===== src/Examples/Axum.antt =====
-- axum as small functions: a router that looks its table up, and answers that are what they say.
use sifir.Base.{
  ℕ, refl, List, [], ◌∷◌, ◌⊎◌, inl, inr, Option, none, some, length, leb, le→leb, if◌then◌else◌,
}
use sifir.Base.Text.{Str, Bytes}
use sifir.Crates.Web.{Answer}
use sifir.Server.Proxy.{Reply, json, with_bytes, with_text}
use sifir.Server.App.{
  Axum, Method, head, Route, Handler, IsRouter, IsResponder, route_of, serves, body_limit,
}

abbrev status_only : ℕ → Answer
status_only s = record { status = s; bytes = inr [] }

abbrev pick : Method → Option Route → Str ⊎ (Answer ⊎ Handler)
pick m none = inr (inl (status_only 404))
pick m (some r) = if serves r.method m then inr (inr r.handler) else inr (inl (status_only 405))

abbrev read_body : Str ⊎ Bytes → Answer ⊎ Bytes
read_body (inl e) = inl (status_only 400)
read_body (inr body) = if leb (length body) body_limit then inr body else inl (status_only 413)

abbrev finished : Method → Answer → Answer
finished head answer = record { status = answer.status; bytes = inr [] }
finished _ answer = answer

abbrev pub toy_response : Reply → Answer
toy_response (json r) = record { status = 200; bytes = inr (r.tokens_used ∷ r.text) }
toy_response (with_bytes s b) = record { status = s; bytes = inr b }
toy_response (with_text s t) = record { status = s; bytes = inr t }

abbrev pub toy_axum : Axum
toy_axum = record {
  oneshot = λ table m p. pick m (route_of table p);
  from_request = λ req. read_body req.body;
  into_response = toy_response;
  text_response = λ t. record { status = 200; bytes = inr t };
  finish = finished;
}

pub toy_axum-IsRouter : (table : List Route) → IsRouter toy_axum table
toy_axum-IsRouter table = record {
  found = λ m p r e s. rw (e, s) refl;
  wrong_method = λ m p r e s. (status_only 405, rw (e, s) refl, refl);
  unknown_path = λ m p e. (status_only 404, rw e refl, refl);
}

pub toy_axum-IsResponder : IsResponder toy_axum (λ r. r.tokens_used ∷ r.text)
toy_axum-IsResponder = record {
  into_response-json = λ r. refl;
  into_response-with_bytes = λ s b. refl;
  from_request_small = λ req body e small. rw (e, le→leb (length body) body_limit small) refl;
  finish-post = λ answer. refl;
}
