-- ===== src/Server/App/Laws.antt =====
-- Which request reaches which handler, and which is handed on to the backend.
use sifir.Base.{
  ℕ, ◌≡◌, ◌≢◌, ◌⊎◌, refl, inl, inr, true, false, none, some, ◌===◌, ===_iff, Bool-cases, arith,
}
use sifir.Base.Text.{Str, text}
use sifir.Crates.Web.{Answer}
use sifir.Server.App.{
  Method, get, head, post, other, Handler, generate, health, Axum, IsRouter, Route, routes,
  route_of, serves,
}

abbrev pub generate_path : Str
generate_path = text "/v1/generate"

abbrev pub health_path : Str
health_path = text "/health"

-- The requests that no handler serves, with the status that they are answered with: 404 on an
-- unknown path, 405 for another method.
abbrev pub IsRefusal : Method → Str → ℕ → Type 0
IsRefusal m p status =
    ((p ≢ generate_path) × (p ≢ health_path) × (status ≡ 404))
    ⊎ (((p ≡ generate_path) × (m ≢ post) × (status ≡ 405))
        ⊎ ((p ≡ health_path) × (m ≢ get) × (m ≢ head) × (status ≡ 405)))

-- What the router does with a request, by its method and path.
abbrev pub IsRouted : Method → Str → Str ⊎ (Answer ⊎ Handler) → Type 0
IsRouted m p (inl e) = ⊥
IsRouted m p (inr (inl answer)) = IsRefusal m p answer.status
IsRouted m p (inr (inr generate)) = (p ≡ generate_path) × (m ≡ post)
IsRouted m p (inr (inr health)) = (p ≡ health_path) × ((m ≡ get) ⊎ (m ≡ head))

post_cases :
    (m : Method) → ((m ≡ post) × (serves post m ≡ true)) ⊎ ((m ≢ post) × (serves post m ≡ false))
post_cases get = inr ((λ e. cc e), refl)
post_cases head = inr ((λ e. cc e), refl)
post_cases post = inl (refl, refl)
post_cases (other s) = inr ((λ e. cc e), refl)

get_cases :
    (m : Method)
    → (((m ≡ get) ⊎ (m ≡ head)) × (serves get m ≡ true))
      ⊎ ((m ≢ get) × (m ≢ head) × (serves get m ≡ false))
get_cases get = inl (inl refl, refl)
get_cases head = inl (inr refl, refl)
get_cases post = inr ((λ e. cc e), (λ e. cc e), refl)
get_cases (other s) = inr ((λ e. cc e), (λ e. cc e), refl)

generate_route : Route
generate_route = record { path = generate_path; method = post; handler = generate }

health_route : Route
health_route = record { path = health_path; method = get; handler = health }

path_cases :
    (p : Str)
    → ((p ≡ generate_path) × (route_of routes p ≡ some generate_route))
      ⊎ (((p ≡ health_path) × (route_of routes p ≡ some health_route))
          ⊎ ((p ≢ generate_path) × (p ≢ health_path) × (route_of routes p ≡ none)))
unfolding generate_route health_route
path_cases p = elim (Bool-cases (p === generate_path)) [
  | inl e ↦ inl ((===_iff p generate_path).0 e, rw e refl)
  | inr n ↦ elim (Bool-cases (p === health_path)) [
    | inl e ↦ inr (inl ((===_iff p health_path).0 e, rw (n, e) refl))
    | inr k ↦ inr (
        inr (
          (λ e. cc ((===_iff p generate_path).1 e, n)),
          (λ e. cc ((===_iff p health_path).1 e, k)),
          rw (n, k) refl,
        ))
  ]
]

pub IsRefusal-unique : (m : Method) (p : Str) (s t : ℕ) → IsRefusal m p s → IsRefusal m p t → s ≡ t
IsRefusal-unique m p s t h k = grind arith

paths_ne : generate_path ≢ health_path
unfolding text
paths_ne e = cc e

-- A request that a handler serves is not refused.
pub IsRouted-served :
    (m : Method) (p : Str) (h : Handler) (s : ℕ) → IsRouted m p (inr (inr h)) → IsRefusal m p s → ⊥
IsRouted-served m p generate s r k = let n = paths_ne in ground arith
IsRouted-served m p health s r k = let n = paths_ne in ground arith

module _ (a : Axum) (router : IsRouter a routes) (m : Method) (p : Str) where
  refused :
      (answer : Answer)
      → a.oneshot routes m p ≡ inr (inl answer)
      → IsRefusal m p answer.status
      → IsRouted m p (a.oneshot routes m p)
  refused answer e h = rw e h

  picked :
      (h : Handler)
      → a.oneshot routes m p ≡ inr (inr h)
      → IsRouted m p (inr (inr h))
      → IsRouted m p (a.oneshot routes m p)
  picked h e r = rw e r

  -- The router picks the handler of a request by its method and path, answers 404 on an unknown
  -- path and 405 on a known one with another method, and never fails.
  pub oneshot_lem : IsRouted m p (a.oneshot routes m p)
  unfolding generate_route health_route
  oneshot_lem = elim (path_cases p) [
    | inl (e, r) ↦ elim (post_cases m) [
      | inl (k, s) ↦ picked generate (router.found m p generate_route r s) (e, k)
      | inr (k, s) ↦
          let (answer, o, c) = router.wrong_method m p generate_route r s in
          refused answer o (inr (inl (e, k, c)))
    ]
    | inr (inl (e, r)) ↦ elim (get_cases m) [
      | inl (k, s) ↦ picked health (router.found m p health_route r s) (e, k)
      | inr (k, l, s) ↦
          let (answer, o, c) = router.wrong_method m p health_route r s in
          refused answer o (inr (inr (e, k, l, c)))
    ]
    | inr (inr (k, l, r)) ↦
        let (answer, o, c) = router.unknown_path m p r in refused answer o (inl (k, l, c))
  ]

  pub oneshot-generate : p ≡ generate_path → m ≡ post → a.oneshot routes m p ≡ inr (inr generate)
  unfolding generate_route
  oneshot-generate e k =
      router.found m p generate_route (rw ((===_iff p generate_path).1 e) refl) (rw k refl)

  pub oneshot-health :
      p ≡ health_path → (m ≡ get) ⊎ (m ≡ head) → a.oneshot routes m p ≡ inr (inr health)
  unfolding health_route ◌===◌ text
  oneshot-health e (inl k) = router.found m p health_route (rw e refl) (rw k refl)
  oneshot-health e (inr k) = router.found m p health_route (rw e refl) (rw k refl)
