-- ===== src/Api/Routing/Guarded.antt =====
-- Which requests reach a handler of pkg/api/handlers.go.
use serverless_flux.Base.{
  String, starts_with, ◌==◌, ◌&&◌, Bool, true, false, ◌≡◌, refl, ◌⊎◌, inl, inr, if◌then◌else◌,
}
use serverless_flux.Api.Routing.{
  ends_with, health, agents, Routed, handled, unauthorized, not_found, route,
}

-- The result is a refusal, or one of the two handlers that need no key.
abbrev pub IsOpen : Routed → Type 0
IsOpen r = (r ≡ unauthorized) ⊎ (r ≡ not_found) ⊎ (r ≡ handled health) ⊎ (r ≡ handled agents)

if-IsOpen : (b : Bool) (r s : Routed) → IsOpen r → IsOpen s → IsOpen (if b then r else s)
if-IsOpen true r s h k = h
if-IsOpen false r s h k = k

-- Without authentication a request is answered with 401 or 404, or reaches the handler of
-- /health or that of GET /agents: no other handler runs.
pub route-IsOpen : (path method : String) → IsOpen (route false path method)
unfolding route
route-IsOpen path method =
    if-IsOpen (path == "/health" && method == "GET") _ _ (inr (inr (inl refl))) (
      if-IsOpen (path == "/agents" && method == "GET") _ _ (inr (inr (inr refl))) (
        shut (path == "/initialize" && method == "POST") _ (
          shut (path == "/agents/register" && method == "POST") _ (
            shut (path == "/functions" && method == "PUT") _ (
              shut (starts_with path "/deploy/" && method == "PUT") _ (
                shut (starts_with path "/executions/" && method == "GET") _ (
                  shut (starts_with path "/executions/" && method == "DELETE") _ (
                    shut
                      (starts_with path "/execute/" && ends_with path "/async" && method == "POST")
                      _
                      (shut (starts_with path "/execute/" && method == "POST") _ (
                        shut (path == "/nodes" && method == "DELETE") _ (
                          shut (path == "/resources" && method == "GET") _
                            (inr (inl refl)))))))))))))
  where
    shut : (b : Bool) (s : Routed) → IsOpen s → IsOpen (if b then unauthorized else s)
    shut b s h = if-IsOpen b unauthorized s (inl refl) h
