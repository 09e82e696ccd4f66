-- ===== src/Api/Routing.antt =====
-- Routing and authentication, of `ServeHTTP` and `authenticate` in pkg/api/handlers.go. Paths and
-- headers are strings, cut at byte positions.
pub mod Guarded
use Prim.Native.String.{slice, len}
use serverless_flux.Base.{
  ℕ, ◌-◌, String, Bool, ◌&&◌, not, leb, ltb, ◌==◌, starts_with, if◌then◌else◌,
}

-- The handlers, with the name of a function or the identifier of an execution.
pub data Endpoint : Type 0 where
  health agents initialize register_agent register_function : Endpoint
  deploy get_execution cancel_execution async_execute execute : String → Endpoint
  cleanup_nodes resources : Endpoint

-- What becomes of a request: a handler takes it, or it is answered with 401 or 404.
pub data Routed : Type 0 where
  handled : Endpoint → Routed
  unauthorized : Routed
  not_found : Routed

-- `strings.TrimPrefix`
abbrev pub trim_prefix : String → String → String
trim_prefix s part = if starts_with s part then slice s (len part) (len s) else s

-- `strings.HasSuffix`
abbrev pub ends_with : String → String → Bool
ends_with s part = leb (len part) (len s) && slice s (len s - len part) (len s) == part

-- `strings.TrimSuffix`
abbrev pub trim_suffix : String → String → String
trim_suffix s part = if ends_with s part then slice s 0 (len s - len part) else s

-- the key that a request shows, from its headers X-API-Key and Authorization
abbrev pub shown_key : String → String → String
shown_key api_key authorization =
    if not (api_key == "")
    then api_key
    else if ltb 7 (len authorization) && slice authorization 0 7 == "Bearer "
    then slice authorization 7 (len authorization)
    else authorization

-- against the configured key
unfoldable pub authenticate : String → String → String → Bool
authenticate key api_key authorization = shown_key api_key authorization == key

abbrev pub guarded : Bool → Endpoint → Routed
guarded auth e = if not auth then unauthorized else handled e

-- `ServeHTTP`, on whether the request is authenticated, the path and the method
unfoldable pub route : Bool → String → String → Routed
route auth path method =
    if path == "/health" && method == "GET"
    then handled health
    else if path == "/agents" && method == "GET"
    then handled agents
    else if path == "/initialize" && method == "POST"
    then guarded auth initialize
    else if path == "/agents/register" && method == "POST"
    then guarded auth register_agent
    else if path == "/functions" && method == "PUT"
    then guarded auth register_function
    else if starts_with path "/deploy/" && method == "PUT"
    then guarded auth (deploy (trim_prefix path "/deploy/"))
    else if starts_with path "/executions/" && method == "GET"
    then guarded auth (get_execution (trim_prefix path "/executions/"))
    else if starts_with path "/executions/" && method == "DELETE"
    then guarded auth (cancel_execution (trim_prefix path "/executions/"))
    else if starts_with path "/execute/" && ends_with path "/async" && method == "POST"
    then guarded auth (async_execute (trim_suffix (trim_prefix path "/execute/") "/async"))
    else if starts_with path "/execute/" && method == "POST"
    then guarded auth (execute (trim_prefix path "/execute/"))
    else if path == "/nodes" && method == "DELETE"
    then guarded auth cleanup_nodes
    else if path == "/resources" && method == "GET"
    then guarded auth resources
    else not_found
