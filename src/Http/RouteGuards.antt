-- ===== src/Http/RouteGuards.antt =====
-- What is to show of a route of internal/api/server.go: the requests that the table of Http/Access does
-- not list leave the store alone.
use woms.Base.{◌≡◌, ◌&&◌, not, Bool, true, false, String, str_eq, if◌then◌else◌, arith}
use woms.Base.Results.{ok}
use woms.Domain.{Role}
use woms.Api.Requests.{Claims}
use woms.Http.Server.{HttpRequest, Server, World, Handler, claims_from_request}
use woms.Http.Routes.{ServerRoute, path_matches, matches, with_claims}
use woms.Http.Access.{Grant, granted, may_change, str_eq-swap, and-refused, and-true}
use woms.Http.Guards.{claimed-Kept}

-- A route with a method matches requests with that method only.
fixed_method :
    (known b p : Bool)
    → known ≡ false
    → (if not known && not b then false else p) ≡ true
    → (b ≡ true) × (p ≡ true)
fixed_method known b p h k = ground arith

pub true≢false : true ≡ false → ⊥
true≢false h = cc

module _ {ℓ} {R S : Type ℓ} (srv : Server R S) where
  -- The request may not change the store, whoever its claims say it is from.
  abbrev pub IsRefused : HttpRequest → World R S → Type 0
  IsRefused r w =
      (c : Claims) → (claims_from_request srv r w).1 ≡ ok c → may_change c.role r ≡ false

  pub record Guarded (route : ServerRoute R S) : Type ℓ where
    pub kept :
        (r : HttpRequest) (w : World R S)
        → matches route r ≡ true
        → IsRefused r w
        → (route.handler r w).0.store ≡ w.store

  fixed_facts :
      (route : ServerRoute R S) (r : HttpRequest)
      → str_eq route.method "" ≡ false
      → matches route r ≡ true
      → (str_eq r.method route.method ≡ true) × (path_matches route.path route.prefix r.path ≡ true)
  unfolding matches
  fixed_facts route r known h =
      let (same, path) =
        fixed_method (str_eq route.method "") (str_eq route.method r.method)
          (path_matches route.path route.prefix r.path) known h in
      (str_eq-swap route.method r.method same, path)

  -- A route whose handler reads only.
  pub reading :
      (method path prefix : String) (next : Server R S → Claims → Handler R S)
      → ((c : Claims) (r : HttpRequest) (v : World R S) → (next srv c r v).0.store ≡ v.store)
      → Guarded
          (record { method = method; path = path; prefix = prefix; handler = with_claims srv next })
  reading method path prefix next h = record {
    kept = λ r w found refused. claimed-Kept srv (next srv) r w λ c got v. h c r v;
  }

  -- A route whose handler is that of one row of the table.
  pub writing :
      (g : Grant) (next : Server R S → Claims → Handler R S)
      → str_eq g.method "" ≡ false
      → ((role : Role) (r : HttpRequest) → may_change role r ≡ false → granted role r g ≡ false)
      → ((c : Claims) (r : HttpRequest) (v : World R S)
          → g.roles c.role ≡ false
          → (next srv c r v).0.store ≡ v.store)
      → Guarded (record {
        method = g.method;
        path = g.path;
        prefix = g.prefix;
        handler = with_claims srv next;
      })
  writing g next known row h = record {
    kept = λ r w found refused.
        let (method, path) =
          fixed_facts
            (record {
              method = g.method;
              path = g.path;
              prefix = g.prefix;
              handler = with_claims srv next;
            })
            r known found in
        claimed-Kept srv (next srv) r w λ c got v. h c r v (
          and-true (str_eq r.method g.method) (g.roles c.role)
            (and-refused (str_eq r.method g.method) (path_matches g.path g.prefix r.path)
              (g.roles c.role) (row c.role r (refused c got)) path)
            method);
  }
