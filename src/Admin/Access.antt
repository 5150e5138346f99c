-- ===== src/Admin/Access.antt =====
-- internal/admin/server.go: who can inject a fault.
use boiler_pulse.Prelude.{
  ℕ, ◌≡◌, ◌≢◌, ◌⊎◌, refl, ap, ◌∙◌, List, [], ◌∷◌, ◌++◌, Option, arith, inl, inr, Bool-cases,
}
use boiler_pulse.Bytes.{bytes_eq, bytes_eq_sound, bytes_eq_iff}
use boiler_pulse.Raft.Rpc.{Rate}
use boiler_pulse.Admin.{AdminServer, FaultRequest, Endpoint, bearer, authenticated}

-- Requests to the endpoints, each with its Authorization header, one after the other.
module _ {F : Type 0} (fl : Rate F) (decode : List ℕ → Option (FaultRequest F)) where
  unfoldable pub serve_all : List (List ℕ × Endpoint) → AdminServer F → AdminServer F
  unfolding authenticated
  serve_all [] s = s
  serve_all ((header, e) ∷ requests) s = serve_all requests (authenticated fl decode header e s).0

  abbrev pub NoneHolds : List ℕ → List (List ℕ × Endpoint) → Type 0
  NoneHolds token [] = Unit {0}
  NoneHolds token ((header, e) ∷ requests) = (header ≢ bearer ++ token) × NoneHolds token requests

  authenticated_refuses :
      (header : List ℕ) (e : Endpoint) (s : AdminServer F)
      → (s.token ≡ []) ⊎ (header ≢ bearer ++ s.token)
      → (authenticated fl decode header e s).0 ≡ s
  unfolding authenticated
  authenticated_refuses header e s h = elim (Bool-cases (bytes_eq s.token [])) [
    | inl off ↦ rw off refl
    | inr on ↦ elim (Bool-cases (bytes_eq header (bearer ++ s.token))) [
      | inr wrong ↦ rw (on, wrong) refl
      | inl same ↦ absurd (elim h [
        | inl no_token ↦ ground (arith, on, (bytes_eq_iff s.token []).1 no_token)
        | inr differs ↦ differs (bytes_eq_sound header (bearer ++ s.token) same)
      ])
    ]
  ]

  -- A sequence of requests to the admin endpoints leaves the server as it was, faults and all, if
  -- no token is configured, or if no request has the header "Bearer" with the token.
  pub serve_all_refuses :
      (requests : List (List ℕ × Endpoint)) (s : AdminServer F)
      → (s.token ≡ []) ⊎ NoneHolds s.token requests
      → serve_all requests s ≡ s
  unfolding serve_all
  serve_all_refuses [] s h = refl
  serve_all_refuses ((header, e) ∷ requests) s (inl off) =
      ap (serve_all requests) (authenticated_refuses header e s (inl off))
      ∙ serve_all_refuses requests s (inl off)
  serve_all_refuses ((header, e) ∷ requests) s (inr (wrong, others)) =
      ap (serve_all requests) (authenticated_refuses header e s (inr wrong))
      ∙ serve_all_refuses requests s (inr others)
