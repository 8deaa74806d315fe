-- ===== src/Asset/Resolving.antt =====
-- Resolving the active asset of a service: what the constraints of the table give.
use prefeitura_anti_hack.Prelude.{
  ℕ, ◌≤◌, ◌≡◌, String, List, [], ◌∷◌, All, All-filter, filter, length, arith, inl, inr,
  one_of_length-le, find_of_filter, find_of_filter_nil,
}
use prefeitura_anti_hack.Prelude.Python.{ok}
use prefeitura_anti_hack.Asset.{
  Asset, new_asset, has_id, serves, resolve_active_asset, find_active_asset,
}

-- what the constraints and the constructor keep of the table
pub record IsSound (rows : List Asset) : Type 0 where
  pub valid : All (λ a. new_asset a ≡ ok a) rows
  pub id_once : (i : ℕ) → length (filter (has_id i) rows) ≤ 1
  pub served_once : (t : ℕ) (s v : String) → length (filter (serves t s v) rows) ≤ 1

-- On a table that keeps its constraints, resolving the active asset of a service never raises,
-- leaves the table as it is, and finds the asset that the in-memory repository finds in the same
-- assets.
pub resolve_active_asset-agrees :
    (tenant : ℕ) (service environment : String) (rows : List Asset)
    → IsSound rows
    → resolve_active_asset tenant service environment rows
      ≡ (ok (find_active_asset tenant service environment rows), rows)
unfolding resolve_active_asset find_active_asset
resolve_active_asset-agrees tenant service environment rows h =
    let p = serves tenant service environment in
    elim (one_of_length-le (filter p rows) (h.served_once tenant service environment)) [
      | inl e ↦ ground (arith, e, find_of_filter_nil p rows)
      | inr (x, e) ↦
          let valid_x : All (λ a. new_asset a ≡ ok a) (x ∷ []) =
            rw e at (All-filter (λ a. new_asset a ≡ ok a) p rows h.valid) in
          ground (arith, e, valid_x.0, find_of_filter p rows x)
    ]
