-- ===== src/Asset.antt =====
-- Asset of src/core/domain/incidents.py, and PostgresAssetRepository and InMemoryAssetRepository of
-- src/core/infrastructure/db/repositories.py with the constraints of AssetModel in
-- src/core/infrastructure/db/models.py. The in-memory dictionary is the list of its values in
-- insertion order; the table is the list of its rows.
pub mod Resolving
mod Examples
use prefeitura_anti_hack.Prelude.{
  ℕ, String, Bool, true, false, not, ◌&&◌, ◌||◌, Option, none, some, List, [], ◌∷◌, ◌++◌, any,
  filter, find, map, page, ◌==◌, str_eq, if◌then◌else◌,
}
use prefeitura_anti_hack.Prelude.Text.{is_blank}
use prefeitura_anti_hack.Prelude.Python.{
  Result, ok, err, checked, validations, raise_if, domain_error, integrity_error,
}
use prefeitura_anti_hack.Prelude.Exec.{Exec, pure, raise, lift, gets, modify, ◌>>=◌, ◌>>◌}
use prefeitura_anti_hack.Domain.{TimeValue, validate_utc_datetime}
use prefeitura_anti_hack.Correlation.Store.{scalar_one_or_none}

pub record Asset : Type 0 where
  pub tenant_id : ℕ
  pub name : String
  pub asset_type : String
  pub service_name : String
  pub environment : String
  pub criticality : String
  pub asset_id : ℕ
  pub is_active : Bool
  pub created_at : TimeValue
  pub updated_at : TimeValue
  pub hostname_or_ip : Option String

-- Asset.__post_init__
unfoldable pub new_asset : Asset → Result Asset
new_asset a =
    checked
      (validations (
        raise_if (is_blank a.name) domain_error
        ∷ raise_if (is_blank a.asset_type) domain_error
        ∷ raise_if (is_blank a.service_name) domain_error
        ∷ raise_if (is_blank a.environment) domain_error
        ∷ raise_if (is_blank a.criticality) domain_error
        ∷ validate_utc_datetime a.created_at
        ∷ validate_utc_datetime a.updated_at
        ∷ []))
      a

abbrev pub has_id : ℕ → Asset → Bool
has_id i a = a.asset_id == i

-- the row of an asset, for its tenant
abbrev pub is_asset : ℕ → ℕ → Asset → Bool
is_asset i tenant a = a.asset_id == i && a.tenant_id == tenant

abbrev pub serves : ℕ → String → String → Asset → Bool
serves tenant service environment a =
    a.tenant_id == tenant
    && (str_eq a.service_name service && (str_eq a.environment environment && a.is_active))

-- the primary key, and the partial unique index idx_assets_active_service_env_unique
unfoldable pub conflicts : Asset → List Asset → Bool
conflicts a rows =
    any (has_id a.asset_id) rows
    || a.is_active && any (serves a.tenant_id a.service_name a.environment) rows

-- what an update of an existing row writes
abbrev pub assigned : Asset → Asset → Asset
assigned a m = record m {
  name = a.name;
  asset_type = a.asset_type;
  service_name = a.service_name;
  environment = a.environment;
  criticality = a.criticality;
  is_active = a.is_active;
  hostname_or_ip = a.hostname_or_ip;
  updated_at = a.updated_at;
}

abbrev pub others : Asset → List Asset → List Asset
others a rows = filter (λ x. not (has_id a.asset_id x)) rows

-- session.flush() with the row of an asset added or changed
unfoldable pub flush_asset : Asset → Option Asset → Exec (List Asset) Asset
unfolding conflicts
flush_asset a none rows =
    if conflicts a rows then (err integrity_error, rows) else (new_asset a, rows ++ a ∷ [])
flush_asset a (some m) rows =
    let changed = assigned a m in
    if conflicts changed (others a rows) then (err integrity_error, rows) else (
      new_asset changed,
      map (λ x. if is_asset a.asset_id a.tenant_id x then changed else x) rows,
    )

-- PostgresAssetRepository.save
unfoldable pub save_asset : Asset → Exec (List Asset) Asset
save_asset a = do
  rows ← gets (filter (is_asset a.asset_id a.tenant_id))
  model ← lift (scalar_one_or_none rows)
  flush_asset a model

abbrev pub optional_asset : Option Asset → Result (Option Asset)
optional_asset none = ok none
optional_asset (some m) = elim (new_asset m) [ ok a ↦ ok (some a) | err x ↦ err x ]

-- PostgresAssetRepository.get_by_id
unfoldable pub select_asset : ℕ → ℕ → Exec (List Asset) (Option Asset)
select_asset i tenant = do
  rows ← gets (filter (is_asset i tenant))
  model ← lift (scalar_one_or_none rows)
  lift (optional_asset model)

-- PostgresAssetRepository.resolve_active_asset
unfoldable pub resolve_active_asset : ℕ → String → String → Exec (List Asset) (Option Asset)
resolve_active_asset tenant service environment = do
  rows ← gets (filter (serves tenant service environment))
  model ← lift (scalar_one_or_none rows)
  lift (optional_asset model)

-- self._assets[asset.asset_id] = asset
abbrev pub put : Asset → List Asset → List Asset
put a [] = a ∷ []
put a (x ∷ xs) = let rest = put a xs in if has_id a.asset_id x then a ∷ xs else x ∷ rest

-- InMemoryAssetRepository.save
abbrev pub save_in_memory : Asset → Exec (List Asset) Asset
save_in_memory a = do modify (put a); pure a

-- InMemoryAssetRepository.get_by_id
unfoldable pub find_asset : ℕ → ℕ → List Asset → Option Asset
find_asset i tenant assets = elim (find (has_id i) assets) [
  | none ↦ none
  | some a ↦ if a.tenant_id == tenant then some a else none
]

-- InMemoryAssetRepository.resolve_active_asset
unfoldable pub find_active_asset : ℕ → String → String → List Asset → Option Asset
find_active_asset tenant service environment assets =
    find (serves tenant service environment) assets

-- InMemoryAssetRepository.list
unfoldable pub list_in_memory : ℕ → ℕ → ℕ → List Asset → List Asset
list_in_memory tenant skip limit assets =
    page skip limit (filter (λ (a : Asset). a.tenant_id == tenant) assets)

-- the query of PostgresAssetRepository.list, with the order of its ORDER BY as a parameter
unfoldable pub list_assets : (List Asset → List Asset) → ℕ → ℕ → ℕ → List Asset → List Asset
list_assets order_by_created_at tenant skip limit rows =
    page skip limit (order_by_created_at (filter (λ (a : Asset). a.tenant_id == tenant) rows))
