-- ===== src/Asset/Examples.antt =====
-- The repository of assets at a concrete table.
use prefeitura_anti_hack.Prelude.{◌≡◌, some, refl, true, none, [], ◌∷◌, arith}
use prefeitura_anti_hack.Prelude.Int.{pos}
use prefeitura_anti_hack.Prelude.Text.{is_blank, strip, lstrip, rstrip, is_space}
use prefeitura_anti_hack.Prelude.Python.{ok}
use prefeitura_anti_hack.Domain.{utc, validate_utc_datetime}
use prefeitura_anti_hack.Asset.{resolve_active_asset, Asset, new_asset}
use prefeitura_anti_hack.Asset.Resolving.{IsSound}

abbrev portal : Asset
portal = record {
  tenant_id = 7;
  name = "portal";
  asset_type = "web";
  service_name = "iptu";
  environment = "prod";
  criticality = "high";
  asset_id = 1;
  is_active = true;
  created_at = utc (pos 1);
  updated_at = utc (pos 1);
  hostname_or_ip = none;
}

portal-IsSound : IsSound (portal ∷ [])
unfolding new_asset is_blank strip lstrip rstrip is_space validate_utc_datetime
portal-IsSound = record {
  valid = (refl, tt);
  id_once = λ i. ground arith;
  served_once = λ t s v. ground arith;
}

portal_is_found :
    resolve_active_asset 7 "iptu" "prod" (portal ∷ []) ≡ (ok (some portal), portal ∷ [])
unfolding resolve_active_asset new_asset is_blank strip lstrip rstrip is_space validate_utc_datetime
portal_is_found = refl
