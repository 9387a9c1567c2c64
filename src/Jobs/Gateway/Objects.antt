-- ===== src/Jobs/Gateway/Objects.antt =====
-- pkg/jobs/gateway/gateway.go and the gateways of both versions, as far as the job looks into them.
use ks_upgrade.Base.{String, Bool, Option}
use ks_upgrade.Base.Dict.{Dict}

pub record GatewayOptions : Type 0 where
  pub gateway_name : String
  pub rerun : Bool

pub record Scope : Type 0 where
  pub enabled : Bool
  pub namespace : String
  pub namespace_selector : String

pub record ControllerSpec (Raw : Type 0) : Type 0 where
  pub fullname_override : String
  pub repository : String
  pub scope : Scope
  -- the fields that only the template reads
  pub others : Raw

pub record ServiceSpec : Type 0 where
  pub annotations : Option (Dict String)
  pub type : String

pub record GatewaySpec (Raw : Type 0) : Type 0 where
  pub controller : ControllerSpec Raw
  pub service : ServiceSpec
  pub deployment : Raw

-- The specification in version 4; its values are a JSON text.
pub record NewGatewaySpec : Type 0 where
  pub app_version : String
  pub values : String
