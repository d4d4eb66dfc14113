-- ===== src/Registry/Types.antt =====
-- plugin.PluginInfo and plugin.Plugin (pkg/plugin/plugin.go) and the Registry's state
-- (internal/registry/registry.go). What a plugin's methods answer is a field of the plugin.
use subnetree.Prelude.{
  String, Bool, false, List, [], ◌∷◌, Option, none, some, map, ◌==◌, string_eq, if◌then◌else◌, ℤ,
  pos,
}

pub record PluginInfo : Type 0 where
  pub name : String
  pub version : String
  pub dependencies : List String
  pub required : Bool
  pub roles : List String
  pub api_version : ℤ

-- How a call of Init, Start or Stop ends; a panic is recovered by the registry.
pub data Outcome : Type 0 where
  returned : Outcome
  failed panicked : String → Outcome

-- A plugin: its metadata, and what its methods answer. The optional interfaces Validator,
-- EventSubscriber and HTTPProvider are options; a subscription is its topic.
pub record Plugin : Type 0 where
  pub info : PluginInfo
  pub init : Outcome
  pub start : Outcome
  pub stop : Outcome
  pub validate_config : Option (Option String)
  pub subscriptions : Option (List String)
  pub routes : Option (List String)

-- The maps `plugins` and `infos` have the same keys and are one list, in the order of registration;
-- `disabled` lists the names whose flag is set.
pub record Registry : Type 0 where
  pub plugins : List Plugin
  pub order : List String
  pub disabled : List String

abbrev pub new : Registry
new = record { plugins = []; order = []; disabled = [] }

pub data Error : Type 0 where
  empty_name : Error
  already_registered : String → Error
  api_too_old api_too_new : String → ℤ → Error
  missing_dependency disabled_dependency cannot_start : String → String → Error
  dependency_cycle : List String → Error
  init_failed config_failed start_failed : String → Error

abbrev pub name_of : Plugin → String
name_of p = p.info.name

abbrev pub names_of : List Plugin → List String
names_of plugins = map name_of plugins

abbrev pub lookup : String → List Plugin → Option Plugin
lookup name [] = none
lookup name (p ∷ ps) = if name_of p == name then some p else lookup name ps

-- The zero value, which a map gives for an absent key.
abbrev no_info : PluginInfo
no_info = record {
  name = "";
  version = "";
  dependencies = [];
  required = false;
  roles = [];
  api_version = pos 0;
}

abbrev pub info_of : List Plugin → String → PluginInfo
info_of plugins name = elim (lookup name plugins) [ none ↦ no_info | some p ↦ p.info ]

abbrev pub dependencies_of : List Plugin → String → List String
dependencies_of plugins name = (info_of plugins name).dependencies
