-- ===== src/Plugins/Manifest.antt =====
-- backend/src/plugins/interfaces/plugin-manifest.interface.ts and
-- backend/src/plugins/manifest/built-in-manifests.ts.
use crm_multi_tenant_saas_ar.Prelude.{ℕ, String, List, [], ◌∷◌}

pub data HookType : Type 0 where
  before after filter : HookType

pub record PluginHookDef : Type 0 where
  pub event : String
  pub type : HookType
  pub priority : ℕ

pub record PluginResourceLimits : Type 0 where
  pub timeout_ms : ℕ
  pub memory_mb : ℕ
  pub max_queries : ℕ

pub record PluginManifest : Type 0 where
  pub name : String
  pub version : String
  pub description : String
  pub dependencies : List String
  pub permissions : List String
  pub limits : PluginResourceLimits
  pub hooks : List PluginHookDef

abbrev pub default_limits : PluginResourceLimits
default_limits = record { timeout_ms = 5000; memory_mb = 50; max_queries = 50 }

abbrev pub customer_data_manifest : PluginManifest
customer_data_manifest = record {
  name = "customer-data";
  version = "1.0.0";
  description = "Contact management and customer data";
  dependencies = [];
  permissions = "customers:read" ∷ "customers:write" ∷ "customers:delete" ∷ [];
  limits = default_limits;
  hooks = [];
}

abbrev pub customer_care_manifest : PluginManifest
customer_care_manifest = record {
  name = "customer-care";
  version = "1.0.0";
  description = "Support case management and customer service";
  dependencies = "customer-data" ∷ [];
  permissions = "customers:read" ∷ "deals:read" ∷ "deals:write" ∷ [];
  limits = default_limits;
  hooks = record { event = "customer.create"; type = HookType.after; priority = 10 } ∷ [];
}

abbrev pub analytics_manifest : PluginManifest
analytics_manifest = record {
  name = "analytics";
  version = "1.0.0";
  description = "Business intelligence and reporting";
  dependencies = [];
  permissions = "analytics:view" ∷ [];
  limits = default_limits;
  hooks = [];
}

abbrev pub automation_manifest : PluginManifest
automation_manifest = record {
  name = "automation";
  version = "1.0.0";
  description = "Workflow automation and trigger management";
  dependencies = "customer-data" ∷ "analytics" ∷ [];
  permissions = "customers:read" ∷ "customers:write" ∷ "deals:read" ∷ [];
  limits = default_limits;
  hooks = [];
}

abbrev pub marketing_manifest : PluginManifest
marketing_manifest = record {
  name = "marketing";
  version = "1.0.0";
  description = "Campaign and email marketing management";
  dependencies = "customer-data" ∷ [];
  permissions = "customers:read" ∷ [];
  limits = default_limits;
  hooks = [];
}

abbrev pub built_in_manifests : List PluginManifest
built_in_manifests =
    customer_data_manifest ∷ customer_care_manifest ∷ analytics_manifest ∷ automation_manifest
    ∷ marketing_manifest ∷ []
