-- ===== src/Redis/Types.antt =====
-- apis/cache/v1beta1/redis_types.go, without references and selectors; and the types of the SDK's
-- package redis, of which the string enumerations stay strings.
use provider_azure.Prelude.{ℕ, String, Bool, Option, List}
use provider_azure.Go.Maps.{GoMap, Slice}
use provider_azure.Vendor.{Conditions}

pub record Sku : Type 0 where
  pub name : String
  pub family : String
  pub capacity : ℕ  -- int

pub record RedisParameters : Type 0 where
  pub resource_group_name : String
  pub sku : Sku
  pub location : String
  pub subnet_id : Option String
  pub static_ip : Option String
  pub redis_configuration : GoMap String
  pub enable_non_ssl_port : Option Bool
  pub tenant_settings : GoMap String
  pub shard_count : Option ℕ  -- *int
  pub minimum_tls_version : Option String
  pub zones : Slice String
  pub tags : GoMap String

pub record RedisObservation : Type 0 where
  pub redis_version : String
  pub provisioning_state : String
  pub host_name : String
  pub port : ℕ  -- int
  pub ssl_port : ℕ  -- int
  pub linked_servers : Slice String
  pub id : String
  pub name : String

pub record Redis : Type 0 where
  pub external_name : String
  pub for_provider : RedisParameters
  pub at_provider : RedisObservation
  pub conditions : Conditions

-- `redis.Sku`
pub record AzureSku : Type 0 where
  pub name : String
  pub family : String
  pub capacity : Option ℕ  -- *int32

-- `redis.LinkedServer`
pub record LinkedServer : Type 0 where
  pub id : Option String

pub record CreateProperties : Type 0 where
  pub sku : Option AzureSku
  pub subnet_id : Option String
  pub static_ip : Option String
  pub enable_non_ssl_port : Option Bool
  pub redis_configuration : GoMap (Option String)
  pub tenant_settings : GoMap (Option String)
  pub shard_count : Option ℕ  -- *int32
  pub minimum_tls_version : String

pub record CreateParameters : Type 0 where
  pub location : Option String
  pub zones : Option (Slice String)
  pub tags : GoMap (Option String)
  pub properties : Option CreateProperties

pub record UpdateProperties : Type 0 where
  pub sku : Option AzureSku
  pub redis_configuration : GoMap (Option String)
  pub enable_non_ssl_port : Option Bool
  pub shard_count : Option ℕ  -- *int32
  pub tenant_settings : GoMap (Option String)
  pub minimum_tls_version : String

-- `redis.UpdateParameters`; the code never leaves its properties nil.
pub record UpdateParameters : Type 0 where
  pub tags : GoMap (Option String)
  pub properties : UpdateProperties

-- `redis.Properties`
pub record RedisProperties : Type 0 where
  pub redis_version : Option String
  pub provisioning_state : String
  pub host_name : Option String
  pub port : Option ℕ  -- *int32
  pub ssl_port : Option ℕ  -- *int32
  pub linked_servers : Option (List LinkedServer)
  pub sku : Option AzureSku
  pub subnet_id : Option String
  pub static_ip : Option String
  pub redis_configuration : GoMap (Option String)
  pub enable_non_ssl_port : Option Bool
  pub tenant_settings : GoMap (Option String)
  pub shard_count : Option ℕ  -- *int32
  pub minimum_tls_version : String

pub record ResourceType : Type 0 where
  pub id : Option String
  pub name : Option String
  pub zones : Slice String
  pub tags : GoMap (Option String)
  pub properties : Option RedisProperties
