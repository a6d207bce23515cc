-- ===== src/Config/Settings.antt =====
-- Which variable of the environment decides which setting.
use sentinel_flow_event_driv.Base.{◌≡◌, String, str_eq, if◌then◌else◌, arith}
use sentinel_flow_event_driv.Base.Dict.{Dict, insert, lookup-insert}
use sentinel_flow_event_driv.Config.{Config, get_env, load_config}

pub data Setting : Type 0 where
  database_type database_url broker_type redis_url log_format : Setting
  port_ingest port_marketing port_analytics port_crm crm_url : Setting

-- The variable of a setting, and its value in a configuration.
abbrev pub variable : Setting → String
variable Setting.database_type = "DATABASE_TYPE"
variable Setting.database_url = "DATABASE_URL"
variable Setting.broker_type = "BROKER_TYPE"
variable Setting.redis_url = "REDIS_URL"
variable Setting.log_format = "LOG_FORMAT"
variable Setting.port_ingest = "PORT_INGEST"
variable Setting.port_marketing = "PORT_MARKETING"
variable Setting.port_analytics = "PORT_ANALYTICS"
variable Setting.port_crm = "PORT_CRM"
variable Setting.crm_url = "CRM_URL"

abbrev pub value_of : Setting → Config → String
value_of Setting.database_type c = c.database_type
value_of Setting.database_url c = c.database_url
value_of Setting.broker_type c = c.broker_type
value_of Setting.redis_url c = c.redis_url
value_of Setting.log_format c = c.log_format
value_of Setting.port_ingest c = c.port_ingest
value_of Setting.port_marketing c = c.port_marketing
value_of Setting.port_analytics c = c.port_analytics
value_of Setting.port_crm c = c.port_crm
value_of Setting.crm_url c = c.crm_url

get_env-insert :
    (k v key default_value : String) (env : Dict String)
    → get_env (insert k v env) key default_value
      ≡ (if str_eq k key then v else get_env env key default_value)
unfolding get_env
get_env-insert k v key default_value env = ground (arith, lookup-insert k key v env)

-- Setting a variable of the environment gives its value to the setting that it names, also where the
-- value is empty, and changes no other setting.
pub load_config-insert :
    (k v : String) (s : Setting) (env : Dict String)
    → value_of s (load_config (insert k v env))
      ≡ (if str_eq k (variable s) then v else value_of s (load_config env))
unfolding load_config
load_config-insert k v Setting.database_type env = get_env-insert k v _ _ env
load_config-insert k v Setting.database_url env = get_env-insert k v _ _ env
load_config-insert k v Setting.broker_type env = get_env-insert k v _ _ env
load_config-insert k v Setting.redis_url env = get_env-insert k v _ _ env
load_config-insert k v Setting.log_format env = get_env-insert k v _ _ env
load_config-insert k v Setting.port_ingest env = get_env-insert k v _ _ env
load_config-insert k v Setting.port_marketing env = get_env-insert k v _ _ env
load_config-insert k v Setting.port_analytics env = get_env-insert k v _ _ env
load_config-insert k v Setting.port_crm env = get_env-insert k v _ _ env
load_config-insert k v Setting.crm_url env = get_env-insert k v _ _ env
