-- ===== src/Registry.antt =====
-- pkg/registry/registry.go: the directory of the agents that are connected here, and its calls of the
-- controller. `parse_tenant` stands for `identity.Parse`, which gives the tenant of a name; what the
-- controller answers is an argument.
pub mod Fleet
pub mod Routes
pub mod Order
mod Samples
use outrelay_relay.Common.{
  ℕ, none, some, [], ◌∷◌, Bytes, Dict, put, Option, get, del, if◌then◌else◌, List, bytes_eq, ◌==◌,
  not,
}

-- A connection of an agent, told from other ones by its number.
pub record Provider : Type 0 where
  pub conn : ℕ
  pub uri : Bytes

pub record Registry : Type 0 where
  pub relay_id : Bytes
  pub region : Bytes
  pub agent_conns : Dict Bytes Provider

unfoldable pub new_registry : Bytes → Bytes → Registry
new_registry relay_id region = record { relay_id = relay_id; region = region; agent_conns = [] }

unfoldable pub register_agent : Bytes → Provider → Registry → Registry
register_agent uri p r = record r { agent_conns = put uri p r.agent_conns }

unfoldable pub lookup_agent : Bytes → Registry → Option Provider
lookup_agent uri r = get uri r.agent_conns

pub record DeregisterAgentRequest : Type 0 where
  pub tenant : Bytes
  pub agent_uri : Bytes
  pub relay_id : Bytes

pub record RegisterServiceRequest : Type 0 where
  pub tenant : Bytes
  pub service_name : Bytes
  pub agent_uri : Bytes
  pub relay_id : Bytes
  pub local_addr : Bytes

pub record ResolveRequest : Type 0 where
  pub tenant : Bytes
  pub service_name : Bytes
  pub caller_region : Bytes

-- A provider as the controller lists it.
pub record ServiceProvider : Type 0 where
  pub relay_id : Bytes
  pub relay_endpoint : Bytes
  pub agent_uri : Bytes

pub record Remote : Type 0 where
  pub relay_id : Bytes
  pub endpoint : Bytes
  pub agent_uri : Bytes

pub data RegistryError : Type 0 where
  no_tenant : Bytes → RegistryError
  register_failed resolve_failed err_service_not_found : RegistryError

pub data Resolution : Type 0 where
  local : Provider → Resolution
  err_provider_remote : Remote → Resolution
  failed : RegistryError → Resolution

pub data Registration : Type 0 where
  registered : Bytes → Registration
  refused : RegistryError → Registration

module _ (parse_tenant : Bytes → Option Bytes) where
  unfoldable pub tenant_of : Bytes → Bytes
  tenant_of uri = elim (parse_tenant uri) [ none ↦ [] | some tenant ↦ tenant ]

  -- The registry after the call, and the request that goes to the controller.
  unfoldable pub unregister_agent : Bytes → Registry → Registry × Option DeregisterAgentRequest
  unregister_agent uri r =
      let tenant = tenant_of uri in
      (
        record r { agent_conns = del uri r.agent_conns },
        if tenant == []
            then none
            else some (record { tenant = tenant; agent_uri = uri; relay_id = r.relay_id }),
      )

  -- `controller` answers with a service id, or fails.
  unfoldable pub register_service :
      (RegisterServiceRequest → Option Bytes) → Bytes → Bytes → Bytes → Registry → Registration
  register_service controller agent_uri service_name local_addr r =
      let tenant = tenant_of agent_uri in
      if tenant == []
      then refused (no_tenant agent_uri)
      else elim (controller (record {
        tenant = tenant;
        service_name = service_name;
        agent_uri = agent_uri;
        relay_id = r.relay_id;
        local_addr = local_addr;
      })) [ none ↦ refused register_failed | some id ↦ registered id ]

  unfoldable pub pick : List ServiceProvider → Registry → Resolution
  pick [] r = failed err_service_not_found
  pick (prov ∷ rest) r =
      if not (prov.relay_id == r.relay_id)
      then err_provider_remote (record {
        relay_id = prov.relay_id;
        endpoint = prov.relay_endpoint;
        agent_uri = prov.agent_uri;
      })
      else elim (get prov.agent_uri r.agent_conns) [
        | none ↦ failed err_service_not_found
        | some p ↦ local p
      ]

  -- `controller` lists the providers of a service, or fails.
  unfoldable pub resolve :
      (ResolveRequest → Option (List ServiceProvider)) → Bytes → Bytes → Registry → Resolution
  unfolding pick
  resolve controller caller_uri name r =
      let tenant = tenant_of caller_uri in
      if tenant == []
      then failed (no_tenant caller_uri)
      else elim (controller
          (record { tenant = tenant; service_name = name; caller_region = r.region })) [
            | none ↦ failed resolve_failed
            | some providers ↦ pick providers r
          ]
