-- ===== src/Msg.antt =====
-- msg.c: the builders of OpenFlow messages. A message is given by the fields of its structs, each by
-- its value as `ntohs` and `ntohl` read it; what the code leaves out after `memset` is 0. The numbers
-- and sizes of openflow.h are a parameter. Msg/Builders has the functions: a builder returns the message
-- and its length.
pub mod Builders
pub mod Lengths
pub mod Probe
mod Tests
use oflops_turbo.Base.{
  ℕ, ◌+◌, ◌-◌, ◌%◌, ◌^◌, Bool, true, false, List, [], ◌∷◌, Option, none, some, ◌==◌, if◌then◌else◌,
  length,
}

-- An Ethernet address, `uint8_t[6]`.
pub record EtherAddr : Type 0 where
  pub byte0 : ℕ
  pub byte1 : ℕ
  pub byte2 : ℕ
  pub byte3 : ℕ
  pub byte4 : ℕ
  pub byte5 : ℕ

-- `struct flow`
pub record Flow : Type 0 where
  pub mask : ℕ
  pub in_port : ℕ
  pub dl_src : EtherAddr
  pub dl_dst : EtherAddr
  pub dl_vlan : ℕ
  pub dl_type : ℕ
  pub nw_src : ℕ
  pub nw_dst : ℕ
  pub nw_proto : ℕ
  pub tp_src : ℕ
  pub tp_dst : ℕ

-- The constants of openflow.h that the code uses, the sizes of its structs, and the exchange of the two
-- bytes of a number, for the one field that is set without `htons`.
pub record OpenFlow : Type 0 where
  pub version : ℕ
  pub hello : ℕ
  pub echo_request : ℕ
  pub features_request : ℕ
  pub flow_mod : ℕ
  pub stats_request : ℕ
  pub add : ℕ
  pub modify : ℕ
  pub delete : ℕ
  pub flow_permanent : ℕ
  pub send_flow_rem : ℕ
  pub output : ℕ
  pub all_wildcards : ℕ
  pub no_port : ℕ
  pub flow_stats : ℕ
  pub aggregate_stats : ℕ
  pub port_stats : ℕ
  pub sizeof_header : ℕ
  pub sizeof_hello : ℕ
  pub sizeof_flow_mod : ℕ
  pub sizeof_action_output : ℕ
  pub sizeof_stats_request : ℕ
  pub sizeof_flow_stats_request : ℕ
  pub sizeof_aggregate_stats_request : ℕ
  pub sizeof_port_stats_request : ℕ
  pub swap : ℕ → ℕ

-- `struct ofp_header`
pub record Header : Type 0 where
  pub version : ℕ
  pub type : ℕ
  pub length : ℕ
  pub xid : ℕ

-- `struct ofp_match`
pub record Match : Type 0 where
  pub wildcards : ℕ
  pub in_port : ℕ
  pub dl_src : EtherAddr
  pub dl_dst : EtherAddr
  pub dl_vlan : ℕ
  pub dl_type : ℕ
  pub nw_src : ℕ
  pub nw_dst : ℕ
  pub nw_proto : ℕ
  pub tp_src : ℕ
  pub tp_dst : ℕ

-- `struct ofp_action_output`
pub record ActionOutput : Type 0 where
  pub type : ℕ
  pub len : ℕ
  pub port : ℕ
  pub max_len : ℕ

-- `struct ofp_flow_mod`, with the action or the bytes that the code puts behind it.
pub record FlowMod : Type 0 where
  pub header : Header
  pub match_ : Match
  pub command : ℕ
  pub idle_timeout : ℕ
  pub hard_timeout : ℕ
  pub priority : ℕ
  pub buffer_id : ℕ
  pub out_port : ℕ
  pub flags : ℕ
  pub actions : List ActionOutput
  pub raw : List ℕ

-- The body of a request for the statistics of flows, and for those of ports.
pub data StatsBody : Type 0 where
  flows aggregate : (wildcards table_id out_port : ℕ) → StatsBody
  ports : (port_no : ℕ) → StatsBody
  nothing : StatsBody

-- `struct ofp_stats_request`
pub record StatsRequest : Type 0 where
  pub header : Header
  pub type : ℕ
  pub body : StatsBody
