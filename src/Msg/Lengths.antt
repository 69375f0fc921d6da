-- ===== src/Msg/Lengths.antt =====
-- The lengths of the messages of msg.c, and what its messages that modify a flow are.
use oflops_turbo.Base.{
  ℕ, ◌+◌, ◌*◌, ◌%◌, ◌≡◌, refl, ap, inl, inr, Bool-cases, List, ◌==◌, length, arith,
}
use oflops_turbo.Msg.{
  OpenFlow, Flow, Header, FlowMod, StatsBody, StatsRequest, flows, aggregate, ports, nothing,
}
use oflops_turbo.Msg.Builders.{
  make_flow_mod, make_ofp_flow_add, make_ofp_flow_modify_output_port, make_ofp_flow_modify,
  make_ofp_flow_del, stats_header, make_ofp_flow_get_stat, make_ofp_aggr_flow_stats,
  make_ofp_port_get_stat,
}

-- The size of a message in memory, by its parts.
abbrev pub flow_mod_size : OpenFlow → FlowMod → ℕ
flow_mod_size of m = of.sizeof_flow_mod + of.sizeof_action_output * length m.actions + length m.raw

abbrev pub body_size : OpenFlow → StatsBody → ℕ
body_size of (flows _ _ _) = of.sizeof_flow_stats_request
body_size of (aggregate _ _ _) = of.sizeof_aggregate_stats_request
body_size of (ports _) = of.sizeof_port_stats_request
body_size of nothing = 0

-- The length that the message itself states and the one that is returned are those of its parts.
abbrev pub IsSized : ℕ → Header → ℕ → Type 0
IsSized size header len = (len ≡ size) × (header.length ≡ size % 65536)

abbrev pub IsFlowMod : OpenFlow → FlowMod × ℕ → Type 0
IsFlowMod of (m, len) = IsSized (flow_mod_size of m) m.header len

abbrev pub IsStats : OpenFlow → StatsRequest × ℕ → Type 0
IsStats of (m, len) = IsSized (of.sizeof_stats_request + body_size of m.body) m.header len

make_ofp_port_get_stat-IsStats :
    (of : OpenFlow) (xid : ℕ) → IsStats of (make_ofp_port_get_stat of xid)
unfolding make_ofp_port_get_stat stats_header
make_ofp_port_get_stat-IsStats of xid = elim (Bool-cases (of.version == 151)) [
  | inl old ↦ rw old (omega arith, ap (λ n. n % 65536) (omega arith))
  | inr new ↦ rw new (refl, refl)
]

-- Whatever a message is built from, the builder returns the size of the struct with all that follows
-- it, and the length field of the message is that size modulo 2^16: of all the messages that change
-- flows, and of all the requests for statistics.
make-IsSized :
    (of : OpenFlow) (fl : Flow) (out_port buffer_id idle_timeout trans_id : ℕ) (actions : List ℕ)
    → (IsFlowMod of (make_ofp_flow_add of fl out_port buffer_id idle_timeout)
        × IsFlowMod of (make_ofp_flow_modify_output_port of fl out_port buffer_id idle_timeout)
        × IsFlowMod of (make_ofp_flow_modify of fl actions buffer_id idle_timeout)
        × IsFlowMod of (make_ofp_flow_del of))
      × (IsStats of (make_ofp_flow_get_stat of trans_id)
          × IsStats of (make_ofp_aggr_flow_stats of trans_id)
          × IsStats of (make_ofp_port_get_stat of trans_id))
unfolding make_flow_mod make_ofp_flow_add make_ofp_flow_modify_output_port make_ofp_flow_modify
    make_ofp_flow_del stats_header make_ofp_flow_get_stat make_ofp_aggr_flow_stats
make-IsSized of fl out_port buffer_id idle_timeout trans_id actions = (
  (
    (omega arith, omega arith),
    (omega arith, omega arith),
    (omega arith, omega arith),
    (omega arith, omega arith),
  ),
  ((refl, refl), (refl, refl), make_ofp_port_get_stat-IsStats of trans_id),
)

-- The message that should modify the output port of a flow is the one that adds the flow, with
-- priority 0: its command is OFPFC_ADD too.
make_ofp_flow_modify_output_port-add :
    (of : OpenFlow) (fl : Flow) (out_port buffer_id idle_timeout : ℕ)
    → make_ofp_flow_modify_output_port of fl out_port buffer_id idle_timeout ≡ (
        let added = make_ofp_flow_add of fl out_port buffer_id idle_timeout in
        (record added.0 { priority = 0 }, added.1))
unfolding make_flow_mod make_ofp_flow_add make_ofp_flow_modify_output_port
make_ofp_flow_modify_output_port-add of fl out_port buffer_id idle_timeout = refl
