-- ===== src/Msg/Builders.antt =====
-- The builders of msg.c.
use oflops_turbo.Base.{ℕ, ◌+◌, ◌-◌, ◌%◌, ◌^◌, List, [], ◌∷◌, ◌==◌, if◌then◌else◌, length}
use oflops_turbo.Msg.{
  EtherAddr, Flow, OpenFlow, Header, Match, ActionOutput, FlowMod, flows, aggregate, ports, nothing,
  StatsRequest,
}

abbrev no_address : EtherAddr
no_address = record { byte0 = 0; byte1 = 0; byte2 = 0; byte3 = 0; byte4 = 0; byte5 = 0 }

abbrev no_match : Match
no_match = record {
  wildcards = 0;
  in_port = 0;
  dl_src = no_address;
  dl_dst = no_address;
  dl_vlan = 0;
  dl_type = 0;
  nw_src = 0;
  nw_dst = 0;
  nw_proto = 0;
  tp_src = 0;
  tp_dst = 0;
}

module _ (of : OpenFlow) where
  unfoldable pub ofp_init : ℕ → ℕ → Header
  ofp_init type len = record { version = of.version; type = type; length = len % 65536; xid = 0 }

  unfoldable pub make_ofp_hello : Header × ℕ
  make_ofp_hello = (ofp_init of.hello of.sizeof_hello, of.sizeof_hello)

  unfoldable pub make_ofp_echo_req : Header × ℕ
  make_ofp_echo_req = (ofp_init of.echo_request of.sizeof_header, of.sizeof_header)

  unfoldable pub make_ofp_feat_req : Header × ℕ
  make_ofp_feat_req = (ofp_init of.features_request of.sizeof_hello, of.sizeof_hello)

  unfoldable pub make_flow_mod : ℕ → ℕ → Flow → FlowMod
  make_flow_mod command len flow = record {
    header = record { version = of.version; type = of.flow_mod; length = len % 65536; xid = 0 };
    match_ = record {
      wildcards = flow.mask;
      in_port = flow.in_port;
      dl_src = flow.dl_src;
      dl_dst = flow.dl_dst;
      dl_vlan = flow.dl_vlan;
      dl_type = flow.dl_type;
      nw_src = flow.nw_src;
      nw_dst = flow.nw_dst;
      nw_proto = flow.nw_proto;
      tp_src = flow.tp_src;
      tp_dst = flow.tp_dst;
    };
    command = command;
    idle_timeout = 0;
    hard_timeout = 0;
    priority = 0;
    buffer_id = 0;
    out_port = 0;
    flags = 0;
    actions = [];
    raw = [];
  }

  -- The action that sends to a port.
  unfoldable pub output_to : ℕ → ActionOutput
  output_to out_port = record { type = of.output; len = 8; port = out_port % 65536; max_len = 2000 }

  -- `htonl(-1)` is the buffer, whatever `buffer_id` is.
  unfoldable pub make_ofp_flow_add : Flow → ℕ → ℕ → ℕ → FlowMod × ℕ
  make_ofp_flow_add fl out_port buffer_id idle_timeout =
      let len = of.sizeof_flow_mod + of.sizeof_action_output in
      (
        record (make_flow_mod of.add len fl) {
          idle_timeout = idle_timeout;
          hard_timeout = of.flow_permanent;
          buffer_id = 2 ^ 32 - 1;
          command = of.add;
          priority = 1000;
          flags = of.send_flow_rem;
          actions = output_to out_port ∷ [];
        },
        len,
      )

  unfoldable pub make_ofp_flow_modify_output_port : Flow → ℕ → ℕ → ℕ → FlowMod × ℕ
  make_ofp_flow_modify_output_port fl out_port buffer_id idle_timeout =
      let len = of.sizeof_flow_mod + of.sizeof_action_output in
      (
        record (make_flow_mod of.modify len fl) {
          idle_timeout = idle_timeout;
          hard_timeout = of.flow_permanent;
          buffer_id = 2 ^ 32 - 1;
          command = of.add;
          flags = of.send_flow_rem;
          actions = output_to out_port ∷ [];
        },
        len,
      )

  -- `actions` are `action_len` bytes.
  unfoldable pub make_ofp_flow_modify : Flow → List ℕ → ℕ → ℕ → FlowMod × ℕ
  make_ofp_flow_modify fl actions buffer_id idle_timeout =
      let len = of.sizeof_flow_mod + length actions in
      (
        record (make_flow_mod of.modify len fl) {
          raw = actions;
          idle_timeout = idle_timeout;
          hard_timeout = of.flow_permanent;
          buffer_id = 2 ^ 32 - 1;
          command = of.add;
        },
        len,
      )

  unfoldable pub make_ofp_flow_del : FlowMod × ℕ
  make_ofp_flow_del = (
    record {
      header = record {
        version = of.version;
        type = of.flow_mod;
        length = of.sizeof_flow_mod % 65536;
        xid = 0;
      };
      match_ = record no_match { wildcards = of.all_wildcards };
      command = of.delete;
      idle_timeout = 0;
      hard_timeout = of.flow_permanent;
      priority = 32768;
      buffer_id = 2 ^ 32 - 1;
      out_port = of.no_port;
      flags = 0;
      actions = [];
      raw = [];
    },
    of.sizeof_flow_mod,
  )

  -- A request for statistics, with the transaction id and the length.
  unfoldable pub stats_header : ℕ → ℕ → Header
  stats_header len xid = record {
    version = of.version;
    type = of.stats_request;
    length = len % 65536;
    xid = xid;
  }

  unfoldable pub make_ofp_flow_get_stat : ℕ → StatsRequest × ℕ
  unfolding stats_header
  make_ofp_flow_get_stat trans_id =
      let len = of.sizeof_stats_request + of.sizeof_flow_stats_request in
      (
        record {
          header = stats_header len trans_id;
          type = of.flow_stats;
          body = flows of.all_wildcards 255 (of.swap of.no_port);
        },
        len,
      )

  unfoldable pub make_ofp_aggr_flow_stats : ℕ → StatsRequest × ℕ
  unfolding stats_header
  make_ofp_aggr_flow_stats trans_id =
      let len = of.sizeof_stats_request + of.sizeof_aggregate_stats_request in
      (
        record {
          header = stats_header len trans_id;
          type = of.aggregate_stats;
          body = aggregate of.all_wildcards 255 (of.swap of.no_port);
        },
        len,
      )

  -- The memory is not cleared: the transaction id is what `malloc` left there.
  unfoldable pub make_ofp_port_get_stat : ℕ → StatsRequest × ℕ
  unfolding stats_header
  make_ofp_port_get_stat junk_xid =
      let short = of.sizeof_stats_request in
      let long = of.sizeof_stats_request + of.sizeof_port_stats_request in
      if of.version == 151
      then (
        record { header = stats_header short junk_xid; type = of.port_stats; body = nothing },
        short,
      )
      else (
        record {
          header = stats_header long junk_xid;
          type = of.port_stats;
          body = ports of.no_port;
        },
        long,
      )
