-- ===== src/Control.antt =====
-- control.cpp, module_default.c, and the functions of test_module.c that send OpenFlow messages: what
-- happens to a message of the switch. The C++ library that keeps the connection is not modelled: a
-- message is given by its type and its bytes, and what is sent by its bytes. The types of messages are
-- numbers of openflow.h, a parameter. Reading outside of an object is a fault.
pub mod Echo
mod Tests
use oflops_turbo.Base.{
  ℕ, zero, suc, ◌+◌, ◌*◌, Bool, true, false, not, ◌&&◌, List, [], ◌∷◌, Option, none, some, ltb, leb,
  ◌==◌, if◌then◌else◌, length, take, Run, ok, aborted, fault, ◌>>=◌,
}
use oflops_turbo.MsgBuf.{Bytes}
use oflops_turbo.Setup.{Hook, TestModule, Context}
use oflops_turbo.Setup.{
  init, destroy, get_pcap_filter, handle_pcap_event, of_event_packet_in, of_event_flow_removed,
  of_event_echo_request, of_event_port_status, of_event_other, handle_timer_event,
  handle_snmp_event, handle_traffic_generation, of_message, get_openflow_versions,
}

-- The types of messages.
pub record MessageTypes : Type 0 where
  pub packet_in : ℕ
  pub flow_expired : ℕ
  pub port_status : ℕ
  pub echo_request : ℕ
  pub echo_reply : ℕ
  pub barrier_reply : ℕ

-- `check_of_version_allowed`
pub is_listed : ℕ → List ℕ → Bool
is_listed v [] = false
is_listed v (w ∷ ws) = let later = is_listed v ws in if v == w then true else later

pub check_of_version_allowed : Context → ℕ → Bool
check_of_version_allowed ctx v =
    if length ctx.of_versions == 0 then true else is_listed v ctx.of_versions

-- The versions that `setup_control_channel` offers to the switch: those of the module, up to a 0, that
-- are allowed. Reading past the end of the array is a fault.
pub offered_versions : Context → List ℕ → Run (List ℕ)
offered_versions ctx [] = fault
offered_versions ctx (zero ∷ vs) = ok []
offered_versions ctx (suc v ∷ vs) = do
  rest ← offered_versions ctx vs
  ok (if check_of_version_allowed ctx (suc v) then suc v ∷ rest else rest)

-- `default_module_get_openflow_versions`
pub default_module_get_openflow_versions : List ℕ
default_module_get_openflow_versions = 1 ∷ 0 ∷ []

-- Whether the control channel is encrypted.
pub use_tls : Context → Bool
use_tls ctx = elim ctx.tls_cert [
  | none ↦ false
  | some cert ↦ elim ctx.tls_privkey [
    | none ↦ false
    | some key ↦ elim ctx.tls_trustedcert [ none ↦ false | some trusted ↦ true ]
  ]
]

-- The field `length` of a header.
pub length_field : Bytes → Run ℕ
length_field [] = fault
length_field (a ∷ []) = fault
length_field (a ∷ b ∷ []) = fault
length_field (a ∷ b ∷ c ∷ []) = fault
length_field (a ∷ b ∷ c ∷ d ∷ rest) = ok (256 * c + d)

-- `write_oflops_control`, for an object with the bytes `data`: the bytes that are sent.
pub write_oflops_control : Bytes → ℕ → Run Bytes
write_oflops_control bytes len = do
  n ← if len == 0 then length_field bytes else ok len
  if leb n (length bytes) then ok (take n bytes) else fault

-- `oflops_send_of_mesg`, with `oflops_send_of_mesgs`.
pub oflops_send_of_mesg : Bytes → Run Bytes
oflops_send_of_mesg bytes = length_field bytes >>= λ len. write_oflops_control bytes len

-- `memcpy(&resp, ofph, sizeof(resp))`, and the new type.
pub reply_header : ℕ → Bytes → Run Bytes
reply_header type (v ∷ t ∷ a ∷ b ∷ c ∷ d ∷ e ∷ f ∷ rest) =
    ok (v ∷ type ∷ a ∷ b ∷ c ∷ d ∷ e ∷ f ∷ [])
reply_header type short = fault

-- What happens to a message: nothing, a call of a function of the module, or an answer.
pub data Reaction : Type 0 where
  ignored : Reaction
  called : Hook → Reaction
  answered : Bytes → Reaction

module _ (types : MessageTypes) where
  pub default_module_of_event_echo_request : Bytes → Run Bytes
  default_module_of_event_echo_request ofph =
      reply_header types.echo_reply ofph >>= oflops_send_of_mesg

  -- The switch of `default_module_of_message`: which function is called.
  pub default_module_of_message : ℕ → Run Hook
  default_module_of_message type =
      if type == types.packet_in
      then ok of_event_packet_in
      else if type == types.flow_expired
      then ok of_event_flow_removed
      else if type == types.port_status
      then ok of_event_port_status
      else if type == types.echo_request
      then ok of_event_echo_request
      else if ltb types.barrier_reply type
      then aborted
      else ok of_event_other

  -- A function of the module, its own or the default one. Of the default ones only that for echo
  -- requests does something.
  pub call_event : TestModule → Hook → Bytes → Run Reaction
  call_event m h bytes =
      let echo = default_module_of_event_echo_request bytes >>= λ sent. ok (answered sent) in
      if m.is_own h then ok (called h) else (elim h [
        | init ↦ ok ignored
        | destroy ↦ ok ignored
        | get_pcap_filter ↦ ok ignored
        | handle_pcap_event ↦ ok ignored
        | of_event_packet_in ↦ ok ignored
        | of_event_flow_removed ↦ ok ignored
        | of_event_echo_request ↦ echo
        | of_event_port_status ↦ ok ignored
        | of_event_other ↦ ok ignored
        | handle_timer_event ↦ ok ignored
        | handle_snmp_event ↦ ok ignored
        | handle_traffic_generation ↦ ok ignored
        | of_message ↦ ok ignored
        | get_openflow_versions ↦ ok ignored
      ])

  -- `message_callback`, for the current test, if there is one.
  pub message_callback : Option TestModule → ℕ → Bytes → Run Reaction
  message_callback none type bytes = ok ignored
  message_callback (some m) type bytes =
      let default_ = default_module_of_message type >>= λ h. call_event m h bytes in
      if m.is_own of_message then ok (called of_message) else default_
