-- ===== src/Control/Tests.antt =====
-- The statements about the answers to messages of the switch at a concrete message.
use oflops_turbo.Base.{◌≡◌, refl, false, [], ◌∷◌, some, ok}
use oflops_turbo.Setup.{TestModule}
use oflops_turbo.Control.{MessageTypes, message_callback, answered}
use oflops_turbo.Control.Echo.{message_callback-echo}

-- The numbers of OpenFlow 1.0.
abbrev types : MessageTypes
types = record {
  packet_in = 10;
  flow_expired = 11;
  port_status = 12;
  echo_request = 2;
  echo_reply = 3;
  barrier_reply = 19;
}

abbrev silent : TestModule
silent = record { file = []; is_own = λ h. false }

-- A request without data.
message_callback-echo_example :
    message_callback types (some silent) 2 (1 ∷ 2 ∷ 0 ∷ 8 ∷ 0 ∷ 0 ∷ 0 ∷ 7 ∷ [])
    ≡ ok (answered (1 ∷ 3 ∷ 0 ∷ 8 ∷ 0 ∷ 0 ∷ 0 ∷ 7 ∷ []))
message_callback-echo_example =
    message_callback-echo types silent 1 2 0 8 0 0 0 7 []
      (record { packet_in = refl; flow_expired = refl; port_status = refl }) refl refl
