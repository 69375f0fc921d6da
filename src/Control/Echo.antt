-- ===== src/Control/Echo.antt =====
-- How a module without handlers of its own answers an echo request, and which versions are offered.
use oflops_turbo.Base.{
  ℕ, ◌+◌, ◌*◌, ◌≡◌, refl, ap, ◌∙◌, inl, inr, Bool-cases, true, false, [], ◌∷◌, some, arith, leb,
  ◌==◌, if◌then◌else◌, length, take, ok, fault, ◌>>=◌,
}
use oflops_turbo.MsgBuf.{Bytes}
use oflops_turbo.Setup.{TestModule, of_message, of_event_echo_request}
use oflops_turbo.Control.{
  MessageTypes, answered, length_field, write_oflops_control, oflops_send_of_mesg, reply_header,
  default_module_of_event_echo_request, default_module_of_message, call_event, message_callback,
}

-- The types that the switch tests before that of an echo request are other numbers.
pub record AreDistinct (types : MessageTypes) : Type 0 where
  pub packet_in : (types.echo_request == types.packet_in) ≡ false
  pub flow_expired : (types.echo_request == types.flow_expired) ≡ false
  pub port_status : (types.echo_request == types.port_status) ≡ false

-- The length is read again where it is 0, and is the same.
write_oflops_control-length_field :
    (bytes : Bytes) (n : ℕ)
    → length_field bytes ≡ ok n
    → write_oflops_control bytes n ≡ (if leb n (length bytes) then ok (take n bytes) else fault)
unfolding write_oflops_control
write_oflops_control-length_field bytes n e = elim (Bool-cases (n == 0)) [
  | inl empty ↦ rw (empty, e) refl
  | inr some_ ↦ rw some_ refl
]

-- A module without functions of its own gets an echo request. Where its length is that of the header
-- or less, the header goes back as an echo reply, with the same transaction id, as far as the length
-- field says. Where it is more, because the request has data, memory behind the header is read.
pub message_callback-echo :
    (types : MessageTypes) (m : TestModule) (v t l l' x0 x1 x2 x3 : ℕ) (payload : Bytes)
    → AreDistinct types
    → m.is_own of_message ≡ false
    → m.is_own of_event_echo_request ≡ false
    → message_callback types
        (some m)
        types.echo_request
        (v ∷ t ∷ l ∷ l' ∷ x0 ∷ x1 ∷ x2 ∷ x3 ∷ payload)
      ≡ (if leb (256 * l + l') 8
          then ok (
              answered
                (take (256 * l + l') (v ∷ types.echo_reply ∷ l ∷ l' ∷ x0 ∷ x1 ∷ x2 ∷ x3 ∷ [])))
          else fault)
unfolding message_callback default_module_of_message call_event default_module_of_event_echo_request
    reply_header oflops_send_of_mesg length_field
message_callback-echo types m v t l l' x0 x1 x2 x3 payload distinct plain default_ =
    let n = 256 * l + l' in
    let itself : (types.echo_request == types.echo_request) ≡ true = ground arith in
    let header = v ∷ types.echo_reply ∷ l ∷ l' ∷ x0 ∷ x1 ∷ x2 ∷ x3 ∷ [] in
    rw (plain, distinct.packet_in, distinct.flow_expired, distinct.port_status, itself, default_)
      (ap (λ r. r >>= λ sent. ok (answered sent)) (write_oflops_control-length_field header n refl)
        ∙ elim (Bool-cases (leb n 8)) [ inl fits ↦ rw fits refl | inr long ↦ rw long refl ])
