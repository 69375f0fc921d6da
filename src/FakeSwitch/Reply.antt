-- ===== src/FakeSwitch/Reply.antt =====
-- The messages that cbench/fakeswitch.c builds. The numbers of openflow.h are a parameter; a switch
-- statement needs its cases to differ, which `IsProtocol` states.
use oflops_turbo.Base.{
  ℕ, zero, suc, ◌+◌, ◌/◌, ◌%◌, ◌^◌, ◌≡◌, false, [], ◌∷◌, ◌++◌, length, take, drop, ◌==◌,
}
use oflops_turbo.MsgBuf.{Bytes}

-- The constants of openflow.h, the offset of the field `command` of a flow_mod, and the bytes of an
-- `int` in the order of the host. The structures that are filled in here have the layout of the
-- messages of OpenFlow 1.0, which the captured ones show.
pub record Protocol : Type 0 where
  pub version : ℕ
  pub hello : ℕ
  pub error : ℕ
  pub echo_request : ℕ
  pub echo_answer : ℕ
  pub vendor : ℕ
  pub features_request : ℕ
  pub packet_out : ℕ
  pub flow_mod : ℕ
  pub add : ℕ
  pub modify_strict : ℕ
  pub bad_request : ℕ
  pub bad_vendor : ℕ
  pub command_offset : ℕ
  pub int_bytes : ℕ → Bytes

-- The type HELLO, which the switch ignores, is not one of those that it handles.
pub record IsProtocol (of : Protocol) : Type 0 where
  pub packet_out : (of.hello == of.packet_out) ≡ false
  pub flow_mod : (of.hello == of.flow_mod) ≡ false
  pub features_request : (of.hello == of.features_request) ≡ false
  pub vendor : (of.hello == of.vendor) ≡ false
  pub echo_request : (of.hello == of.echo_request) ≡ false

-- The bytes of a number, the high one first: `htons`, `htonl`, `htonll`.
unfoldable pub big_endian : ℕ → ℕ → Bytes
big_endian zero n = []
big_endian (suc k) n = n / 256 ^ k % 256 ∷ big_endian k n

-- The bytes `ys` in place of those of `xs` from `at` on.
abbrev pub overwrite : Bytes → ℕ → Bytes → Bytes
overwrite xs at ys = take at xs ++ ys ++ drop (at + length ys) xs

-- The captured messages: `fake` of `make_features_reply` and of `make_packet_in`.
abbrev pub fake_features : Bytes
fake_features =
    0x97 ∷ 0x06 ∷ 0x00 ∷ 0xe0 ∷ 0x04 ∷ 0x01 ∷ 0x00 ∷ 0x00 ∷ 0x00 ∷ 0x00 ∷ 0x76 ∷ 0xa9 ∷ 0xd4 ∷ 0x0d
    ∷ 0x25 ∷ 0x48 ∷ 0x00 ∷ 0x00 ∷ 0x01 ∷ 0x00 ∷ 0x02 ∷ 0x00 ∷ 0x00 ∷ 0x00 ∷ 0x00 ∷ 0x00 ∷ 0x00
    ∷ 0x1f ∷ 0x00 ∷ 0x00 ∷ 0x03 ∷ 0xff ∷ 0x00 ∷ 0x00 ∷ 0x1a ∷ 0xc1 ∷ 0x51 ∷ 0xff ∷ 0xef ∷ 0x8a
    ∷ 0x76 ∷ 0x65 ∷ 0x74 ∷ 0x68 ∷ 0x31 ∷ 0x00 ∷ 0x00 ∷ 0x00 ∷ 0x00 ∷ 0x00 ∷ 0x00 ∷ 0x00 ∷ 0x00
    ∷ 0x00 ∷ 0x00 ∷ 0x00 ∷ 0x00 ∷ 0x00 ∷ 0x00 ∷ 0x00 ∷ 0x00 ∷ 0x00 ∷ 0x00 ∷ 0x00 ∷ 0x00 ∷ 0x00
    ∷ 0x00 ∷ 0xc0 ∷ 0x00 ∷ 0x00 ∷ 0x00 ∷ 0x00 ∷ 0x00 ∷ 0x00 ∷ 0x00 ∷ 0x00 ∷ 0x00 ∷ 0x00 ∷ 0x00
    ∷ 0x00 ∷ 0x00 ∷ 0x01 ∷ 0xce ∷ 0x2f ∷ 0xa2 ∷ 0x87 ∷ 0xf6 ∷ 0x70 ∷ 0x76 ∷ 0x65 ∷ 0x74 ∷ 0x68
    ∷ 0x33 ∷ 0x00 ∷ 0x00 ∷ 0x00 ∷ 0x00 ∷ 0x00 ∷ 0x00 ∷ 0x00 ∷ 0x00 ∷ 0x00 ∷ 0x00 ∷ 0x00 ∷ 0x00
    ∷ 0x00 ∷ 0x00 ∷ 0x00 ∷ 0x00 ∷ 0x00 ∷ 0x00 ∷ 0x00 ∷ 0x00 ∷ 0x00 ∷ 0x00 ∷ 0xc0 ∷ 0x00 ∷ 0x00
    ∷ 0x00 ∷ 0x00 ∷ 0x00 ∷ 0x00 ∷ 0x00 ∷ 0x00 ∷ 0x00 ∷ 0x00 ∷ 0x00 ∷ 0x00 ∷ 0x00 ∷ 0x02 ∷ 0xca
    ∷ 0x8a ∷ 0x1e ∷ 0xf3 ∷ 0x77 ∷ 0xef ∷ 0x76 ∷ 0x65 ∷ 0x74 ∷ 0x68 ∷ 0x35 ∷ 0x00 ∷ 0x00 ∷ 0x00
    ∷ 0x00 ∷ 0x00 ∷ 0x00 ∷ 0x00 ∷ 0x00 ∷ 0x00 ∷ 0x00 ∷ 0x00 ∷ 0x00 ∷ 0x00 ∷ 0x00 ∷ 0x00 ∷ 0x00
    ∷ 0x00 ∷ 0x00 ∷ 0x00 ∷ 0x00 ∷ 0x00 ∷ 0x00 ∷ 0xc0 ∷ 0x00 ∷ 0x00 ∷ 0x00 ∷ 0x00 ∷ 0x00 ∷ 0x00
    ∷ 0x00 ∷ 0x00 ∷ 0x00 ∷ 0x00 ∷ 0x00 ∷ 0x00 ∷ 0x00 ∷ 0x03 ∷ 0xfa ∷ 0xbc ∷ 0x77 ∷ 0x8d ∷ 0x7e
    ∷ 0x0b ∷ 0x76 ∷ 0x65 ∷ 0x74 ∷ 0x68 ∷ 0x37 ∷ 0x00 ∷ 0x00 ∷ 0x00 ∷ 0x00 ∷ 0x00 ∷ 0x00 ∷ 0x00
    ∷ 0x00 ∷ 0x00 ∷ 0x00 ∷ 0x00 ∷ 0x00 ∷ 0x00 ∷ 0x00 ∷ 0x00 ∷ 0x00 ∷ 0x00 ∷ 0x00 ∷ 0x00 ∷ 0x00
    ∷ 0x00 ∷ 0x00 ∷ 0xc0 ∷ 0x00 ∷ 0x00 ∷ 0x00 ∷ 0x00 ∷ 0x00 ∷ 0x00 ∷ 0x00 ∷ 0x00 ∷ 0x00 ∷ 0x00
    ∷ 0x00 ∷ 0x00 ∷ []

abbrev pub fake_packet : Bytes
fake_packet =
    0x97 ∷ 0x0a ∷ 0x00 ∷ 0x52 ∷ 0x00 ∷ 0x00 ∷ 0x00 ∷ 0x00 ∷ 0x00 ∷ 0x00 ∷ 0x01 ∷ 0x01 ∷ 0x00 ∷ 0x40
    ∷ 0x00 ∷ 0x00 ∷ 0x00 ∷ 0x00 ∷ 0x80 ∷ 0x00 ∷ 0x00 ∷ 0x00 ∷ 0x00 ∷ 0x01 ∷ 0x00 ∷ 0x00 ∷ 0x00
    ∷ 0x00 ∷ 0x00 ∷ 0x02 ∷ 0x08 ∷ 0x00 ∷ 0x45 ∷ 0x00 ∷ 0x00 ∷ 0x32 ∷ 0x00 ∷ 0x00 ∷ 0x00 ∷ 0x00
    ∷ 0x40 ∷ 0xff ∷ 0xf7 ∷ 0x2c ∷ 0xc0 ∷ 0xa8 ∷ 0x00 ∷ 0x28 ∷ 0xc0 ∷ 0xa8 ∷ 0x01 ∷ 0x28 ∷ 0x7a
    ∷ 0x18 ∷ 0x58 ∷ 0x6b ∷ 0x11 ∷ 0x08 ∷ 0x97 ∷ 0xf5 ∷ 0x19 ∷ 0xe2 ∷ 0x65 ∷ 0x7e ∷ 0x07 ∷ 0xcc
    ∷ 0x31 ∷ 0xc3 ∷ 0x11 ∷ 0xc7 ∷ 0xc4 ∷ 0x0c ∷ 0x8b ∷ 0x95 ∷ 0x51 ∷ 0x51 ∷ 0x33 ∷ 0x54 ∷ 0x51
    ∷ 0xd5 ∷ 0x00 ∷ 0x36 ∷ []

module _ (of : Protocol) where
  -- A header without a body: version, type, length and xid.
  pub header : ℕ → ℕ → Bytes → Bytes
  header type size xid = of.version ∷ type ∷ big_endian 2 size ++ xid

  -- The HELLO of `fakeswitch_init`.
  pub hello_message : Bytes
  hello_message = header of.hello 8 (big_endian 4 1)

  -- The reply of the case OFPT_ECHO_REQUEST.
  pub echo_reply : Bytes → Bytes
  echo_reply xid = header of.echo_answer 8 xid

  -- `make_features_reply`: the captured message with a version, an xid and a datapath id.
  pub features_reply : ℕ → Bytes → Bytes
  features_reply id xid =
      overwrite (overwrite (overwrite fake_features 0 (of.version ∷ [])) 4 xid) 8 (big_endian 8 id)

  -- `make_vendor_reply`
  pub vendor_reply : Bytes → Bytes
  vendor_reply xid =
      header of.error 12 xid ++ big_endian 2 of.bad_request ++ big_endian 2 of.bad_vendor

  -- `make_packet_in`: the captured message with a version, a buffer id, the MAC address in the bytes
  -- 1 to 4 of the source, and the switch in the last byte of both addresses.
  unfoldable pub packet_in : ℕ → ℕ → ℕ → Bytes
  packet_in id buffer_id mac_address =
      let a = overwrite fake_packet 0 (of.version ∷ []) in
      let b = overwrite a 8 (big_endian 4 buffer_id) in
      let c = overwrite b 25 (of.int_bytes mac_address) in
      overwrite (overwrite c 23 (id % 256 ∷ [])) 29 (id % 256 ∷ [])
