-- ===== src/Rtmp/Connect.antt =====
-- core/src/rtmp/mod.rs, `RtmpTransport::connect`: the configuration, what an answer of the server says
-- and the wait for it; Open has the commands and the handshake. The socket is one that `connect_tcp` has
-- set up, with the timeout of the configuration. `none` says that fuel ran out, that a read blocks for
-- ever, or that a panic was met. The texts of errors are left out, and so is the probe of the round trip.
pub mod Open
pub mod Answers
pub mod Ends
pub mod Probes
pub mod Opening
pub mod History
use strym_core.Common.{
  ℕ, zero, suc, ◌+◌, ◌-◌, ◌*◌, ◌/◌, ◌%◌, ◌^◌, Bool, false, ◌&&◌, ◌||◌, not, Option, none, some,
  List, [], ◌∷◌, if◌then◌else◌, leb, ltb, ◌==◌, length, get_elem?, take, Bytes, eq_bytes,
}
use strym_core.Common.Result.{Result, ok, err, ok_or}
use strym_core.Common.Text.{codes}
use strym_core.Io.{IoError, invalid_data, Write}
use strym_core.Rtmp.Chunks.{Message, read_message}
use strym_core.Rtmp.Amf0.{Val, number, string, object, Fields, end, field, read_all}
use strym_core.Rtmp.Publisher.{
  RtmpTransport, Rtmp, quiet, send_message, note_inbound, maybe_send_ack, handle_control,
}

-- Times are in nanoseconds.
pub record RtmpConfig : Type 0 where
  pub app : Bytes
  pub key : Bytes
  pub tc_url : Bytes
  pub timeout : Option ℕ
  pub watchdog_idle : Option ℕ

-- A read that finds nothing and has no timeout blocks for ever; with one it comes back with the error
-- that tells of it.
abbrev pub waits_forever : RtmpConfig → IoError → Bool
waits_forever cfg e = elim cfg.timeout [ none ↦ quiet e | some d ↦ false ]

abbrev pub max_pending_messages : ℕ
max_pending_messages = 64

abbrev pub negotiated_chunk_size : ℕ
negotiated_chunk_size = 4096

-- The doubles 1 to 5.
abbrev pub one : ℕ
one = 0x3ff0_0000_0000_0000

abbrev pub two : ℕ
two = 0x4000_0000_0000_0000

abbrev pub three : ℕ
three = 0x4008_0000_0000_0000

abbrev pub four : ℕ
four = 0x4010_0000_0000_0000

abbrev pub five : ℕ
five = 0x4014_0000_0000_0000

-- `*n >= 0.0` and `*n as u32`, by the bit pattern: a fraction is cut off, and what is too large is
-- the greatest word.
unfoldable pub as_stream_id : ℕ → Option ℕ
as_stream_id n =
    let exponent = n / 2 ^ 52 % 2048 in
    let fraction = n % 2 ^ 52 in
    if leb (2 ^ 63 + 1) n || (exponent == 2047 && not (fraction == 0))
    then none
    else if ltb exponent 1023
    then some 0
    else if leb 1055 exponent
    then some (2 ^ 32 - 1)
    else some ((2 ^ 52 + fraction) * 2 ^ (exponent - 1023) / 2 ^ 52)

-- Equality of doubles, where one side is no zero and a number.
unfoldable pub txn_of : List Val → Option ℕ
txn_of vals = elim (get_elem? vals 1) [ some (number n) ↦ some n | _ ↦ none ]

abbrev pub has_txn : ℕ → List Val → Bool
has_txn txn vals = elim (txn_of vals) [ none ↦ false | some n ↦ n == txn ]

unfoldable pub str_field : Fields → Bytes → Option Bytes
str_field end key = none
str_field (field k v fs) key =
    if eq_bytes k key then elim v [ string s ↦ some s | _ ↦ none ] else str_field fs key

-- The first object among the values.
unfoldable pub info_of : List Val → Option Fields
info_of [] = none
info_of (object fs ∷ vals) = some fs
info_of (v ∷ vals) = info_of vals

unfoldable pub code_of : List Val → Bytes
code_of vals = elim (info_of vals) [
  | none ↦ []
  | some fs ↦ elim (str_field fs (codes "code")) [ none ↦ [] | some code ↦ code ]
]

-- The stream in an answer's fourth value.
unfoldable pub id_in : Option Val → Result IoError ℕ
id_in (some (number n)) = ok_or (as_stream_id n) invalid_data
id_in _ = err invalid_data

-- A name in front of the values.
unfoldable pub named : List Val → Option (Bytes × List Val)
named (string name ∷ vals) = some (name, string name ∷ vals)
named _ = none

abbrev pub starts_with : Bytes → Bytes → Bool
starts_with prefix s = eq_bytes (take (length prefix) s) prefix

abbrev pub Conn : Type 0 → Type 0 → Type 0
Conn W A = RtmpTransport W → Option (Result IoError A × RtmpTransport W)

infixl 5 ◌>>=◌ ◌>>◌
abbrev pub ◌>>=◌ : {W A B : Type 0} → Conn W A → (A → Conn W B) → Conn W B
◌>>=◌ m f t = elim (m t) [
  | none ↦ none
  | some (r, u) ↦ elim r [ ok a ↦ f a u | err e ↦ some (err e, u) ]
]

abbrev pub ◌>>◌ : {W B : Type 0} → Conn W (Unit {0}) → Conn W B → Conn W B
m >> k = m >>= λ _. k

abbrev pub lift : {W A : Type 0} → Rtmp W A → Conn W A
lift m t = some (m t)

abbrev pub pure : {W A : Type 0} → A → Conn W A
pure a t = some (ok a, t)

abbrev pub raise : {W A : Type 0} → IoError → Conn W A
raise e t = some (err e, t)

-- A command ends the loop of `read_command`.
abbrev pub found_or : {W A : Type 0} → Conn W A → Option A → Conn W A
found_or more none = more
found_or more (some a) = pure a

-- `let _ = call`.
abbrev pub ignore : {W : Type 0} → Rtmp W (Unit {0}) → Conn W (Unit {0})
ignore m t = some (ok tt, (m t).1)

module _ (lossy : Bytes → Bytes) {W : Type 0} (w : Write W) (now : ℕ) (cfg : RtmpConfig) where
  abbrev pub command : Bytes → Rtmp W (Unit {0})
  command payload = send_message w now 3 20 0 0 payload

  -- The command in a message, if it has a name.
  unfoldable pub command_of : Message → Option (Option (Bytes × List Val))
  command_of msg = elim (read_all lossy msg.payload) [ none ↦ none | some vals ↦ some (named vals) ]

  -- By the type of a message: a command or a data message is decoded, anything else is control.
  unfoldable pub contents : Message → Conn W (Option (Bytes × List Val))
  contents msg =
      if (msg.mtype == 20) || (msg.mtype == 18)
      then (λ t. elim (command_of msg) [ none ↦ none | some c ↦ some (ok c, t) ])
      else (lift (handle_control w now msg) >> pure none)

  -- What a message does, and the command that it carries.
  unfoldable pub take_message : Message → Conn W (Option (Bytes × List Val))
  take_message msg =
      lift (λ t. (ok tt, note_inbound w now (record t { last_activity = now })))
      >> lift (maybe_send_ack w now)
      >> contents msg

  unfoldable pub receive_message : Conn W Message
  receive_message t = elim (read_message (record { reader = t.reader; sock = t.inbound })) [
    | none ↦ none
    | some (r, s) ↦
        let t' = record t { reader = s.reader; inbound = s.sock } in
        elim r [
          | ok msg ↦ some (ok msg, t')
          | err e ↦ if waits_forever cfg e then none else some (err e, t')
        ]
  ]

  -- The loop of `read_command`; a message takes a byte at least.
  unfoldable pub read_commands : ℕ → Conn W (Bytes × List Val)
  read_commands zero = λ t. none
  read_commands (suc fuel) =
      receive_message >>= λ msg. take_message msg >>= λ c. found_or (read_commands fuel) c

  unfoldable pub read_command : Conn W (Bytes × List Val)
  read_command t = read_commands (length t.inbound.bytes + 1) t

  -- `n` messages are waited for.
  unfoldable pub await_result : ℕ → ℕ → Conn W (List Val)
  await_result zero txn = raise invalid_data
  await_result (suc n) txn =
      let more = await_result n txn in
      read_command >>= λ (name, vals).
      (if eq_bytes name (codes "_result")
        then (if has_txn txn vals then pure vals else more)
        else if eq_bytes name (codes "_error")
        then raise invalid_data
        else more)

  unfoldable pub await_publish_status : ℕ → Conn W (Unit {0})
  await_publish_status zero = raise invalid_data
  await_publish_status (suc n) =
      let more = await_publish_status n in
      read_command >>= λ (name, vals).
      (if eq_bytes name (codes "onStatus")
        then (if starts_with (codes "NetStream.Publish.Start") (code_of vals)
            then pure tt
            else raise invalid_data)
        else if eq_bytes name (codes "_error")
        then raise invalid_data
        else more)
