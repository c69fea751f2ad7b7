-- ===== src/Rtmp/Connect/Probes.antt =====
-- The probes without an answer through `connect` (core/src/rtmp/mod.rs) and the calls after it.
use strym_core.Common.{
  ℕ, zero, suc, ◌+◌, ◌≤◌, ◌≡◌, Bool, true, false, Option, none, some, List, if◌then◌else◌, arith,
  length, Bytes, eq_bytes, Option-cases, inl, inr,
}
use strym_core.Common.Result.{Result, ok, err}
use strym_core.Common.Text.{codes}
use strym_core.Io.{IoError, invalid_data, Write}
use strym_core.Rtmp.Amf0.{Val}
use strym_core.Rtmp.Chunks.{Message, read_message}
use strym_core.Rtmp.Publisher.{
  RtmpTransport, Rtmp, max_unanswered_pings, maybe_send_ack, note_inbound, handle_control,
}
use strym_core.Rtmp.Publisher.Probes.{Probed, maybe_send_ack-pings, handle_control-pings}
use strym_core.Rtmp.Connect.{
  RtmpConfig, Conn, ◌>>=◌, ◌>>◌, lift, pure, raise, ignore, found_or, waits_forever, command_of,
  contents, take_message, receive_message, read_commands, read_command, await_result,
  await_publish_status, has_txn, starts_with, code_of,
}

-- A call that keeps the number of probes in its bounds.
pub record Stays {W A : Type 0} (m : Conn W A) : Type 0 where
  pub stays : (t : RtmpTransport W) → t.pings_without_reply ≤ max_unanswered_pings → Probed (m t)

pub Stays-bind :
    {W A B : Type 0} {m : Conn W A} {f : A → Conn W B}
    → Stays m
    → ((a : A) → Stays (f a))
    → Stays (m >>= f)
Stays-bind {W} {A} {m = m} {f = f} h k = record { stays = λ t b. go t (m t) (h.stays t b) }
  where
    go :
        (t : RtmpTransport W) (o : Option (Result IoError A × RtmpTransport W))
        → Probed o
        → Probed (((λ u. o) >>= f) t)
    go t none p = tt
    go t (some (ok a, u)) p = (k a).stays u p
    go t (some (err x, u)) p = p

pub Stays-next :
    {W B : Type 0} {m : Conn W (Unit {0})} {k : Conn W B} → Stays m → Stays k → Stays (m >> k)
Stays-next h k = Stays-bind h (λ x. k)

-- A step that leaves the number as it is.
abbrev pub Same : {W A : Type 0} → Rtmp W A → Type 0
Same {W} m = (t : RtmpTransport W) → (m t).1.pings_without_reply ≡ t.pings_without_reply

pub Stays-lift : {W A : Type 0} (m : Rtmp W A) → Same m → Stays (lift m)
Stays-lift m h = record { stays = λ t b. omega (arith, h t) }

-- `let _ = call`.
pub Stays-ignore : {W : Type 0} (m : Rtmp W (Unit {0})) → Same m → Stays (ignore m)
Stays-ignore m h = record { stays = λ t b. omega (arith, h t) }

pub Stays-pure : {W A : Type 0} (a : A) → Stays {W = W} (pure a)
Stays-pure a = record { stays = λ t b. b }

pub Stays-raise : {W A : Type 0} (e : IoError) → Stays {W = W} {A = A} (raise e)
Stays-raise e = record { stays = λ t b. b }

pub Stays-if :
    {W A : Type 0} (b : Bool) {m n : Conn W A} → Stays m → Stays n → Stays (if b then m else n)
Stays-if true h k = h
Stays-if false h k = k

module _ (lossy : Bytes → Bytes) {W : Type 0} (w : Write W) (now : ℕ) (cfg : RtmpConfig) where
  contents-Stays : (msg : Message) → Stays (contents lossy w now cfg msg)
  unfolding contents
  contents-Stays msg =
      Stays-if _ record { stays = λ t b. decoded (command_of lossy w now cfg msg) t b }
        (Stays-next (Stays-lift (handle_control w now msg) (handle_control-pings w now msg))
          (Stays-pure none))
    where
      decoded :
          (o : Option (Option (Bytes × List Val))) (t : RtmpTransport W)
          → t.pings_without_reply ≤ max_unanswered_pings
          → Probed {W = W} (elim o [ none ↦ none | some c ↦ some (ok c, t) ])
      decoded none t b = tt
      decoded (some c) t b = b

  take_message-Stays : (msg : Message) → Stays (take_message lossy w now cfg msg)
  unfolding take_message note_inbound
  take_message-Stays msg =
      Stays-next
        {m = lift (λ t. (ok tt, note_inbound w now (record t { last_activity = now })))
          >> lift (maybe_send_ack w now)}
        {k = contents lossy w now cfg msg}
        (Stays-next {m = lift (λ t. (ok tt, note_inbound w now (record t { last_activity = now })))}
          record { stays = λ t b. omega arith }
          (Stays-lift (maybe_send_ack w now) (maybe_send_ack-pings w now)))
        (contents-Stays msg)

  receive_message-Stays : Stays (receive_message lossy w now cfg)
  unfolding receive_message
  receive_message-Stays = record {
    stays = λ t b.
        elim (Option-cases (read_message (record { reader = t.reader; sock = t.inbound }))) [
          | inl q ↦ rw (Probed, q) tt
          | inr ((ok msg, s), q) ↦ rw (Probed, q) b
          | inr ((err e, s), q) ↦ rw (Probed, q) (blocked (waits_forever cfg e) e _ b)
        ];
  }
    where
      blocked :
          (x : Bool) (e : IoError) (u : RtmpTransport W)
          → u.pings_without_reply ≤ max_unanswered_pings
          → Probed {A = Message} (if x then none else some (err e, u))
      blocked true e u b = tt
      blocked false e u b = b

  read_commands-Stays : (fuel : ℕ) → Stays (read_commands lossy w now cfg fuel)
  unfolding read_commands
  read_commands-Stays zero = record { stays = λ t b. tt }
  read_commands-Stays (suc fuel) =
      Stays-bind receive_message-Stays
        λ msg. Stays-bind (take_message-Stays msg) (found (read_commands-Stays fuel))
    where
      found :
          Stays (read_commands lossy w now cfg fuel)
          → (c : Option (Bytes × List Val))
          → Stays (found_or (read_commands lossy w now cfg fuel) c)
      found h none = h
      found h (some x) = Stays-pure x

  read_command-Stays : Stays (read_command lossy w now cfg)
  unfolding read_command
  read_command-Stays = record {
    stays = λ t b. (read_commands-Stays (length t.inbound.bytes + 1)).stays t b;
  }

  pub await_result-Stays : (n txn : ℕ) → Stays (await_result lossy w now cfg n txn)
  unfolding await_result
  await_result-Stays zero txn = Stays-raise invalid_data
  await_result-Stays (suc n) txn = Stays-bind read_command-Stays λ (name, vals).
      Stays-if (eq_bytes name (codes "_result"))
        (Stays-if (has_txn txn vals) (Stays-pure vals) (await_result-Stays n txn))
        (Stays-if (eq_bytes name (codes "_error")) (Stays-raise invalid_data)
          (await_result-Stays n txn))

  pub await_publish_status-Stays : (n : ℕ) → Stays (await_publish_status lossy w now cfg n)
  unfolding await_publish_status
  await_publish_status-Stays zero = Stays-raise invalid_data
  await_publish_status-Stays (suc n) = Stays-bind read_command-Stays λ (name, vals).
      Stays-if (eq_bytes name (codes "onStatus"))
        (Stays-if (starts_with (codes "NetStream.Publish.Start") (code_of vals)) (Stays-pure tt)
          (Stays-raise invalid_data))
        (Stays-if (eq_bytes name (codes "_error")) (Stays-raise invalid_data)
          (await_publish_status-Stays n))
