-- ===== src/Rtmp/Connect/Answers.antt =====
-- `RtmpTransport::connect` (core/src/rtmp/mod.rs) comes to an end, whatever the server sends.
use mathlib.Core.Path.{subst}
use strym_core.Common.{
  ℕ, zero, suc, ◌+◌, ◌≤◌, ◌<◌, ◌≡◌, ◌≢◌, refl, ap, ◌∙◌, arith, Bool, ◌||◌, true, false, Option,
  none, some, List, if◌then◌else◌, ltb, leb, ◌==◌, length, leb→le, length-take, Bytes, eq_bytes,
  Bool-cases, Option-cases, inl, inr,
}
use strym_core.Common.Result.{Result, ok, err}
use strym_core.Common.Text.{codes}
use strym_core.Io.{IoError, Write}
use strym_core.Rtmp.Amf0.{Val, read_all}
use strym_core.Rtmp.Amf0.Total.{read_all-ne-none}
use strym_core.Rtmp.Handshake.{build_c2, echo, find_digest_offset, fms_key2}
use strym_core.Rtmp.Chunks.{Message, Inbound, read_message}
use strym_core.Rtmp.Chunks.Rounds.{read_message-total, read_message-left}
use strym_core.Rtmp.Publisher.{RtmpTransport, Rtmp, maybe_send_ack, note_inbound, handle_control}
use strym_core.Rtmp.Publisher.Drain.{maybe_send_ack-inbound, handle_control-inbound}
use strym_core.Rtmp.Connect.{
  RtmpConfig, Conn, ◌>>=◌, ◌>>◌, found_or, lift, pure, command_of, contents, take_message,
  receive_message, read_commands, read_command, await_result, await_publish_status, has_txn,
  starts_with, code_of,
}
use strym_core.Rtmp.Connect.Open.{read_exact}

-- A call that comes back, and what holds of its result and state when it succeeds.
abbrev pub Gives :
    {W A : Type 0}
    → (A → RtmpTransport W → Type 0)
    → Option (Result IoError A × RtmpTransport W)
    → Type 0
Gives P none = ⊥
Gives P (some (ok a, u)) = P a u
Gives P (some (err x, u)) = Unit {0}

pub Gives-bind :
    {W A B : Type 0} (P : A → RtmpTransport W → Type 0) (Q : B → RtmpTransport W → Type 0)
    (m : Conn W A) (f : A → Conn W B) (t : RtmpTransport W)
    → Gives P (m t)
    → ((a : A) (u : RtmpTransport W) → P a u → Gives Q (f a u))
    → Gives Q ((m >>= f) t)
Gives-bind {W} {A} P Q m f t h k = go (m t) h
  where
    go :
        (o : Option (Result IoError A × RtmpTransport W)) → Gives P o → Gives Q (((λ u. o) >>= f) t)
    go none p = absurd p
    go (some (ok a, u)) p = k a u p
    go (some (err x, u)) p = tt

-- It comes back.
abbrev pub Any : {W A : Type 0} → A → RtmpTransport W → Type 0
Any a u = Unit {0}

-- It has read nothing.
abbrev Keeps : {W A : Type 0} → Inbound → A → RtmpTransport W → Type 0
Keeps i a u = u.inbound ≡ i

pub lift-Gives : {W A : Type 0} (m : Rtmp W A) (t : RtmpTransport W) → Gives Any (lift m t)
lift-Gives {W} {A} m t = go (m t)
  where
    go : (o : Result IoError A × RtmpTransport W) → Gives Any (some o)
    go (ok a, u) = tt
    go (err x, u) = tt

lift-Keeps :
    {W A : Type 0} (m : Rtmp W A) (i : Inbound) (t : RtmpTransport W)
    → (m t).1.inbound ≡ i
    → Gives (Keeps i) (lift m t)
lift-Keeps {W} {A} m i t h = go (m t) h
  where
    go : (o : Result IoError A × RtmpTransport W) → o.1.inbound ≡ i → Gives (Keeps i) (some o)
    go (ok a, u) p = p
    go (err x, u) p = tt

pub build_c2-ne-none : (s1 : Bytes) → length s1 ≡ 1536 → build_c2 s1 ≢ none
unfolding build_c2 echo
build_c2-ne-none s1 e =
    let long : ltb (length s1) 1536 ≡ false = ground (arith, e) in
    let fits : (length s1 == 1536) ≡ true = ground (arith, e) in
    elim (Option-cases (find_digest_offset s1 fms_key2)) [
      | inl q ↦ rw (long, q, fits) (λ n. cc)
      | inr (off, q) ↦ rw (long, q) (λ n. cc)
    ]

module _ (lossy : Bytes → Bytes) {W : Type 0} (w : Write W) (now : ℕ) (cfg : RtmpConfig) (limit : ℕ)
    (limited : cfg.timeout ≡ some limit) where
  pub read_exact-Gives :
      (n : ℕ) (t : RtmpTransport W) → Gives (λ b u. length b ≡ n) (read_exact lossy w now cfg n t)
  unfolding read_exact
  read_exact-Gives n t = elim (Bool-cases (leb n (length t.inbound.bytes))) [
    | inl q ↦
        (let enough : n ≤ length t.inbound.bytes = leb→le n (length t.inbound.bytes) q in
          rw q (omega (arith, length-take n t.inbound.bytes)))
    | inr q ↦ rw (q, limited) tt
  ]

  command_of-Gives :
      (msg : Message) (t : RtmpTransport W)
      → Gives
          (Keeps t.inbound)
          (elim (command_of lossy w now cfg msg) [ none ↦ none | some c ↦ some (ok c, t) ])
  unfolding command_of
  command_of-Gives msg t = elim (Option-cases (read_all lossy msg.payload)) [
    | inl q ↦ absurd (read_all-ne-none lossy msg.payload q)
    | inr (vals, q) ↦ rw q refl
  ]

  contents-Keeps :
      (msg : Message) (t : RtmpTransport W)
      → Gives (Keeps t.inbound) (contents lossy w now cfg msg t)
  unfolding contents
  contents-Keeps msg t = elim (Bool-cases ((msg.mtype == 20) || (msg.mtype == 18))) [
    | inl q ↦ rw q (command_of-Gives msg t)
    | inr q ↦ rw q (
        Gives-bind (Keeps t.inbound) (Keeps t.inbound) (lift (handle_control w now msg))
          (λ x. pure none) t
          (lift-Keeps (handle_control w now msg) t.inbound t (handle_control-inbound w now msg t))
          λ a u p. p)
  ]

  take_message-Keeps :
      (msg : Message) (t : RtmpTransport W)
      → Gives (Keeps t.inbound) (take_message lossy w now cfg msg t)
  unfolding take_message note_inbound
  take_message-Keeps msg t =
      let i : Inbound = t.inbound in
      let noted : Rtmp W (Unit {0}) =
        λ s. (ok tt, note_inbound w now (record s { last_activity = now })) in
      Gives-bind (Keeps i) (Keeps i) (lift noted >> lift (maybe_send_ack w now))
        (λ x. contents lossy w now cfg msg) t
        (Gives-bind (Keeps i) (Keeps i) (lift noted) (λ x. lift (maybe_send_ack w now)) t refl
          λ a u p. lift-Keeps (maybe_send_ack w now) i u (maybe_send_ack-inbound w now u ∙ p))
        λ a u p.
          subst (λ k. Gives (Keeps k) (contents lossy w now cfg msg u)) p (contents-Keeps msg u)

  -- A message takes a byte at least.
  receive_message-Gives :
      (t : RtmpTransport W)
      → Gives
          (λ m u. length u.inbound.bytes < length t.inbound.bytes)
          (receive_message lossy w now cfg t)
  unfolding receive_message
  receive_message-Gives t =
      elim (Option-cases (read_message (record { reader = t.reader; sock = t.inbound }))) [
        | inl q ↦ absurd (read_message-total _ q)
        | inr ((err e, s), q) ↦ rw (Gives, q, limited) tt
        | inr ((ok msg, s), q) ↦ rw (Gives, q) (read_message-left _ s msg q)
      ]

  read_commands-Gives :
      (fuel : ℕ) (t : RtmpTransport W)
      → length t.inbound.bytes < fuel
      → Gives Any (read_commands lossy w now cfg fuel t)
  unfolding read_commands
  read_commands-Gives zero t l = absurd (omega arith)
  read_commands-Gives (suc fuel) t l =
      Gives-bind (λ m u. length u.inbound.bytes < length t.inbound.bytes) Any
        (receive_message lossy w now cfg)
        (λ msg.
          take_message lossy w now cfg msg >>= λ c. found_or (read_commands lossy w now cfg fuel) c)
        t (receive_message-Gives t)
        λ msg u p.
          Gives-bind (Keeps u.inbound) Any (take_message lossy w now cfg msg)
            (λ c. found_or (read_commands lossy w now cfg fuel) c) u (take_message-Keeps msg u)
            λ c v q.
              found_or_more c v
                (read_commands-Gives fuel v (omega (arith, ap (λ i. length i.bytes) q)))
    where
      found_or_more :
          (c : Option (Bytes × List Val)) (v : RtmpTransport W)
          → Gives Any (read_commands lossy w now cfg fuel v)
          → Gives Any (found_or (read_commands lossy w now cfg fuel) c v)
      found_or_more none v h = h
      found_or_more (some found) v h = tt

  pub read_command-Gives : (t : RtmpTransport W) → Gives Any (read_command lossy w now cfg t)
  unfolding read_command
  read_command-Gives t = read_commands-Gives (length t.inbound.bytes + 1) t (omega arith)

  pub if-Gives :
      {A : Type 0} (b : Bool) (m n : Conn W A) (t : RtmpTransport W)
      → Gives Any (m t)
      → Gives Any (n t)
      → Gives Any ((if b then m else n) t)
  if-Gives true m n t p q = p
  if-Gives false m n t p q = q

  pub await_result-Gives :
      (n txn : ℕ) (t : RtmpTransport W) → Gives Any (await_result lossy w now cfg n txn t)
  unfolding await_result
  await_result-Gives zero txn t = tt
  await_result-Gives (suc n) txn t =
      Gives-bind Any Any (read_command lossy w now cfg) _ t (read_command-Gives t)
        λ (name, vals) u p.
          if-Gives (eq_bytes name (codes "_result")) _ _ u
            (if-Gives (has_txn txn vals) _ _ u tt (await_result-Gives n txn u))
            (if-Gives (eq_bytes name (codes "_error")) _ _ u tt (await_result-Gives n txn u))

  pub await_publish_status-Gives :
      (n : ℕ) (t : RtmpTransport W) → Gives Any (await_publish_status lossy w now cfg n t)
  unfolding await_publish_status
  await_publish_status-Gives zero t = tt
  await_publish_status-Gives (suc n) t =
      Gives-bind Any Any (read_command lossy w now cfg) _ t (read_command-Gives t)
        λ (name, vals) u p.
          if-Gives (eq_bytes name (codes "onStatus")) _ _ u
            (if-Gives (starts_with (codes "NetStream.Publish.Start") (code_of vals)) _ _ u tt tt)
            (if-Gives (eq_bytes name (codes "_error")) _ _ u tt (await_publish_status-Gives n u))
