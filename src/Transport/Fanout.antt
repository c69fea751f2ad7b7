-- ===== src/Transport/Fanout.antt =====
-- core/src/transport.rs, `Fanout`: a primary transport and secondaries that retire when they fail.
pub mod Primary
use strym_core.Common.{
  ℕ, ◌+◌, Bool, true, false, ◌||◌, Option, none, some, List, [], ◌∷◌, ◌++◌, if◌then◌else◌, Bytes,
}
use strym_core.Common.Result.{Result, ok, err}
use strym_core.Io.{IoError, broken_pipe}
use strym_core.Transport.{Transport}

-- A slot's transport is of any type, here one `T` whose operations may differ from value to value.
pub record FanoutSlot (T : Type 0) : Type 0 where
  pub transport : T
  pub alive : Bool

abbrev pub Fanout : Type 0 → Type 0
Fanout T = List (FanoutSlot T)

module _ {T : Type 0} where
  unfoldable pub add : Fanout T → T → Fanout T
  add slots transport = slots ++ (record { transport = transport; alive = true } ∷ [])

  -- How many sinks are in service.
  unfoldable pub alive : Fanout T → ℕ
  alive [] = 0
  alive (s ∷ slots) = (if s.alive then 1 else 0) + alive slots

module _ {T : Type 0} (tr : Transport T) where
  -- One call of a slot, for `write` and `maintain`: a retired one is skipped, a secondary that
  -- fails retires, and the primary's error is handed on.
  unfoldable pub visit_slot :
      (T → Result IoError (Unit {0}) × T) → Bool → FanoutSlot T → Option IoError × FanoutSlot T
  visit_slot op primary s =
      if s.alive
      then (let (r, t) = op s.transport in
          elim r [
            | ok _ ↦ (none, record s { transport = t })
            | err x ↦
                if primary
                then (some x, record s { transport = t })
                else (none, record { transport = t; alive = false })
          ])
      else (none, s)

  -- Every slot in turn; the flag says that the first one is the primary.
  unfoldable pub visit :
      (T → Result IoError (Unit {0}) × T) → Bool → Fanout T → Option IoError × Fanout T
  visit op primary [] = (none, [])
  visit op primary (s ∷ slots) =
      let (e, t) = visit_slot op primary s in
      let (q, rest) = visit op false slots in (elim e [ none ↦ q | some x ↦ some x ], t ∷ rest)

  -- `write_all`, and a flush whose result is dropped.
  unfoldable pub write_slot : Bytes → T → Result IoError (Unit {0}) × T
  write_slot buf t =
      let (r, t') = tr.write.write_all t buf in
      elim r [ ok _ ↦ (ok tt, (tr.write.flush t').1) | err e ↦ (err e, t') ]

  unfoldable pub any_alive : Fanout T → Bool
  any_alive [] = false
  any_alive (s ∷ slots) = s.alive || any_alive slots

  unfoldable pub write : Fanout T → Bytes → Result IoError (Unit {0}) × Fanout T
  write slots buf =
      let (e, after) = visit (write_slot buf) true slots in
      elim e [
        | some x ↦ (err x, after)
        | none ↦ if any_alive slots then (ok tt, after) else (err broken_pipe, after)
      ]

  -- The first live slot that fails ends the flush.
  unfoldable pub flush : Fanout T → Result IoError (Unit {0}) × Fanout T
  flush [] = (ok tt, [])
  flush (s ∷ slots) =
      let (q, rest) = flush slots in
      if s.alive
      then (let (r, t) = tr.write.flush s.transport in
          elim r [
            | ok _ ↦ (q, record s { transport = t } ∷ rest)
            | err e ↦ (err e, record s { transport = t } ∷ slots)
          ])
      else (q, s ∷ rest)

  unfoldable pub maintain : Fanout T → Result IoError (Unit {0}) × Fanout T
  maintain slots =
      let (e, after) = visit tr.maintain true slots in
      elim e [ some x ↦ (err x, after) | none ↦ (ok tt, after) ]

  -- Every slot, retired ones too; the first failure is the answer.
  unfoldable pub shutdown : Fanout T → Result IoError (Unit {0}) × Fanout T
  shutdown [] = (ok tt, [])
  shutdown (s ∷ slots) =
      let (r, t) = tr.shutdown s.transport in
      let (q, rest) = shutdown slots in
      (elim r [ ok _ ↦ q | err e ↦ err e ], record s { transport = t } ∷ rest)
