-- ===== src/Transport/Fanout/Primary.antt =====
-- What a failing secondary does to a fanout, and what it does not.
use strym_core.Common.{
  ◌≡◌, ◌⊎◌, inl, inr, refl, Bool, true, false, ◌||◌, none, some, [], ◌∷◌, arith, Bytes, sym,
}
use strym_core.Common.Result.{Result, ok, err, Result-cases}
use strym_core.Io.{IoError}
use strym_core.Transport.{Transport}
use strym_core.Transport.Fanout.{
  Fanout, FanoutSlot, visit, visit_slot, write_slot, write, any_alive,
}

module _ {T : Type 0} (tr : Transport T) where
  abbrev pub Op : Type 0
  Op = T → Result IoError (Unit {0}) × T

  abbrev succeeded : Result IoError (Unit {0}) → Bool
  succeeded (ok u) = true
  succeeded (err x) = false

  -- A retired slot is left alone; a live one has had its call, and has retired if that failed and
  -- it is a secondary.
  abbrev pub Visited : Op → Bool → FanoutSlot T → FanoutSlot T → Type 0
  Visited op primary s t =
      ((s.alive ≡ false) × (t ≡ s))
      ⊎ ((s.alive ≡ true)
          × (t.transport ≡ (op s.transport).1)
          × (t.alive ≡ (primary || succeeded (op s.transport).0)))

  abbrev pub AllVisited : Op → Bool → Fanout T → Fanout T → Type 0
  AllVisited op primary [] [] = Unit {0}
  AllVisited op primary (s ∷ ss) (t ∷ ts) = Visited op primary s t × AllVisited op false ss ts
  AllVisited op primary _ _ = ⊥

  slot-secondary : (op : Op) (s : FanoutSlot T) → (visit_slot tr op false s).0 ≡ none
  unfolding visit_slot
  slot-secondary op s = ground arith

  visit-secondary : (op : Op) (slots : Fanout T) → (visit tr op false slots).0 ≡ none
  unfolding visit
  visit-secondary op [] = refl
  visit-secondary op (s ∷ slots) = rw (visit, slot-secondary op s) (visit-secondary op slots)

  slot-primary :
      (op : Op) (s : FanoutSlot T) (u : Unit {0})
      → s.alive ≡ true
      → (op s.transport).0 ≡ ok u
      → (visit_slot tr op true s).0 ≡ none
  unfolding visit_slot
  slot-primary op s u a q = ground (arith, a, q)

  slot_primary_failed :
      (op : Op) (s : FanoutSlot T) (x : IoError)
      → s.alive ≡ true
      → (op s.transport).0 ≡ err x
      → (visit_slot tr op true s).0 ≡ some x
  unfolding visit_slot
  slot_primary_failed op s x a q = ground (arith, a, q)

  any_alive-cons :
      (s : FanoutSlot T) (slots : Fanout T) → s.alive ≡ true → any_alive tr (s ∷ slots) ≡ true
  unfolding any_alive
  any_alive-cons s slots a = ground (arith, a)

  -- While the primary is in service, a write to a fanout succeeds or fails as the write to the
  -- primary does, with its error, whatever becomes of the secondaries.
  pub write-primary :
      (s : FanoutSlot T) (slots : Fanout T) (buf : Bytes)
      → s.alive ≡ true
      → (write tr (s ∷ slots) buf).0 ≡ (write_slot tr buf s.transport).0
  unfolding write visit
  write-primary s slots buf a = elim (Result-cases (write_slot tr buf s.transport).0) [
    | inl (u, q) ↦
        rw
          (
            write,
            visit,
            slot-primary (write_slot tr buf) s u a q,
            visit-secondary (write_slot tr buf) slots,
            any_alive-cons s slots a,
          )
          (sym q)
    | inr (x, q) ↦ rw (write, visit, slot_primary_failed (write_slot tr buf) s x a q) (sym q)
  ]
