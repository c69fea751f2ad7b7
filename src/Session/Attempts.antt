-- ===== src/Session/Attempts.antt =====
-- The retry budget: how long a session that finds no connection goes on.
use strym_core.Common.{
  ℕ, zero, suc, ◌+◌, ◌^◌, ◌<◌, ◌≡◌, refl, ap, sym, ◌∙◌, ◌≤◌, ◌==◌, if◌then◌else◌, Bool-cases, inl,
  inr, true, false, Option, none, some, arith, leb, add_u32, le→leb, lt→leb,
}
use strym_core.Common.Result.{err}
use strym_core.Io.{IoError}
use strym_core.Transport.{Transport}
use strym_core.Sink.{PacketSink}
use strym_core.Session.{
  Connector, Backoff, Session, reconnecting, exhausted, step, reconnect_phase, attempt_failed,
  too_early, spent,
}

-- The time at which the next attempt may run.
abbrev due : Option ℕ → ℕ
due none = 0
due (some at) = at

due-early : (t : Option ℕ) → too_early (due t) t ≡ false
due-early none = refl
due-early (some at) = ground arith

module _ {C W O R : Type 0} (cn : Connector C W) (tr : Transport W) (out : PacketSink O)
    (bo : Backoff R) where
  -- Pumps, each when the next attempt is due.
  unfoldable pub pump : ℕ → Session C W O R → Session C W O R
  pump zero s = s
  pump (suc n) s = pump n (step cn tr out bo (due s.next_attempt_at) s).1

  -- The connector after so many calls.
  unfoldable pub dial : ℕ → C → C
  dial zero c = c
  dial (suc n) c = dial n (cn.connect c).1

  -- The connector finds no server.
  abbrev pub IsDead : Type 0
  IsDead = (c : C) → (x : IoError) × ((cn.connect c).0 ≡ err x)

  step-reconnecting :
      (now : ℕ) (s : Session C W O R)
      → s.state ≡ reconnecting
      → step cn tr out bo now s ≡ reconnect_phase cn tr out bo now s
  unfolding step
  step-reconnecting now s r = ground (arith, r)

  failing-step :
      IsDead
      → (s : Session C W O R) → s.state ≡ reconnecting
      → (x : IoError) × (step cn tr out bo (due s.next_attempt_at) s
          ≡ attempt_failed cn tr out bo (due s.next_attempt_at) x (cn.connect s.connector).1 s)
  unfolding step reconnect_phase
  failing-step dead s r =
      let (x, e) = dead s.connector in
      let now : ℕ = due s.next_attempt_at in
      let c : C = (cn.connect s.connector).1 in
      let phase : reconnect_phase cn tr out bo now s ≡ attempt_failed cn tr out bo now x c s =
        rw (reconnect_phase, due-early s.next_attempt_at, e) refl in
      (x, step-reconnecting now s r ∙ phase)

  -- The last attempt of the budget, and one before it.
  last_attempt :
      (now : ℕ) (x : IoError) (c : C) (s : Session C W O R)
      → spent s.policy.max_attempts (add_u32 s.attempt 1) ≡ true
      → let t = (attempt_failed cn tr out bo now x c s).1 in
        (t.state ≡ exhausted) × (t.attempt ≡ add_u32 s.attempt 1) × (t.connector ≡ c)
  unfolding attempt_failed
  last_attempt now x c s t = rw (attempt_failed, t) (refl, refl, refl)

  early_attempt :
      (now : ℕ) (x : IoError) (c : C) (s : Session C W O R)
      → spent s.policy.max_attempts (add_u32 s.attempt 1) ≡ false
      → let t = (attempt_failed cn tr out bo now x c s).1 in
        (t.state ≡ s.state)
        × (t.attempt ≡ add_u32 s.attempt 1)
        × (t.policy ≡ s.policy)
        × (t.connector ≡ c)
  unfolding attempt_failed
  early_attempt now x c s t = rw (attempt_failed, t) (refl, refl, refl, refl)

  budget :
      (max : ℕ) (s : Session C W O R)
      → s.policy.max_attempts ≡ some max
      → max < 2 ^ 32
      → s.attempt < max
      → spent s.policy.max_attempts (add_u32 s.attempt 1) ≡ leb max (s.attempt + 1)
  budget max s m w l = ap (λ o. spent o (add_u32 s.attempt 1)) m ∙ ap (λ k. leb max k) add
    where
      add : add_u32 s.attempt 1 ≡ s.attempt + 1
      add = omega arith

  -- Before the last attempt of the budget the session goes on.
  pump-trying :
      IsDead
      → (k max : ℕ) (s : Session C W O R) → s.state ≡ reconnecting
      → s.policy.max_attempts ≡ some max
      → max < 2 ^ 32
      → s.attempt + k < max
      → let t = pump k s in
        (t.state ≡ reconnecting)
        × (t.attempt ≡ s.attempt + k)
        × (t.connector ≡ dial k s.connector)
        × (t.policy ≡ s.policy)
  unfolding pump dial
  pump-trying dead zero max s r m w l = (r, omega arith, refl, refl)
  pump-trying dead (suc k) max s r m w l =
      let now : ℕ = due s.next_attempt_at in
      let c : C = (cn.connect s.connector).1 in
      let (x, e) = failing-step dead s r in
      let (st, at, po, co) =
        early_attempt now x c s
          (budget max s m w (omega arith) ∙ lt→leb max (s.attempt + 1) (omega arith)) in
      let u : Session C W O R = (attempt_failed cn tr out bo now x c s).1 in
      let (st', at', co', po') =
        pump-trying dead k max u (st ∙ r) (ap (λ p. p.max_attempts) po ∙ m) w (omega (arith, at)) in
      rw (pump, e) (st', at' ∙ omega (arith, at), co' ∙ ap (dial k) co, po' ∙ po)

  -- One pump more than `n`.
  pump-suc :
      (n : ℕ) (s : Session C W O R)
      → pump (suc n) s ≡ (step cn tr out bo (due (pump n s).next_attempt_at) (pump n s)).1
  unfolding pump
  pump-suc zero s = refl
  pump-suc (suc n) s = pump-suc n (step cn tr out bo (due s.next_attempt_at) s).1

  dial-suc : (n : ℕ) (c : C) → dial (suc n) c ≡ (cn.connect (dial n c)).1
  unfolding dial
  dial-suc zero c = refl
  dial-suc (suc n) c = dial-suc n (cn.connect c).1

  pump-last :
      IsDead
      → (n max : ℕ) (s : Session C W O R) → s.state ≡ reconnecting
      → s.policy.max_attempts ≡ some max
      → max < 2 ^ 32
      → s.attempt + suc n ≡ max
      → let t = pump (suc n) s in
        (t.state ≡ exhausted) × (t.attempt ≡ max) × (t.connector ≡ dial (suc n) s.connector)
  pump-last dead n max s r m w l =
      let t : Session C W O R = pump n s in
      let (st, at, co, po) = pump-trying dead n max s r m w (omega arith) in
      let m' : t.policy.max_attempts ≡ some max = ap (λ p. p.max_attempts) po ∙ m in
      let (x, e) = failing-step dead t st in
      let (st', at', co') =
        last_attempt (due t.next_attempt_at) x (cn.connect t.connector).1 t (
          budget max t m' w (omega (arith, at)) ∙ le→leb max (t.attempt + 1) (omega (arith, at))) in
      rw (pump-suc n s, e)
        (
          st',
          at' ∙ omega (arith, at),
          co' ∙ (ap (λ c. (cn.connect c).1) co ∙ sym (dial-suc n s.connector)),
        )

  -- A session that has lost its connection, and whose connector never finds the server again, makes
  -- exactly the attempts that are left of its budget, which is below 2 ^ 32. Pumped `k` times, each
  -- when the next attempt is due, it has called the connector `k` times and counted each call; it
  -- goes on reconnecting as long as the budget is not reached, and is exhausted when it is.
  pub pump-exhausted :
      IsDead
      → (max k : ℕ) (s : Session C W O R) → s.state ≡ reconnecting
      → s.policy.max_attempts ≡ some max
      → max < 2 ^ 32
      → s.attempt < max
      → s.attempt + k ≤ max
      → let t = pump k s in
        (t.connector ≡ dial k s.connector)
        × (t.attempt ≡ s.attempt + k)
        × (t.state ≡ (if s.attempt + k == max then exhausted else reconnecting))
  pump-exhausted dead max zero s r m w l h =
      let more : (s.attempt + 0 == max) ≡ false = ground arith in
      unfold pump in unfold dial in rw more (refl, omega arith, r)
  pump-exhausted dead max (suc n) s r m w l h = elim (Bool-cases (s.attempt + suc n == max)) [
    | inl e ↦
        let full : s.attempt + suc n ≡ max = ground arith in
        let (st, at, co) = pump-last dead n max s r m w full in rw e (co, at ∙ sym full, st)
    | inr e ↦
        let (st, at, co, po) = pump-trying dead (suc n) max s r m w (ground arith) in
        rw e (co, at, st)
  ]
