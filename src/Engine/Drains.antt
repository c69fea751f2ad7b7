-- ===== src/Engine/Drains.antt =====
-- What a drain of the engine's buffer takes, and what it throws away.
use strym_core.Common.{
  ℕ, zero, suc, ◌+◌, ◌≤◌, ◌≡◌, refl, ap, true, false, ◌&&◌, not, List, [], ◌∷◌, some, none, arith,
  length, Bool-cases, List-cases, inl, inr,
}
use strym_core.Models.{MediaPacket}
use strym_core.Backpressure.{BoundedBuffer, pop_oldest, record_drop, len}
use strym_core.Engine.{
  Inner, drain_loop, drain_for_mux, insert_by_dts, sort_by_dts, is_inter_frame, is_keyframe,
}
use strym_core.Engine.Account.{Accounts, Accounts-eq}

length-insert :
    (p : MediaPacket) (ps : List MediaPacket) → length (insert_by_dts p ps) ≡ suc (length ps)
unfolding insert_by_dts
length-insert p [] = refl
length-insert p (q ∷ qs) = ground (arith, length-insert p qs)

pub length-sort : (ps : List MediaPacket) → length (sort_by_dts ps) ≡ length ps
unfolding sort_by_dts
length-sort [] = refl
length-sort (p ∷ ps) = omega (arith, length-insert p (sort_by_dts ps), length-sort ps)

pop_oldest-some :
    (b : BoundedBuffer MediaPacket) (p : MediaPacket) (rest : List MediaPacket)
    → b.queue ≡ p ∷ rest
    → pop_oldest b ≡ (some p, record b { queue = rest })
unfolding pop_oldest
pop_oldest-some b p rest q = rw q refl

pop_oldest-none : (b : BoundedBuffer MediaPacket) → b.queue ≡ [] → (pop_oldest b).0 ≡ none
unfolding pop_oldest
pop_oldest-none b q = rw (pop_oldest, q) refl

module _ {W O : Type 0} where
  -- What a drain changes: the buffer and the flag.
  pub record Drains (n k : ℕ) (e : Inner W O) (r : List MediaPacket × Inner W O) : Type 0 where
    pub accounts : Accounts n (k + length r.0) (r.1).buffer
    pub empty : (r.1).buffer.queue ≡ []
    pub fits : length r.0 ≤ length e.buffer.queue
    pub muxed : (r.1).muxed ≡ e.muxed
    pub config : (r.1).config ≡ e.config

  -- The states behind a packet that is thrown away, and behind one that is kept.
  abbrev pub thrown : Inner W O → List MediaPacket → Inner W O
  thrown e rest = record e { buffer = record_drop (record (e.buffer) { queue = rest }) }

  abbrev pub kept : Inner W O → MediaPacket → List MediaPacket → Inner W O
  kept e p rest = record e {
    buffer = record (e.buffer) { queue = rest };
    awaiting_keyframe = e.awaiting_keyframe && not (is_keyframe p);
  }

  pub drain_loop-empty :
      (fuel : ℕ) (e : Inner W O) → e.buffer.queue ≡ [] → drain_loop (suc fuel) e ≡ ([], e)
  unfolding drain_loop
  drain_loop-empty fuel e q = rw (drain_loop, pop_oldest-none e.buffer q) refl

  pub drain_loop-thrown :
      (fuel : ℕ) (e : Inner W O) (p : MediaPacket) (rest : List MediaPacket)
      → e.buffer.queue ≡ p ∷ rest
      → (e.awaiting_keyframe && is_inter_frame p) ≡ true
      → drain_loop (suc fuel) e ≡ drain_loop fuel (thrown e rest)
  unfolding drain_loop
  drain_loop-thrown fuel e p rest q y =
      rw
        (
          drain_loop,
          pop_oldest-some e.buffer p rest q,
          y,
          ap (λ r. r.1) (pop_oldest-some e.buffer p rest q),
        )
        refl

  pub drain_loop-kept :
      (fuel : ℕ) (e : Inner W O) (p : MediaPacket) (rest : List MediaPacket)
      → e.buffer.queue ≡ p ∷ rest
      → (e.awaiting_keyframe && is_inter_frame p) ≡ false
      → drain_loop (suc fuel) e
        ≡ (p ∷ (drain_loop fuel (kept e p rest)).0, (drain_loop fuel (kept e p rest)).1)
  unfolding drain_loop
  drain_loop-kept fuel e p rest q y =
      rw
        (
          drain_loop,
          pop_oldest-some e.buffer p rest q,
          y,
          ap (λ r. r.1) (pop_oldest-some e.buffer p rest q),
        )
        refl

  thrown-Accounts :
      (n k : ℕ) (e : Inner W O) (p : MediaPacket) (rest : List MediaPacket)
      → e.buffer.queue ≡ p ∷ rest
      → Accounts n k e.buffer
      → Accounts n k (thrown e rest).buffer
  unfolding record_drop
  thrown-Accounts n k e p rest q h = record {
    budget = h.budget;
    room = h.room;
    bound = omega (arith, h.bound, ap length q);
    balance = omega (arith, h.balance, ap length q);
  }

  kept-Accounts :
      (n k : ℕ) (e : Inner W O) (p : MediaPacket) (rest : List MediaPacket)
      → e.buffer.queue ≡ p ∷ rest
      → Accounts n k e.buffer
      → Accounts n (k + 1) (kept e p rest).buffer
  kept-Accounts n k e p rest q h = record {
    budget = h.budget;
    room = h.room;
    bound = omega (arith, h.bound, ap length q);
    balance = omega (arith, h.balance, ap length q);
  }

  thrown-queue : (e : Inner W O) (rest : List MediaPacket) → (thrown e rest).buffer.queue ≡ rest
  unfolding record_drop
  thrown-queue e rest = refl

  Drains-empty :
      (n k : ℕ) (e : Inner W O) → Accounts n k e.buffer → e.buffer.queue ≡ [] → Drains n k e ([], e)
  Drains-empty n k e h q = record {
    accounts = Accounts-eq n k (k + 0) e.buffer (omega arith) h;
    empty = q;
    fits = omega arith;
    muxed = refl;
    config = refl;
  }

  pub drain_loop-Drains :
      (fuel n k : ℕ) (e : Inner W O)
      → Accounts n k e.buffer
      → length e.buffer.queue ≤ fuel
      → Drains n k e (drain_loop fuel e)
  drain_loop-Drains zero n k e h l = elim (List-cases e.buffer.queue) [
    | inl q ↦ unfold drain_loop in Drains-empty n k e h q
    | inr (p, rest, q) ↦ absurd (omega (arith, ap length q))
  ]
  drain_loop-Drains (suc fuel) n k e h l = elim (List-cases e.buffer.queue) [
    | inl q ↦ rw (drain_loop-empty fuel e q) (Drains-empty n k e h q)
    | inr (p, rest, q) ↦ elim (Bool-cases (e.awaiting_keyframe && is_inter_frame p)) [
      | inl y ↦
          let d =
            drain_loop-Drains fuel n k (thrown e rest) (thrown-Accounts n k e p rest q h)
              (omega (arith, ap length q, ap length (thrown-queue e rest))) in
          rw (drain_loop-thrown fuel e p rest q y) (record {
            accounts = d.accounts;
            empty = d.empty;
            fits = omega (arith, d.fits, ap length q, ap length (thrown-queue e rest));
            muxed = d.muxed;
            config = d.config;
          })
      | inr m ↦
          let d =
            drain_loop-Drains fuel n (k + 1) (kept e p rest) (kept-Accounts n k e p rest q h)
              (omega (arith, ap length q)) in
          rw (drain_loop-kept fuel e p rest q m) (record {
            accounts = Accounts-eq n _ _ _ (omega arith) d.accounts;
            empty = d.empty;
            fits = omega (arith, d.fits, ap length q);
            muxed = d.muxed;
            config = d.config;
          })
    ]
  ]

  -- The whole drain, in the order of the decode timestamps.
  pub drain_for_mux-Drains :
      (n k : ℕ) (e : Inner W O) → Accounts n k e.buffer → Drains n k e (drain_for_mux e)
  unfolding drain_for_mux len
  drain_for_mux-Drains n k e h =
      let d = drain_loop-Drains (length e.buffer.queue) n k e h (omega arith) in
      let same = length-sort (drain_loop (length e.buffer.queue) e).0 in
      record {
        accounts = Accounts-eq n _ _ _ (omega (arith, same)) d.accounts;
        empty = d.empty;
        fits = omega (arith, d.fits, same);
        muxed = d.muxed;
        config = d.config;
      }
