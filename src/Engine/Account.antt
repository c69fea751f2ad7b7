-- ===== src/Engine/Account.antt =====
-- Where the packets of the engine's buffer are: held, dropped, or taken out of it.
use strym_core.Common.{
  ℕ, ◌+◌, ◌%◌, ◌^◌, ◌≤◌, ◌≡◌, ap, Bool, List, [], ◌∷◌, arith, length, length-append, length-drop,
  drop, Option-cases, inl, inr, add_u64,
}
use strym_core.Models.{MediaPacket}
use strym_core.Backpressure.{
  BoundedBuffer, push, restore_front, rposition, resync_keep_latest_keyframe,
}
use strym_core.Backpressure.Bounds.{restore_front-queue, restore_front_counters}
use strym_core.Backpressure.Resync.{rposition-lt}
use strym_core.Engine.{push_each}

-- `out` packets have left the buffer; the counters are u64.
pub record Accounts (cap out : ℕ) (b : BoundedBuffer MediaPacket) : Type 0 where
  pub budget : b.capacity ≡ cap
  pub room : 1 ≤ b.capacity
  pub bound : length b.queue ≤ b.capacity
  pub balance : b.pushed % 2 ^ 64 ≡ (length b.queue + b.dropped + out) % 2 ^ 64

pub push-Accounts :
    (n k : ℕ) (b : BoundedBuffer MediaPacket) (p : MediaPacket)
    → Accounts n k b
    → Accounts n k (push b p)
unfolding push
push-Accounts n k b p h = record {
  budget = ground arith;
  room = ground arith;
  bound = ground (
    arith,
    length-append (drop 1 b.queue) (p ∷ []),
    length-append b.queue (p ∷ []),
    length-drop 1 b.queue,
  );
  balance = ground (
    arith,
    length-append (drop 1 b.queue) (p ∷ []),
    length-append b.queue (p ∷ []),
    length-drop 1 b.queue,
  );
}

pub push_each-Accounts :
    (n k : ℕ) (ps : List MediaPacket) (b : BoundedBuffer MediaPacket)
    → Accounts n k b
    → Accounts n k (push_each ps b)
unfolding push_each
push_each-Accounts n k [] b h = h
push_each-Accounts n k (p ∷ ps) b h = push_each-Accounts n k ps (push b p) (push-Accounts n k b p h)

pub resync-Accounts :
    (is_key : MediaPacket → Bool) (n k : ℕ) (b : BoundedBuffer MediaPacket)
    → Accounts n k b
    → Accounts n k (resync_keep_latest_keyframe is_key b).0
unfolding resync_keep_latest_keyframe
resync-Accounts is_key n k b h = elim (Option-cases (rposition is_key b.queue)) [
  | inl e ↦ rw (e, resync_keep_latest_keyframe) h
  | inr (i, e) ↦
      rw (e, resync_keep_latest_keyframe)
        (record {
          budget = h.budget;
          room = h.room;
          bound = omega (arith, length-drop i b.queue, h.bound);
          balance =
              omega (arith, rposition-lt is_key b.queue i e, length-drop i b.queue, h.balance);
        })
]

pub restore-Accounts :
    (n k : ℕ) (b : BoundedBuffer MediaPacket) (ps : List MediaPacket)
    → Accounts n (k + length ps) b
    → length b.queue + length ps ≤ b.capacity
    → Accounts n k (restore_front b ps)
restore-Accounts n k b ps h l =
    let (pu, dr, ca) = restore_front_counters b ps in
    record {
      budget = omega (arith, ca, h.budget);
      room = omega (arith, ca, h.room);
      bound = omega (arith, ca, ap length (restore_front-queue b ps), length-append ps b.queue);
      balance = omega (
        arith,
        pu,
        dr,
        ap length (restore_front-queue b ps),
        length-append ps b.queue,
        h.balance,
      );
    }

pub Accounts-eq :
    (n k m : ℕ) (b : BoundedBuffer MediaPacket) → k ≡ m → Accounts n k b → Accounts n m b
Accounts-eq n k m b e h = record {
  budget = h.budget;
  room = h.room;
  bound = h.bound;
  balance = omega (arith, h.balance);
}

pub Accounts-add_u64 :
    (n k m : ℕ) (b : BoundedBuffer MediaPacket) → Accounts n (k + m) b → Accounts n (add_u64 k m) b
Accounts-add_u64 n k m b h = record {
  budget = h.budget;
  room = h.room;
  bound = h.bound;
  balance = omega (arith, h.balance);
}
