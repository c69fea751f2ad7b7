-- ===== src/Rtmp/Chunks/Pieces.antt =====
-- The payload of a framed message, read back piece by piece.
use strym_core.Common.{
  Bool-cases, inl, inr, leb→le, ℕ, zero, suc, ◌+◌, ◌%◌, ◌^◌, ◌≤◌, ◌<◌, ◌≡◌, refl, ap, ◌∙◌, Option,
  none, some, [], ◌∷◌, ◌++◌, append_assoc, leb, arith, length, take, drop, take-append-drop,
  take_all, drop_all, length-append, length-take, length-drop, Bytes,
}
use strym_core.Common.Result.{Result, ok}
use strym_core.Io.{IoError}
use strym_core.Rtmp.Chunks.{
  Message, ChunkState, Reading, read_payload, read_chunk, read_messages_loop, continuations,
}
use strym_core.Rtmp.Chunks.Rounds.{left, read_chunk-left, loop-message, loop-none}
use strym_core.Rtmp.Chunks.Slots.{Holds}
use strym_core.Rtmp.Chunks.Frames.{read_payload-Step, continuation}

-- The message comes out, and the stream is behind it.
pub record Delivers (n : ℕ) (msg : Message) (tail : Bytes)
    (r : Option (Result IoError Message × Reading)) : Type 0 where
  pub behind : Reading
  pub result : r ≡ some (ok msg, behind)
  pub next : behind.sock.bytes ≡ tail
  pub size : behind.reader.read_chunk_size ≡ n

-- The last piece.
last_piece :
    (cid n fuel : ℕ) (st : ChunkState) (a tail : Bytes) (s t : Reading)
    → 0 < length a
    → length a ≤ n
    → length st.payload + length a ≡ st.length
    → st.length < 2 ^ 24
    → read_chunk s ≡ read_payload cid st t
    → Holds cid n st (a ++ tail) t
    → Delivers n
        (record { mtype = st.mtype; ts = st.ts; payload = st.payload ++ a })
        tail
        (read_messages_loop (suc fuel) s)
last_piece cid n fuel st a tail s t p l e w q h =
    let (gives, holds) = (read_payload-Step cid n st a tail t h p (omega arith) w).done e in
    record {
      behind = (read_payload cid st t).1;
      result =
          loop-message fuel s _ (ap (λ r. r.0) q ∙ gives)
          ∙ ap
              (λ r.
                some (ok (record { mtype = st.mtype; ts = st.ts; payload = st.payload ++ a }), r.1))
              q;
      next = holds.next;
      size = holds.size;
    }

continuations-suc :
    (count cid n : ℕ) (rest : Bytes)
    → 0 < length rest
    → continuations (suc count) cid n rest
      ≡ (192 + cid % 64) ∷ take n rest ++ continuations count cid n (drop n rest)
unfolding continuations
continuations-suc count cid n [] h = absurd (omega arith)
continuations-suc count cid n (b ∷ rest) h = refl

pub continuations-nil : (count cid n : ℕ) → continuations count cid n [] ≡ []
unfolding continuations
continuations-nil zero cid n = refl
continuations-nil (suc count) cid n = refl

-- A piece that is not the last, and the header of the next.
inner_piece :
    (count cid n fuel : ℕ) (st : ChunkState) (rest tail : Bytes) (s t : Reading)
    → 2 ≤ cid
    → cid < 64
    → 0 < n
    → st.length < 2 ^ 24
    → n < length rest
    → length st.payload + length rest ≡ st.length
    → read_chunk s ≡ read_payload cid st t
    → Holds cid n st (take n rest ++ (continuations (suc count) cid n (drop n rest) ++ tail)) t
    → ((read_chunk s).0 ≡ ok none)
      × ((t' : Reading) × Holds cid n
            (record st { payload = st.payload ++ take n rest })
            (take n (drop n rest) ++ (continuations count cid n (drop n (drop n rest)) ++ tail))
            t'
          × (read_chunk (read_chunk s).1
              ≡ read_payload cid (record st { payload = st.payload ++ take n rest }) t'))
inner_piece count cid n fuel st rest tail s t l h p w z e q k =
    let (gives, holds) =
      (read_payload-Step cid n st (take n rest) _ t k (omega (arith, length-take n rest))
          (omega (arith, length-take n rest)) w).more
        (omega (arith, length-take n rest)) in
    (
      ap (λ r. r.0) q ∙ gives,
      rw q (
          continuation cid n _ _ (read_payload cid st t).1 l h (
            rw
              (
                continuations-suc count cid n (drop n rest) (omega (arith, length-drop n rest)),
                append_assoc,
              )
              at holds)),
    )

-- The only piece that is left, with no continuation behind it.
only_piece :
    (count cid n fuel : ℕ) (st : ChunkState) (rest tail : Bytes) (s t : Reading)
    → 0 < length rest
    → length rest ≤ n
    → length st.payload + length rest ≡ st.length
    → st.length < 2 ^ 24
    → read_chunk s ≡ read_payload cid st t
    → Holds cid n st (take n rest ++ (continuations count cid n (drop n rest) ++ tail)) t
    → Delivers n
        (record { mtype = st.mtype; ts = st.ts; payload = st.payload ++ rest })
        tail
        (read_messages_loop (suc fuel) s)
only_piece count cid n fuel st rest tail s t z c e w q k =
    last_piece cid n fuel st rest tail s t z c e w q
      (rw (take_all n rest c, drop_all n rest c, continuations-nil count cid n) at k)

-- The message from its first piece on, when the rest is cut by continuations.
pub pieces :
    (count cid n fuel : ℕ) (st : ChunkState) (rest tail : Bytes) (s t : Reading)
    → 2 ≤ cid
    → cid < 64
    → 0 < n
    → st.length < 2 ^ 24
    → 0 < length rest
    → length rest ≤ n + count
    → length st.payload + length rest ≡ st.length
    → left s < fuel
    → read_chunk s ≡ read_payload cid st t
    → Holds cid n st (take n rest ++ (continuations count cid n (drop n rest) ++ tail)) t
    → Delivers n
        (record { mtype = st.mtype; ts = st.ts; payload = st.payload ++ rest })
        tail
        (read_messages_loop fuel s)
pieces count cid n zero st rest tail s t l h p w z c e f q k = absurd (omega arith)
pieces zero cid n (suc fuel) st rest tail s t l h p w z c e f q k =
    only_piece zero cid n fuel st rest tail s t z (omega arith) e w q k
pieces (suc count) cid n (suc fuel) st rest tail s t l h p w z c e f q k =
    elim (Bool-cases (leb (length rest) n)) [
      | inl y ↦ only_piece (suc count) cid n fuel st rest tail s t z (leb→le _ _ y) e w q k
      | inr m ↦
          (let (none_yet, (t', holds, round)) =
              inner_piece count cid n fuel st rest tail s t l h p w (ground arith) e q k in
            rw (loop-none fuel s none_yet) (
              rw (append_assoc, take-append-drop n rest) at
                (pieces count cid n fuel (record st { payload = st.payload ++ take n rest })
                  (drop n rest) tail (read_chunk s).1 t' l h p w
                  (ground (arith, length-drop n rest)) (omega (arith, length-drop n rest))
                  (ground (
                    arith,
                    length-append st.payload (take n rest),
                    length-take n rest,
                    length-drop n rest,
                  ))
                  (omega (arith, read_chunk-left s none none_yet)) round holds)))
    ]
