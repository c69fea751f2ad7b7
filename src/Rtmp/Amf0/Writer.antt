-- ===== src/Rtmp/Amf0/Writer.antt =====
-- The calls of a `Writer` (core/src/rtmp/amf0.rs) in a row, and `read_all` on what they wrote.
use mathlib.Core.Path.{subst}
use strym_core.Common.{
  ℕ, zero, suc, ◌+◌, ◌*◌, ◌^◌, ◌≤◌, ◌<◌, ◌≡◌, refl, ap, sym, ◌∙◌, arith, none, some, List, [], ◌∷◌,
  ◌++◌, append_assoc, All, map, length, length-append, Bytes, as_u16, as_u32, be16, be32,
}
use strym_core.Rtmp.Amf0.{
  Val, object, null, ObjVal, num, bool, str, done, ◌>>=◌, pure, read_u8, read_u32, read_marked,
  read_entries, read_val, read_value, read_values, read_all, write_null, write_number,
  write_boolean, write_string, raw_string, ecma_entries, ecma_array, write_value, object_entries,
  write_object,
}
use strym_core.Rtmp.Amf0.RoundTrip.{
  Holds, value_of, fields_of, AllHold, numbers, ecma_entries-eq, length-numbers, done-bind,
  be32-read, read_val-write_value, read_entries-write, read_entries-counted,
}

-- One call of a `Writer` that appends a value.
pub data Call : Type 0 where
  value : ObjVal → Call
  nothing : Call
  fields : List (Bytes × ObjVal) → Call
  metadata : List (Bytes × ℕ) → Call

unfoldable pub written : Call → Bytes
written (value v) = write_value v
written nothing = write_null
written (fields es) = write_object es
written (metadata es) = ecma_array es

unfoldable pub into_bytes : List Call → Bytes
into_bytes [] = []
into_bytes (c ∷ calls) = written c ++ into_bytes calls

-- The value that a reader should see.
abbrev pub val_of : Call → Val
val_of (value v) = value_of v
val_of nothing = null
val_of (fields es) = object (fields_of es)
val_of (metadata es) = object (fields_of (numbers es))

length-object_entries : (es : List (Bytes × ObjVal)) → length es + 1 ≤ length (object_entries es)
unfolding object_entries raw_string
length-object_entries [] = omega arith
length-object_entries ((k, v) ∷ es) = omega (
  arith,
  length-object_entries es,
  length-append (be16 (as_u16 (length k)) ++ k) (write_value v ++ object_entries es),
  length-append (be16 (as_u16 (length k))) k,
  length-append (write_value v) (object_entries es),
)

length-written : (c : Call) → 1 ≤ length (written c)
unfolding written write_value write_number write_boolean write_string write_null write_object
    ecma_array
length-written (value (num n)) = omega arith
length-written (value (bool b)) = omega arith
length-written (value (str s)) = omega arith
length-written nothing = omega arith
length-written (fields es) = omega arith
length-written (metadata es) = omega arith

length-ecma :
    (es : List (Bytes × ℕ)) → length (object_entries (numbers es)) ≤ length (ecma_array es)
unfolding ecma_array
length-ecma es =
    let same : length (ecma_entries es) ≡ length (object_entries (numbers es)) =
      ap length (ecma_entries-eq es) in
    omega (arith, same, length-append (be32 (as_u32 (length es))) (ecma_entries es))

module _ (lossy : Bytes → Bytes) where
  -- What the format can hold: texts below 65536 bytes that decode to themselves, doubles of 64 bits,
  -- and a count of 32 bits.
  abbrev pub Fits : Call → Type 0
  Fits (value v) = Holds lossy v
  Fits nothing = Unit {0}
  Fits (fields es) = AllHold lossy es
  Fits (metadata es) = AllHold lossy (numbers es) × (length es < 2 ^ 32)

  read_val-object :
      (fuel : ℕ) (es : List (Bytes × ObjVal)) (b : Bytes)
      → length (object_entries es) ≤ fuel
      → AllHold lossy es
      → read_val lossy (suc fuel) (write_object es ++ b) ≡ done (object (fields_of es)) b
  unfolding write_object read_val read_u8 read_marked
  read_val-object fuel es b l h =
      done-bind (read_entries lossy fuel none) (λ fs. pure (object fs)) (object_entries es ++ b) b
        (fields_of es)
        (read_entries-write lossy fuel es b (omega (arith, length-object_entries es)) h)

  read_val-ecma :
      (fuel : ℕ) (es : List (Bytes × ℕ)) (b : Bytes)
      → length (object_entries (numbers es)) ≤ fuel
      → AllHold lossy (numbers es)
      → length es < 2 ^ 32
      → read_val lossy (suc fuel) (ecma_array es ++ b) ≡ done (object (fields_of (numbers es))) b
  unfolding ecma_array read_val read_u8 read_marked
  read_val-ecma fuel es b l h small =
      let os : List (Bytes × ObjVal) = numbers es in
      let count : length es ≡ length os = sym (length-numbers es) in
      let fits : as_u32 (length os) ≡ length os = omega (arith, count) in
      rw (ecma_entries-eq es, count, fits, append_assoc (be32 (length os)) (object_entries os) b)
        (done-bind read_u32 (λ n. read_entries lossy fuel (some n) >>= λ fs. pure (object fs))
            (be32 (length os) ++ (object_entries os ++ b)) (object_entries os ++ b) (length os)
            (be32-read (length os) (object_entries os ++ b) (omega (arith, count)))
          ∙ done-bind (read_entries lossy fuel (some (length os))) (λ fs. pure (object fs))
              (object_entries os ++ b) b (fields_of os)
              (read_entries-counted lossy fuel os b (omega (arith, length-object_entries os)) h))

  read_val-written :
      (fuel : ℕ) (c : Call) (b : Bytes)
      → length (written c) ≤ fuel
      → Fits c
      → read_val lossy (suc fuel) (written c ++ b) ≡ done (val_of c) b
  unfolding written
  read_val-written fuel (value v) b l h = read_val-write_value lossy fuel v b h
  read_val-written fuel nothing b l h = unfold write_null read_val read_u8 read_marked in refl
  read_val-written fuel (fields es) b l h =
      read_val-object fuel es b (unfold write_object in omega arith) h
  read_val-written fuel (metadata es) b l h =
      read_val-ecma fuel es b (omega (arith, length-ecma es)) h.0 h.1

  read_value-written :
      (c : Call) (b : Bytes) → Fits c → read_value lossy (written c ++ b) ≡ done (val_of c) b
  unfolding read_value
  read_value-written c b h =
      let n : ℕ = length (written c ++ b) in
      subst (λ fuel. read_val lossy fuel (written c ++ b) ≡ done (val_of c) b) (omega arith)
        (read_val-written (2 * n + 1) c b (omega (arith, length-append (written c) b)) h)

  read_values-into_bytes :
      (fuel : ℕ) (calls : List Call)
      → length (into_bytes calls) < fuel
      → All Fits calls
      → read_values lossy fuel (into_bytes calls) ≡ some (map val_of calls)
  unfolding into_bytes read_values
  read_values-into_bytes zero calls l h = absurd (omega arith)
  read_values-into_bytes (suc fuel) [] l h = unfold read_values read_value read_val read_u8 in refl
  read_values-into_bytes (suc fuel) (c ∷ calls) l (hc, hs) =
      let more =
        read_values-into_bytes fuel calls
          (omega (arith, length-written c, length-append (written c) (into_bytes calls))) hs in
      rw (read_values, read_value-written c (into_bytes calls) hc, more) refl

  -- `read_all` on the bytes of a `Writer` gives back the values that were written, in order, where each
  -- text is shorter than 65536 bytes and decodes to itself, each double is a pattern of 64 bits, and
  -- an ECMA array has fewer than 2 ^ 32 fields. An ECMA array is read as an object.
  pub read_all-into_bytes :
      (calls : List Call)
      → All Fits calls
      → read_all lossy (into_bytes calls) ≡ some (map val_of calls)
  unfolding read_all
  read_all-into_bytes calls h =
      read_values-into_bytes (length (into_bytes calls) + 1) calls (omega arith) h
