-- ===== src/Rtmp/Amf0/RoundTrip.antt =====
-- What the writer wrote is read back.
use strym_core.Common.{
  ℕ, zero, suc, ◌+◌, ◌-◌, ◌^◌, ◌≤◌, ◌<◌, ◌≡◌, refl, ap, ◌∙◌, arith, true, false, none, some, List,
  [], ◌∷◌, ◌++◌, append_assoc, All, le→leb, ◌==◌, length, length-append, take-append, drop-append,
  Bytes, as_u16, be16, be32, be64, from_be16-be16, from_be32-be32,
}
use strym_core.Rtmp.Amf0.{
  Val, number, boolean, string, Fields, end, field, ObjVal, num, bool, str, done, Read, ◌>>=◌, pure,
  read_u8, read_u16, read_u32, read_f64, read_bytes, read_utf8, skip_marker, read_entry,
  read_marked, read_entries, read_val, write_number, write_boolean, write_string, raw_string,
  ecma_entries, write_value, object_entries, end_marker,
}

be16-read : (n : ℕ) (b : Bytes) → n < 65536 → read_u16 (be16 n ++ b) ≡ done n b
unfolding read_u16
be16-read n b h = ap (λ m. done m b) (from_be16-be16 n h)

pub be32-read : (n : ℕ) (b : Bytes) → n < 2 ^ 32 → read_u32 (be32 n ++ b) ≡ done n b
unfolding read_u32
be32-read n b h = ap (λ m. done m b) (from_be32-be32 n h)

be64-read : (n : ℕ) (b : Bytes) → n < 2 ^ 64 → read_f64 (be64 n ++ b) ≡ done n b
unfolding read_f64
be64-read n b h = ap (λ m. done m b) (omega arith)

read_bytes-append : (s b : Bytes) → read_bytes (length s) (s ++ b) ≡ done s b
unfolding read_bytes
read_bytes-append s b = rw (
  le→leb (length s) (length (s ++ b)) (omega (arith, length-append s b)),
  take-append s b,
  drop-append s b,
)

pub done-bind :
    {A B : Type 0} (m : Read A) (f : A → Read B) (b rest : Bytes) (a : A)
    → m b ≡ done a rest
    → (m >>= f) b ≡ f a rest
done-bind m f b rest a e = ap (λ o. ((λ c. o) >>= f) b) e

-- The length of a text, and the text.
raw_string-read :
    {B : Type 0} (s b : Bytes) (f : Bytes → Read B)
    → length s < 65536
    → (read_u16 >>= λ len. read_bytes len >>= f) (raw_string s ++ b) ≡ f s b
unfolding raw_string
raw_string-read s b f h =
    let e : as_u16 (length s) ≡ length s = omega arith in
    rw (e, append_assoc (be16 (length s)) s b)
      (done-bind read_u16 (λ len. read_bytes len >>= f) _ (s ++ b) (length s)
          (be16-read (length s) (s ++ b) h)
        ∙ done-bind (read_bytes (length s)) f (s ++ b) b s (read_bytes-append s b))

abbrev pub value_of : ObjVal → Val
value_of (num n) = number n
value_of (bool b) = boolean b
value_of (str s) = string s

abbrev pub fields_of : List (Bytes × ObjVal) → Fields
fields_of [] = end
fields_of ((k, v) ∷ entries) = field k (value_of v) (fields_of entries)

abbrev pub numbers : List (Bytes × ℕ) → List (Bytes × ObjVal)
numbers [] = []
numbers ((k, n) ∷ entries) = (k, num n) ∷ numbers entries

pub ecma_entries-eq :
    (entries : List (Bytes × ℕ)) → ecma_entries entries ≡ object_entries (numbers entries)
unfolding ecma_entries object_entries write_value
ecma_entries-eq [] = refl
ecma_entries-eq ((k, n) ∷ entries) = rw (ecma_entries-eq entries)

pub length-numbers : (entries : List (Bytes × ℕ)) → length (numbers entries) ≡ length entries
length-numbers [] = refl
length-numbers ((k, n) ∷ entries) = ap suc (length-numbers entries)

module _ (lossy : Bytes → Bytes) where
  -- A text that the decoding of UTF-8 leaves as it is, and that the format can hold.
  abbrev pub IsText : Bytes → Type 0
  IsText s = (length s < 65536) × (lossy s ≡ s)

  abbrev pub Holds : ObjVal → Type 0
  Holds (num n) = n < 2 ^ 64
  Holds (bool b) = Unit {0}
  Holds (str s) = IsText s

  read_utf8-raw_string : (s b : Bytes) → IsText s → read_utf8 lossy (raw_string s ++ b) ≡ done s b
  unfolding read_utf8
  read_utf8-raw_string s b h =
      raw_string-read s b (λ t. pure (lossy t)) h.0 ∙ ap (λ t. done t b) h.1

  pub read_val-write_value :
      (fuel : ℕ) (v : ObjVal) (b : Bytes)
      → Holds v
      → read_val lossy (suc fuel) (write_value v ++ b) ≡ done (value_of v) b
  unfolding read_val write_value write_number write_boolean write_string read_u8 read_marked
  read_val-write_value fuel (num n) b h =
      done-bind read_f64 (λ m. pure (number m)) (be64 n ++ b) b n (be64-read n b h)
  read_val-write_value fuel (bool true) b h = refl
  read_val-write_value fuel (bool false) b h = refl
  read_val-write_value fuel (str s) b h =
      done-bind (read_utf8 lossy) (λ t. pure (string t)) (raw_string s ++ b) b s
        (read_utf8-raw_string s b h)

  -- What an entry does behind its key.
  abbrev behind : Read Val → Read Fields → Bytes → Read Fields
  behind value more k = value >>= λ v. more >>= λ fs. pure (field k v fs)

  read_entry-empty :
      (value : Read Val) (more : Read Fields) (v : ObjVal) (b : Bytes)
      → read_entry lossy value more (raw_string [] ++ (write_value v ++ b))
        ≡ behind value more [] (write_value v ++ b)
  unfolding read_entry raw_string read_u16 write_value write_number write_boolean write_string
  read_entry-empty value more (num n) b = ground arith
  read_entry-empty value more (bool t) b = ground arith
  read_entry-empty value more (str s) b = ground arith

  read_entry-key :
      (value : Read Val) (more : Read Fields) (k b : Bytes)
      → IsText k
      → (length k == 0) ≡ false
      → read_entry lossy value more (raw_string k ++ b) ≡ behind value more k b
  unfolding read_entry raw_string
  read_entry-key value more k b h e =
      let w : as_u16 (length k) ≡ length k = omega arith in
      rw (w, append_assoc (be16 (length k)) k b)
        (done-bind read_u16 _ _ (k ++ b) (length k) (be16-read (length k) (k ++ b) h.0)
          ∙ rw e (
              done-bind (read_bytes (length k)) _ (k ++ b) b k (read_bytes-append k b)
              ∙ ap (λ t. behind value more t b) h.1))

  read_entry-write :
      (value : Read Val) (more : Read Fields) (k : Bytes) (v : ObjVal) (b : Bytes)
      → IsText k
      → read_entry lossy value more (raw_string k ++ (write_value v ++ b))
        ≡ behind value more k (write_value v ++ b)
  read_entry-write value more [] v b h = read_entry-empty value more v b
  read_entry-write value more (x ∷ k) v b h =
      read_entry-key value more (x ∷ k) (write_value v ++ b) h (ground arith)

  abbrev pub AllHold : List (Bytes × ObjVal) → Type 0
  AllHold = All (λ e. IsText e.0 × Holds e.1)

  behind-write :
      (fuel : ℕ) (more : Read Fields) (k : Bytes) (v : ObjVal) (fs : Fields) (b rest : Bytes)
      → Holds v
      → more b ≡ done fs rest
      → behind (read_val lossy (suc fuel)) more k (write_value v ++ b)
        ≡ done (field k (value_of v) fs) rest
  behind-write fuel more k v fs b rest h e =
      done-bind (read_val lossy (suc fuel)) _ (write_value v ++ b) b (value_of v)
        (read_val-write_value fuel v b h)
      ∙ done-bind more _ b rest fs e

  read_entry-end :
      (value : Read Val) (more : Read Fields) (b : Bytes)
      → read_entry lossy value more (end_marker ++ b) ≡ done end b
  unfolding read_entry read_u16
  read_entry-end value more b = ground arith

  pub read_entries-write :
      (fuel : ℕ) (entries : List (Bytes × ObjVal)) (b : Bytes)
      → length entries + 1 ≤ fuel
      → AllHold entries
      → read_entries lossy fuel none (object_entries entries ++ b) ≡ done (fields_of entries) b
  unfolding read_entries object_entries
  read_entries-write zero entries b l h = absurd (omega arith)
  read_entries-write (suc fuel) [] b l h =
      read_entry-end (read_val lossy fuel) (read_entries lossy fuel none) b
  read_entries-write (suc zero) ((k, v) ∷ entries) b l h = absurd (omega arith)
  read_entries-write (suc (suc fuel)) ((k, v) ∷ entries) b l ((hk, hv), hs) =
      rw
        (
          append_assoc (raw_string k) (write_value v ++ object_entries entries) b,
          append_assoc (write_value v) (object_entries entries) b,
        )
        (read_entry-write (read_val lossy (suc fuel)) (read_entries lossy (suc fuel) none) k v
            (object_entries entries ++ b) hk
          ∙ behind-write fuel (read_entries lossy (suc fuel) none) k v (fields_of entries) _ b hv
              (read_entries-write (suc fuel) entries b (omega arith) hs))

  -- The same with the number of entries known.
  pub read_entries-counted :
      (fuel : ℕ) (entries : List (Bytes × ObjVal)) (b : Bytes)
      → length entries + 1 ≤ fuel
      → AllHold entries
      → read_entries lossy fuel (some (length entries)) (object_entries entries ++ b)
        ≡ done (fields_of entries) b
  unfolding read_entries object_entries
  read_entries-counted zero entries b l h = absurd (omega arith)
  read_entries-counted (suc fuel) [] b l h = unfold skip_marker read_u16 in refl
  read_entries-counted (suc zero) ((k, v) ∷ entries) b l h = absurd (omega arith)
  read_entries-counted (suc (suc fuel)) ((k, v) ∷ entries) b l ((hk, hv), hs) =
      let less : suc (length entries) - 1 ≡ length entries = omega arith in
      let more_left : (suc (length entries) == 0) ≡ false = ground arith in
      rw
        (
          more_left,
          less,
          append_assoc (raw_string k) (write_value v ++ object_entries entries) b,
          append_assoc (write_value v) (object_entries entries) b,
        )
        (read_entry-write (read_val lossy (suc fuel))
            (read_entries lossy (suc fuel) (some (length entries))) k v
            (object_entries entries ++ b) hk
          ∙ behind-write fuel (read_entries lossy (suc fuel) (some (length entries))) k v
              (fields_of entries) _ b hv
              (read_entries-counted (suc fuel) entries b (omega arith) hs))
