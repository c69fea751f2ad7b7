-- ===== src/Rtmp/Amf0.antt =====
-- core/src/rtmp/amf0.rs: AMF0 values, written and read. A `Writer` is its buffer, and a `Reader` the
-- bytes from its position on; where a read fails its position is left out. A double is its 64-bit
-- pattern, a string its bytes. `lossy` stands for `String::from_utf8_lossy` of the language's library.
pub mod Total
pub mod RoundTrip
pub mod Writer
use strym_core.Common.{
  ℕ, zero, suc, ◌+◌, ◌-◌, ◌*◌, ◌/◌, ◌%◌, ◌^◌, Bool, true, false, ◌&&◌, not, Option, none, some,
  List, [], ◌∷◌, ◌++◌, if◌then◌else◌, leb, ltb, ◌==◌, length, get_or, take, drop, Bytes, as_u16,
  as_u32, be16, be32, be64, from_be16, from_be32,
}

mutual
  pub data Val : Type 0 where
    number : ℕ → Val
    boolean : Bool → Val
    string : Bytes → Val
    object : Fields → Val
    array : Items → Val
    null undefined : Val

  -- A field list.
  pub data Fields : Type 0 where
    end : Fields
    field : Bytes → Val → Fields → Fields

  pub data Items : Type 0 where
    nil : Items
    cons : Val → Items → Items

pub data ObjVal : Type 0 where
  num : ℕ → ObjVal
  bool : Bool → ObjVal
  str : Bytes → ObjVal

abbrev pub type_number : ℕ
type_number = 0

abbrev pub type_boolean : ℕ
type_boolean = 1

abbrev pub type_string : ℕ
type_string = 2

abbrev pub type_object : ℕ
type_object = 3

abbrev pub type_null : ℕ
type_null = 5

abbrev pub type_undefined : ℕ
type_undefined = 6

abbrev pub type_ecma_array : ℕ
type_ecma_array = 8

abbrev pub type_object_end : ℕ
type_object_end = 9

-- What each method of `Writer` appends.
unfoldable pub write_number : ℕ → Bytes
write_number n = type_number ∷ be64 n

unfoldable pub write_boolean : Bool → Bytes
write_boolean b = type_boolean ∷ (if b then 1 else 0) ∷ []

unfoldable pub raw_string : Bytes → Bytes
raw_string s = be16 (as_u16 (length s)) ++ s

unfoldable pub write_string : Bytes → Bytes
write_string s = type_string ∷ raw_string s

unfoldable pub write_null : Bytes
write_null = type_null ∷ []

abbrev pub end_marker : Bytes
end_marker = 0 ∷ 0 ∷ type_object_end ∷ []

unfoldable pub ecma_entries : List (Bytes × ℕ) → Bytes
ecma_entries [] = end_marker
ecma_entries ((k, v) ∷ entries) = raw_string k ++ (write_number v ++ ecma_entries entries)

unfoldable pub ecma_array : List (Bytes × ℕ) → Bytes
ecma_array entries = type_ecma_array ∷ be32 (as_u32 (length entries)) ++ ecma_entries entries

unfoldable pub write_value : ObjVal → Bytes
write_value (num n) = write_number n
write_value (bool b) = write_boolean b
write_value (str s) = write_string s

unfoldable pub object_entries : List (Bytes × ObjVal) → Bytes
object_entries [] = end_marker
object_entries ((k, v) ∷ entries) = raw_string k ++ (write_value v ++ object_entries entries)

unfoldable pub write_object : List (Bytes × ObjVal) → Bytes
write_object entries = type_object ∷ object_entries entries

-- `stuck` says that the fuel ran out.
pub data Outcome (A : Type 0) : Type 0 where
  done : A → Bytes → Outcome A
  failed stuck : Outcome A

abbrev pub Read : Type 0 → Type 0
Read A = Bytes → Outcome A

infixl 5 ◌>>=◌ ◌>>◌
abbrev pub ◌>>=◌ : {A B : Type 0} → Read A → (A → Read B) → Read B
◌>>=◌ m f b = elim (m b) [ done a rest ↦ f a rest | failed ↦ failed | stuck ↦ stuck ]

abbrev pub ◌>>◌ : {A B : Type 0} → Read A → Read B → Read B
m >> k = m >>= λ _. k

abbrev pub pure : {A : Type 0} → A → Read A
pure a b = done a b

abbrev pub fail : {A : Type 0} → Read A
fail b = failed

unfoldable pub read_u8 : Read ℕ
read_u8 [] = failed
read_u8 (x ∷ rest) = done x rest

unfoldable pub read_u16 : Read ℕ
read_u16 (a ∷ b ∷ rest) = done (from_be16 a b) rest
read_u16 _ = failed

-- `u32::from_be_bytes` of four reads.
unfoldable pub read_u32 : Read ℕ
read_u32 (a ∷ b ∷ c ∷ d ∷ rest) = done (from_be32 a b c d) rest
read_u32 _ = failed

unfoldable pub read_f64 : Read ℕ
read_f64 (a ∷ b ∷ c ∷ d ∷ e ∷ f ∷ g ∷ h ∷ rest) =
    done (from_be32 a b c d * 4294967296 + from_be32 e f g h) rest
read_f64 _ = failed

-- `get(pos..pos + len)`.
unfoldable pub read_bytes : ℕ → Read Bytes
read_bytes len b = if leb len (length b) then done (take len b) (drop len b) else failed

unfoldable pub skip_utf8 : Read (Unit {0})
skip_utf8 = read_u16 >>= λ len. read_bytes len >>= λ _. pure tt

-- The marker behind a counted list; its last byte may be missing.
unfoldable pub skip_marker : Read (Unit {0})
skip_marker = read_u16 >>= λ _. λ b. done tt (drop 1 b)

abbrev pub is_done : Option ℕ → Bool
is_done none = false
is_done (some n) = n == 0

-- One less to come, where the number of entries is known.
abbrev pub one_less : Option ℕ → Option ℕ
one_less none = none
one_less (some n) = some (n - 1)

module _ (lossy : Bytes → Bytes) where
  unfoldable pub read_utf8 : Read Bytes
  read_utf8 = read_u16 >>= λ len. read_bytes len >>= λ s. pure (lossy s)

  -- The call for the value is `value`, and that for the entries behind it is `more`.
  unfoldable pub read_entry : Read Val → Read Fields → Read Fields
  read_entry value more = read_u16 >>= λ keylen.
      if keylen == 0
      then (λ b.
          if not (leb 1 (length b))
          then failed
          else if get_or b 0 0 == type_object_end
          then done end (drop 1 b)
          else (value >>= λ v. more >>= λ fs. pure (field [] v fs)) b)
      else (read_bytes keylen >>= λ raw.
          value >>= λ v. more >>= λ fs. pure (field (lossy raw) v fs))

  -- What a marker announces; `entries` reads the entries of an object or of a counted list.
  unfoldable pub read_marked : (Option ℕ → Read Fields) → ℕ → Read Val
  read_marked entries marker =
      if marker == type_number
      then (read_f64 >>= λ n. pure (number n))
      else if marker == type_boolean
      then (read_u8 >>= λ b. pure (boolean (not (b == 0))))
      else if marker == type_string
      then (read_utf8 >>= λ s. pure (string s))
      else if marker == type_object
      then (entries none >>= λ fs. pure (object fs))
      else if marker == type_ecma_array
      then (read_u32 >>= λ count. entries (some count) >>= λ fs. pure (object fs))
      else if marker == type_null
      then pure null
      else if marker == type_undefined
      then pure undefined
      else fail

  unfoldable mutual
    pub read_entries : ℕ → Option ℕ → Read Fields
    read_entries zero count b = stuck
    read_entries (suc fuel) count b =
        let entry = read_entry (read_val fuel) (read_entries fuel (one_less count)) b in
        let marker = (skip_marker >>= λ _. pure end) b in if is_done count then marker else entry

    pub read_val : ℕ → Read Val
    read_val zero b = stuck
    read_val (suc fuel) b = (read_u8 >>= read_marked (read_entries fuel)) b

  unfoldable pub read_value : Read Val
  read_value b = read_val (2 * length b + 2) b

  -- The loop of `read_all`; a value takes a byte at least.
  unfoldable pub read_values : ℕ → Bytes → Option (List Val)
  read_values zero b = none
  read_values (suc fuel) b = elim (read_value b) [
    | stuck ↦ none
    | failed ↦ some []
    | done v rest ↦ elim (read_values fuel rest) [ none ↦ none | some vs ↦ some (v ∷ vs) ]
  ]

  unfoldable pub read_all : Bytes → Option (List Val)
  read_all b = read_values (length b + 1) b
