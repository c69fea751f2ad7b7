-- ===== src/Examples/Amf0.antt =====
-- Tests and witnesses of the AMF0 codec.
use strym_core.Common.{ℕ, ◌≡◌, refl, arith, true, some, List, [], ◌∷◌, Bytes, map}
use strym_core.Common.Text.{codes}
use strym_core.Rtmp.Amf0.{
  num, bool, str, failed, read_value, read_all, read_val, read_u8, read_marked, read_entry,
  read_u16, read_bytes,
}
use strym_core.Rtmp.Amf0.Writer.{
  Call, value, nothing, fields, metadata, into_bytes, val_of, read_all-into_bytes,
}

-- ASCII texts decode to themselves.
abbrev as_it_is : Bytes → Bytes
as_it_is s = s

abbrev two : ℕ
two = 0x4000_0000_0000_0000

-- A `connect` command as the publisher writes it, and a metadata array.
abbrev commands : List Call
commands =
    value (str (codes "connect"))
    ∷ value (num two)
    ∷ nothing
    ∷ fields ((codes "app", str (codes "live")) ∷ (codes "fpad", bool true) ∷ [])
    ∷ metadata ((codes "width", two) ∷ [])
    ∷ []

read_all-into_bytes_example : read_all as_it_is (into_bytes commands) ≡ some (map val_of commands)
read_all-into_bytes_example = read_all-into_bytes as_it_is commands (
  (omega arith, refl),
  (
    omega arith,
    (
      tt,
      (
        (((omega arith, refl), (omega arith, refl)), (((omega arith, refl), tt), tt)),
        (((((omega arith, refl), omega arith), tt), omega arith), tt),
      ),
    ),
  ),
)

-- An object whose end is missing.
read_value_truncated : read_value as_it_is (3 ∷ 0 ∷ 1 ∷ 97 ∷ 5 ∷ []) ≡ failed
unfolding read_value read_val read_u8 read_marked read_entry read_u16 read_bytes
read_value_truncated = refl
