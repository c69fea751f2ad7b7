-- ===== src/Codecs/H264/Sps.antt =====
-- core/src/codecs/h264.rs: the bit reader, and the picture's dimensions in a sequence parameter set.
-- A read that runs off the end is `none`. The arithmetic is that of a release build: it wraps.
use strym_core.Common.{
  ℕ, zero, suc, ◌+◌, ◌-◌, ◌*◌, ◌/◌, ◌%◌, ◌^◌, Bool, true, false, ◌||◌, Option, none, some, Bytes,
  if◌then◌else◌, ltb, ◌==◌, get_elem?, as_u32, add_u32,
}
use strym_core.Common.Int.{ℤ, pos, sub_ℕ, ◌+ℤ◌, wrap_i32, rem_ℤ, is_zero}
use strym_core.Codecs.H264.{nal_type, sps_type}

pub record BitReader : Type 0 where
  pub bytes : Bytes
  pub at : ℕ

-- `Option` with the reader; the reader is dropped where a read fails.
abbrev pub Read : Type 0 → Type 0
Read A = BitReader → Option (A × BitReader)

infixl 5 ◌>>=◌ ◌>>◌
abbrev pub ◌>>=◌ : {A B : Type 0} → Read A → (A → Read B) → Read B
◌>>=◌ m f r = elim (m r) [ none ↦ none | some (a, r') ↦ f a r' ]

abbrev pub ◌>>◌ : {A B : Type 0} → Read A → Read B → Read B
m >> k = m >>= λ _. k

abbrev pub pure : {A : Type 0} → A → Read A
pure a r = some (a, r)

abbrev pub failed : {A : Type 0} → Read A
failed r = none

unfoldable pub bit : Read ℕ
bit r = elim (get_elem? r.bytes (r.at / 8)) [
  | none ↦ none
  | some byte ↦ some (byte / 2 ^ (7 - r.at % 8) % 2, record r { at = r.at + 1 })
]

-- The loop of `bits`, with the value so far.
unfoldable pub bits_from : ℕ → ℕ → Read ℕ
bits_from zero v = pure v
bits_from (suc n) v = bit >>= λ b. bits_from n (as_u32 (v * 2) + b)

unfoldable pub bits : ℕ → Read ℕ
bits n = bits_from n 0

-- The zeros in front of an Exp-Golomb code, of which `allowed` more are taken.
unfoldable pub leading_zeros : ℕ → ℕ → Read ℕ
leading_zeros zero leading = failed
leading_zeros (suc allowed) leading =
    bit >>= λ b. elim (b == 0) [ true ↦ leading_zeros allowed (leading + 1) | false ↦ pure leading ]

unfoldable pub ue : Read ℕ
ue = leading_zeros 32 0 >>= λ leading.
    if leading == 0 then pure 0 else (bits leading >>= λ suffix. pure (2 ^ leading - 1 + suffix))

unfoldable pub se : Read ℤ
se = ue >>= λ k. let mag = (k + 1) / 2 in pure (if k % 2 == 1 then pos mag else sub_ℕ 0 mag)

abbrev pub is_high_profile : ℕ → Bool
is_high_profile p =
    p == 100
    || (p == 110
        || (p == 122
            || (p == 244 || (p == 44 || (p == 83 || (p == 86 || (p == 118 || p == 128)))))))

-- One scaling list is passed over.
unfoldable pub skip_scaling_list : ℕ → ℤ → ℤ → Read (Unit {0})
skip_scaling_list zero last next = pure tt
skip_scaling_list (suc size) last next =
    (if is_zero next
      then pure next
      else (se >>= λ delta. pure (rem_ℤ (wrap_i32 (last +ℤ delta +ℤ pos 256)) 256)))
    >>= λ next'. skip_scaling_list size (if is_zero next' then last else next') next'

-- The lists from the `i`th on, `n` of them.
unfoldable pub skip_scaling_lists : ℕ → ℕ → Read (Unit {0})
skip_scaling_lists zero i = pure tt
skip_scaling_lists (suc n) i = bit >>= λ present.
    (if present == 1
      then skip_scaling_list (if ltb i 6 then 16 else 64) (pos 8) (pos 8)
      else pure tt)
    >> skip_scaling_lists n (i + 1)

-- The fields of a high profile; the chroma format.
unfoldable pub high_profile_fields : Read ℕ
high_profile_fields = do
  chroma ← ue
  if chroma == 3 then bit else pure 0
  ue
  ue
  bit
  scaling_present ← bit
  if scaling_present == 1 then skip_scaling_lists (if chroma == 3 then 12 else 6) 0 else pure tt
  pure chroma

unfoldable pub skip_se : ℕ → Read (Unit {0})
skip_se zero = pure tt
skip_se (suc n) = se >> skip_se n

unfoldable pub poc_cycle : Read (Unit {0})
poc_cycle = do bit; se; se; cycle ← ue; if ltb 255 cycle then failed else skip_se cycle

unfoldable pub poc_fields : Read (Unit {0})
poc_fields = do
  poc_type ← ue
  if poc_type == 0 then (ue >> pure tt) else if poc_type == 1 then poc_cycle else pure tt

pub record Crop : Type 0 where
  pub left : ℕ
  pub right : ℕ
  pub top : ℕ
  pub bottom : ℕ

abbrev pub no_crop : Crop
no_crop = record { left = 0; right = 0; top = 0; bottom = 0 }

unfoldable pub crop_offsets : Read Crop
crop_offsets = do
  l ← ue
  r ← ue
  t ← ue
  b ← ue
  pure (record { left = l; right = r; top = t; bottom = b })

unfoldable pub crop_fields : Read Crop
crop_fields = do flag ← bit; if flag == 1 then crop_offsets else pure no_crop

abbrev pub sub_u32 : ℕ → ℕ → ℕ
sub_u32 a b = as_u32 (as_u32 a + 2 ^ 32 - as_u32 b)

abbrev pub unit_x : ℕ → ℕ
unit_x chroma = if chroma == 1 then 2 else if chroma == 2 then 2 else 1

abbrev pub unit_y : ℕ → ℕ → ℕ
unit_y chroma frame_mbs_only = if chroma == 1 then 2 * (2 - frame_mbs_only) else 2 - frame_mbs_only

unfoldable pub dimensions : ℕ → ℕ → ℕ → ℕ → Crop → Option (ℕ × ℕ)
dimensions chroma width_mbs height_map_units frame_mbs_only crop =
    let width = sub_u32 (width_mbs * 16) ((crop.left + crop.right) * unit_x chroma) in
    let height =
      sub_u32 ((2 - frame_mbs_only) * height_map_units * 16)
        ((crop.top + crop.bottom) * unit_y chroma frame_mbs_only) in
    if width == 0 || height == 0 then none else some (width, height)

unfoldable pub sps_fields : Read (Option (ℕ × ℕ))
sps_fields = do
  header ← bits 8
  if nal_type header == sps_type then pure tt else failed
  profile ← bits 8
  bits 8
  bits 8
  ue
  chroma ← if is_high_profile profile then high_profile_fields else pure 1
  ue
  poc_fields
  ue
  bit
  width ← ue
  height ← ue
  frame_mbs_only ← bit
  if frame_mbs_only == 0 then (bit >> pure tt) else pure tt
  bit
  crop ← crop_fields
  pure (dimensions chroma (add_u32 width 1) (add_u32 height 1) frame_mbs_only crop)

unfoldable pub parse_sps_dimensions : Bytes → Option (ℕ × ℕ)
parse_sps_dimensions sps = elim (sps_fields (record { bytes = sps; at = 0 })) [
  | none ↦ none
  | some (d, r) ↦ d
]
