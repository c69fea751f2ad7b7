-- ===== src/Hls/Mp4.antt =====
-- core/src/hls/mp4.rs: the boxes of a fragmented MP4. A function that appends to a buffer is the
-- bytes that it appends.
pub mod Init
pub mod Boxes
pub mod Offsets
pub mod Segment
pub mod Reader
pub mod Avcc
use strym_core.Common.{
  ℕ, zero, suc, ◌+◌, ◌-◌, ◌*◌, ◌/◌, ◌%◌, ◌^◌, Bool, true, false, List, [], ◌∷◌, ◌++◌, ◌&&◌, not,
  if◌then◌else◌, leb, ltb, ◌==◌, length, get_or, take, drop, Bytes, as_u8, as_u16, as_u32, be16,
  be24, be32, be64, from_be32,
}
use strym_core.Common.Int.{ℤ, pos, negsuc}
use strym_core.Common.Text.{codes}

abbrev pub video_timescale : ℕ
video_timescale = 90000

abbrev pub video_track_id : ℕ
video_track_id = 1

abbrev pub audio_track_id : ℕ
audio_track_id = 2

unfoldable pub mp4_box : Bytes → Bytes → Bytes
mp4_box tag payload = be32 (as_u32 (8 + length payload)) ++ (tag ++ payload)

unfoldable pub full_box : Bytes → ℕ → ℕ → Bytes → Bytes
full_box tag version flags payload = mp4_box tag (version ∷ be24 flags ++ payload)

-- `sample_depends_on` and the sync bit.
unfoldable pub sample_flags : ℕ → Bool → ℕ
sample_flags depends_on is_sync = depends_on % 4 * 2 ^ 24 + (if is_sync then 0 else 2 ^ 16)

pub record FragmentSample : Type 0 where
  pub duration : ℕ
  pub payload : Bytes
  pub flags : ℕ
  pub composition_offset : ℤ

pub record Fragment : Type 0 where
  pub track_id : ℕ
  pub base_decode_time : ℕ
  pub samples : List FragmentSample

abbrev pub trun_flags : ℕ
trun_flags = 0xf01

abbrev pub tfhd_flags : ℕ
tfhd_flags = 0x2_0000

-- The 32-bit pattern of an i32.
abbrev pub word32 : ℤ → ℕ
word32 (pos n) = n % 2 ^ 32
word32 (negsuc n) = 2 ^ 32 - 1 - n % 2 ^ 32

unfoldable pub sample_entries : List FragmentSample → Bytes
sample_entries [] = []
sample_entries (s ∷ samples) =
    be32 s.duration
    ++ (be32 (as_u32 (length s.payload))
        ++ (be32 s.flags ++ (be32 (word32 s.composition_offset) ++ sample_entries samples)))

-- The `trun` box, with the data offset it is built with.
unfoldable pub trun : ℕ → Fragment → Bytes
trun offset frag =
    full_box (codes "trun") 1 trun_flags
      (be32 (as_u32 (length frag.samples)) ++ (be32 offset ++ sample_entries frag.samples))

unfoldable pub traf : ℕ → Fragment → Bytes
traf offset frag = mp4_box (codes "traf") (
    full_box (codes "tfhd") 0 tfhd_flags (be32 frag.track_id)
    ++ (full_box (codes "tfdt") 1 0 (be64 frag.base_decode_time) ++ trun offset frag))

unfoldable pub payloads : List FragmentSample → Bytes
payloads [] = []
payloads (s ∷ samples) = s.payload ++ payloads samples

-- One of `payload_sizes`.
unfoldable pub payload_size : List FragmentSample → ℕ
payload_size [] = 0
payload_size (s ∷ samples) = length s.payload + payload_size samples

-- The first pass writes each data offset as zero.
unfoldable pub trafs : List Fragment → Bytes
trafs [] = []
trafs (frag ∷ frags) = traf 0 frag ++ trafs frags

unfoldable pub mdat_payload : List Fragment → Bytes
mdat_payload [] = []
mdat_payload (frag ∷ frags) = payloads frag.samples ++ mdat_payload frags

unfoldable pub total_payload : List Fragment → ℕ
total_payload [] = 0
total_payload (frag ∷ frags) = payload_size frag.samples + total_payload frags

-- A 32-bit number at the front, and the type behind it.
abbrev pub size_at : Bytes → ℕ
size_at b = from_be32 (get_or b 0 0) (get_or b 1 0) (get_or b 2 0) (get_or b 3 0)

abbrev pub has_tag : ℕ → ℕ → ℕ → ℕ → Bytes → Bool
has_tag w x y z b = get_or b 4 0 == w && get_or b 5 0 == x && get_or b 6 0 == y && get_or b 7 0 == z

abbrev pub at_least_8 : ℕ → ℕ
at_least_8 n = if ltb n 8 then 8 else n

-- `out[at..at + 4].copy_from_slice(word)`.
abbrev pub overwrite : ℕ → Bytes → Bytes → Bytes
overwrite at word out = take at out ++ (word ++ drop (at + 4) out)

-- The inner loop: `rest` is `out[c..]`, and `left` is `traf_end - c`. Each round moves on by 8 bytes
-- at least.
unfoldable pub patch_trun : ℕ → ℕ → ℕ → Bytes → Bytes
patch_trun zero offset left rest = rest
patch_trun (suc fuel) offset left rest =
    let step = at_least_8 (size_at rest) in
    let on = take step rest ++ patch_trun fuel offset (left - step) (drop step rest) in
    if leb 8 left
    then (if has_tag b't' b'r' b'u' b'n' rest then overwrite 16 (be32 (as_u32 offset)) rest else on)
    else rest

-- The outer loop: `rest` is `out[cursor..]`, and `offset` is where the payload of the next fragment
-- starts.
unfoldable pub patch : ℕ → ℕ → List Fragment → Bytes → Bytes
patch zero offset frags rest = rest
patch (suc fuel) offset [] rest = rest
patch (suc fuel) offset (frag ∷ frags) rest =
    let size = size_at rest in
    let step = at_least_8 size in
    let done = take 8 rest ++ patch_trun (size - 8) offset (size - 8) (drop 8 rest) in
    let inside =
      take step done ++ patch fuel (offset + payload_size frag.samples) frags (drop step done) in
    let beside = take step rest ++ patch fuel offset (frag ∷ frags) (drop step rest) in
    if leb 8 (length rest)
    then (if has_tag b't' b'r' b'a' b'f' rest then inside else beside)
    else rest

unfoldable pub styp : Bytes
styp = mp4_box (codes "styp") (codes "iso5" ++ (be32 512 ++ (codes "iso5" ++ codes "iso6")))

unfoldable pub mfhd : ℕ → Bytes
mfhd sequence_number = full_box (codes "mfhd") 0 0 (be32 sequence_number)

-- The `moof` box with its offsets patched.
unfoldable pub moof : ℕ → List Fragment → Bytes
moof sequence_number frags =
    let out = mp4_box (codes "moof") (mfhd sequence_number ++ trafs frags) in
    take 8 out ++ patch (length out) (length out + 8) frags (drop 8 out)

unfoldable pub media_segment : ℕ → List Fragment → Bytes
media_segment sequence_number frags =
    styp
    ++ (moof sequence_number frags
        ++ (be32 (as_u32 (total_payload frags + 8)) ++ (codes "mdat" ++ mdat_payload frags)))
