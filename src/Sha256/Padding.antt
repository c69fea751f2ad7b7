-- ===== src/Sha256/Padding.antt =====
-- The padding of a message in core/src/sha256.rs.
use strym_core.Common.{
  ℕ, zero, suc, ◌+◌, ◌-◌, ◌*◌, ◌%◌, ◌^◌, ◌≤◌, ◌<◌, ◌≡◌, sym, ◌∙◌, arith, true, false, [], ◌∷◌, ◌++◌,
  append_assoc, append-nil, ◌==◌, length, length-append, length-replicate, replicate, Bytes, be64,
}
use strym_core.Sha256.{fill_zeros, padded}

fill_zeros-replicate :
    (n fuel : ℕ) (msg : Bytes)
    → n < 64
    → n ≤ fuel
    → (length msg + n) % 64 ≡ 56
    → fill_zeros fuel msg ≡ msg ++ replicate n 0
unfolding fill_zeros
fill_zeros-replicate zero zero msg small l h = sym (append-nil msg)
fill_zeros-replicate zero (suc fuel) msg small l h =
    let stop : (length msg % 64 == 56) ≡ true = ground arith in rw stop (sym (append-nil msg))
fill_zeros-replicate (suc n) zero msg small l h = absurd (omega arith)
fill_zeros-replicate (suc n) (suc fuel) msg small l h =
    let go_on : (length msg % 64 == 56) ≡ false = ground arith in
    let longer : length (msg ++ 0 ∷ []) ≡ length msg + 1 = length-append msg (0 ∷ []) in
    rw go_on (
      fill_zeros-replicate n fuel (msg ++ 0 ∷ []) (omega arith) (omega arith)
        (omega (arith, longer))
      ∙ append_assoc msg (0 ∷ []) (replicate n 0))

-- The zeros between a message of `n` bytes and its length.
abbrev pub zeros : ℕ → ℕ
zeros n = (119 - n % 64) % 64

-- The padding of FIPS 180-4: behind the message a byte 0x80, as few zeros as bring the length to 56
-- modulo 64, and the number of bits as eight bytes, so that the result is a whole number of blocks.
pub padded-replicate :
    (bytes : Bytes)
    → (padded bytes
        ≡ bytes
          ++ (0x80 ∷ (replicate (zeros (length bytes)) 0 ++ be64 (length bytes * 8 % 2 ^ 64))))
      × (length (padded bytes) % 64 ≡ 0)
unfolding padded
padded-replicate bytes =
    let n = zeros (length bytes) in
    let msg = bytes ++ 0x80 ∷ [] in
    let size : length msg ≡ length bytes + 1 = length-append bytes (0x80 ∷ []) in
    let filled : fill_zeros 63 msg ≡ msg ++ replicate n 0 =
      fill_zeros-replicate n 63 msg (omega arith) (omega arith) (omega (arith, size)) in
    let bits : Bytes = be64 (length bytes * 8 % 2 ^ 64) in
    (
      rw filled (
          append_assoc msg (replicate n 0) bits
          ∙ append_assoc bytes (0x80 ∷ []) (replicate n 0 ++ bits)),
      rw filled (
          omega (
            arith,
            size,
            length-append (msg ++ replicate n 0) bits,
            length-append msg (replicate n 0),
            length-replicate {A = ℕ} n 0,
          )),
    )
