-- ===== src/Rtmp/Amf0/Total.antt =====
-- Reading AMF0 ends, and never gives back more than it was given.
use strym_core.Common.{
  ℕ, zero, suc, ◌+◌, ◌*◌, ◌≤◌, ◌<◌, ◌≡◌, ◌≢◌, refl, arith, Bool, true, false, not, Option, none,
  some, [], ◌∷◌, if◌then◌else◌, leb, ◌==◌, length, get_or, length-drop, Bytes, Bool-cases, inl, inr,
  Option-cases,
}
use strym_core.Rtmp.Amf0.{
  Val, Fields, Outcome, done, failed, stuck, Read, ◌>>=◌, pure, read_u8, read_u16, read_u32,
  read_f64, read_bytes, read_utf8, skip_marker, is_done, read_entry, read_marked, read_entries,
  read_val, read_value, read_values, read_all, field, type_object_end,
}

-- A read that is not stuck, and leaves `k` bytes less than `n` at most.
abbrev Leaves : {A : Type 0} → ℕ → ℕ → Outcome A → Type 0
Leaves k n (done a rest) = length rest + k ≤ n
Leaves k n failed = Unit {0}
Leaves k n stuck = ⊥

Leaves-bind :
    {A B : Type 0} (m : Read A) (f : A → Read B) (k j n : ℕ) (b : Bytes)
    → Leaves k n (m b)
    → ((a : A) (rest : Bytes) → length rest + k ≤ n → Leaves j n (f a rest))
    → Leaves j n ((m >>= f) b)
Leaves-bind m f k j n b h g = go (m b) h
  where
    go : (o : Outcome _) → Leaves k n o → Leaves j n (((λ c. o) >>= f) b)
    go (done a rest) p = g a rest p
    go failed p = tt
    go stuck p = p

read_u8-Leaves : (b : Bytes) → Leaves 1 (length b) (read_u8 b)
unfolding read_u8
read_u8-Leaves [] = tt
read_u8-Leaves (x ∷ rest) = omega arith

read_u16-Leaves : (b : Bytes) → Leaves 2 (length b) (read_u16 b)
unfolding read_u16
read_u16-Leaves [] = tt
read_u16-Leaves (x ∷ []) = tt
read_u16-Leaves (x ∷ y ∷ rest) = omega arith

read_u32-Leaves : (b : Bytes) → Leaves 0 (length b) (read_u32 b)
unfolding read_u32
read_u32-Leaves (x ∷ y ∷ z ∷ w ∷ rest) = omega arith
read_u32-Leaves [] = tt
read_u32-Leaves (x ∷ []) = tt
read_u32-Leaves (x ∷ y ∷ []) = tt
read_u32-Leaves (x ∷ y ∷ z ∷ []) = tt

read_f64-Leaves : (b : Bytes) → Leaves 0 (length b) (read_f64 b)
unfolding read_f64
read_f64-Leaves (s ∷ t ∷ u ∷ v ∷ w ∷ x ∷ y ∷ z ∷ rest) = omega arith
read_f64-Leaves _ = tt

read_bytes-Leaves : (len : ℕ) (b : Bytes) → Leaves 0 (length b) (read_bytes len b)
unfolding read_bytes
read_bytes-Leaves len b = elim (Bool-cases (leb len (length b))) [
  | inl e ↦ rw e (omega (arith, length-drop len b))
  | inr e ↦ rw e tt
]

-- The bound may be the bytes that there were at some earlier point.
Leaves-le : {A : Type 0} (k j m n : ℕ) (o : Outcome A) → m + j ≤ n + k → Leaves k m o → Leaves j n o
Leaves-le k j m n (done a rest) h p = omega arith
Leaves-le k j m n failed h p = tt
Leaves-le k j m n stuck h p = p

if-Leaves :
    {A : Type 0} (t : Bool) (k n : ℕ) (x y : Read A) (b : Bytes)
    → Leaves k n (x b)
    → Leaves k n (y b)
    → Leaves k n ((if t then x else y) b)
if-Leaves true k n x y b p q = p
if-Leaves false k n x y b p q = q

if-Leaves_outcome :
    {A : Type 0} (t : Bool) (k n : ℕ) (x y : Outcome A)
    → Leaves k n x
    → Leaves k n y
    → Leaves k n (if t then x else y)
if-Leaves_outcome true k n x y p q = p
if-Leaves_outcome false k n x y p q = q

module _ (lossy : Bytes → Bytes) where
  read_utf8-Leaves : (b : Bytes) → Leaves 0 (length b) (read_utf8 lossy b)
  unfolding read_utf8
  read_utf8-Leaves b = Leaves-bind read_u16 _ 2 0 (length b) b (read_u16-Leaves b) λ len rest h.
      Leaves-bind (read_bytes len) _ 2 0 (length b) rest
        (Leaves-le 0 2 (length rest) (length b) (read_bytes len rest) (omega arith)
          (read_bytes-Leaves len rest))
        λ s rest' h'. omega arith

  skip_marker-Leaves : (b : Bytes) → Leaves 0 (length b) (skip_marker b)
  unfolding skip_marker
  skip_marker-Leaves b =
      Leaves-bind read_u16 _ 2 0 (length b) b (read_u16-Leaves b)
        λ len rest h. omega (arith, length-drop 1 rest)

  -- The two calls of an entry are made on what is left behind its key.
  read_entry-Leaves :
      (value : Read Val) (more : Read Fields) (b : Bytes)
      → ((c : Bytes) → length c + 2 ≤ length b → Leaves 1 (length c) (value c))
      → ((c : Bytes) → length c + 3 ≤ length b → Leaves 0 (length c) (more c))
      → Leaves 0 (length b) (read_entry lossy value more b)
  unfolding read_entry
  read_entry-Leaves value more b hv hm =
      Leaves-bind read_u16 _ 2 0 (length b) b (read_u16-Leaves b) λ keylen rest h.
        if-Leaves (keylen == 0) 0 (length b) _ _ rest
          (if-Leaves_outcome (not (leb 1 (length rest))) 0 (length b) _ _ tt (
            if-Leaves_outcome (get_or rest 0 0 == type_object_end) 0 (length b) _ _
              (omega (arith, length-drop 1 rest)) (behind [] rest h)))
          (Leaves-bind (read_bytes keylen) _ 2 0 (length b) rest
            (Leaves-le 0 2 (length rest) (length b) (read_bytes keylen rest) (omega arith)
              (read_bytes-Leaves keylen rest))
            λ raw c h'. behind (lossy raw) c h')
    where
      behind :
          (k : Bytes) (c : Bytes)
          → length c + 2 ≤ length b
          → Leaves 0 (length b) ((value >>= λ v. more >>= λ fs. pure (field k v fs)) c)
      behind k c h =
          Leaves-bind value _ 3 0 (length b) c
            (Leaves-le 1 3 (length c) (length b) (value c) (omega arith) (hv c h))
            λ v d hd.
              Leaves-bind more _ 0 0 (length b) d
                (Leaves-le 0 0 (length d) (length b) (more d) (omega arith) (hm d hd))
                λ fs e he. omega arith

  read_marked-Leaves :
      (entries : Option ℕ → Read Fields) (marker : ℕ) (b : Bytes)
      → ((count : Option ℕ) (c : Bytes)
          → length c ≤ length b
          → Leaves 0 (length c) (entries count c))
      → Leaves 0 (length b) (read_marked lossy entries marker b)
  unfolding read_marked
  read_marked-Leaves entries marker b h =
      if-Leaves (marker == 0) 0 (length b) _ _ b
        (Leaves-bind read_f64 _ 0 0 (length b) b (read_f64-Leaves b) λ n c hc. hc)
        (if-Leaves (marker == 1) 0 (length b) _ _ b
          (Leaves-bind read_u8 _ 1 0 (length b) b (read_u8-Leaves b) λ n c hc. omega arith)
          (if-Leaves (marker == 2) 0 (length b) _ _ b
            (Leaves-bind (read_utf8 lossy) _ 0 0 (length b) b (read_utf8-Leaves b) λ n c hc. hc)
            (if-Leaves (marker == 3) 0 (length b) _ _ b
              (Leaves-bind (entries none) _ 0 0 (length b) b (h none b (omega arith)) λ n c hc. hc)
              (if-Leaves (marker == 8) 0 (length b) _ _ b
                (Leaves-bind read_u32 _ 0 0 (length b) b (read_u32-Leaves b) λ n c hc.
                  Leaves-bind (entries (some n)) _ 0 0 (length b) c
                    (Leaves-le 0 0 (length c) (length b) (entries (some n) c) (omega arith)
                      (h (some n) c (omega arith)))
                    λ fs d hd. hd)
                (if-Leaves (marker == 5) 0 (length b) _ _ b (omega arith)
                  (if-Leaves (marker == 6) 0 (length b) _ _ b (omega arith) tt))))))

  read-Leaves :
      (fuel : ℕ)
      → ((b : Bytes) → 2 * length b + 1 ≤ fuel → Leaves 1 (length b) (read_val lossy fuel b))
        × ((count : Option ℕ) (b : Bytes)
            → 2 * length b + 2 ≤ fuel
            → Leaves 0 (length b) (read_entries lossy fuel count b))
  unfolding read_val
  read-Leaves zero = (λ b h. absurd (omega arith), λ count b h. absurd (omega arith))
  read-Leaves (suc fuel) =
      let (value, entries) = read-Leaves fuel in
      (
        λ b h. Leaves-bind read_u8 _ 1 1 (length b) b (read_u8-Leaves b) λ marker c hc.
            Leaves-le 0 1 (length c) (length b) _ (omega arith) (
              read_marked-Leaves (read_entries lossy fuel) marker c
                λ count d hd. entries count d (omega arith)),
        λ count b h.
            if-Leaves_outcome (is_done count) 0 (length b) _ _
              (Leaves-bind (skip_marker) _ 0 0 (length b) b (skip_marker-Leaves b) λ u c hc. hc)
              (read_entry-Leaves _ _ b (λ c hc. value c (omega arith))
                (λ c hc. entries _ c (omega arith))),
      )

  -- Reading a value ends on every input.
  pub read_value-ne-stuck : (b : Bytes) → read_value lossy b ≢ stuck
  unfolding read_value
  read_value-ne-stuck b e = rw e at ((read-Leaves (2 * length b + 2)).0 b (omega arith))

  read_value-left :
      (b rest : Bytes) (v : Val) → read_value lossy b ≡ done v rest → length rest < length b
  unfolding read_value
  read_value-left b rest v e =
      let h : Leaves 1 (length b) (done v rest) =
        rw e at ((read-Leaves (2 * length b + 2)).0 b (omega arith)) in
      omega arith

  read_values-ne-none : (fuel : ℕ) (b : Bytes) → length b < fuel → read_values lossy fuel b ≢ none
  unfolding read_values
  read_values-ne-none zero b h = absurd (omega arith)
  read_values-ne-none (suc fuel) b h = go (read_value lossy b) refl (read_values-ne-none fuel)
    where
      go :
          (o : Outcome Val)
          → read_value lossy b ≡ o
          → ((c : Bytes) → length c < fuel → read_values lossy fuel c ≢ none)
          → read_values lossy (suc fuel) b ≢ none
      go stuck e ih = absurd (read_value-ne-stuck b e)
      go failed e ih = rw (read_values, e) (λ n. cc)
      go (done v rest) e ih = elim (Option-cases (read_values lossy fuel rest)) [
        | inl q ↦ absurd (ih rest (omega (arith, read_value-left b rest v e)) q)
        | inr (vs, q) ↦ rw (read_values, e, q) (λ n. cc)
      ]

  -- `read_all` ends, whatever bytes it is given.
  pub read_all-ne-none : (b : Bytes) → read_all lossy b ≢ none
  unfolding read_all
  read_all-ne-none b = read_values-ne-none (length b + 1) b (omega arith)
