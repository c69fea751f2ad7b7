-- ===== src/Backpressure/Resync.antt =====
-- What a keyframe-aligned cut keeps.
use strym_core.Common.{
  ℕ, ◌<◌, ◌≡◌, refl, Bool, true, false, List, [], ◌∷◌, Option, some, none, arith, length, All, drop,
  add_u64, ◌⊎◌, inl, inr, Bool-cases, Option-cases,
}
use strym_core.Backpressure.{BoundedBuffer, rposition, resync_keep_latest_keyframe}

module _ {A : Type 0} (is_key : A → Bool) where
  abbrev pub IsPlain : A → Type 0
  IsPlain a = is_key a ≡ false

  -- `i` is where the last key of the list stands.
  abbrev pub IsLastKey : List A → ℕ → Type 0
  IsLastKey xs i =
      (k : A) × (rest : List A) × (drop i xs ≡ k ∷ rest)
      × (is_key k ≡ true)
      × All IsPlain rest
      × (i < length xs)

  abbrev pub Finds : List A → Option ℕ → Type 0
  Finds xs (some i) = IsLastKey xs i
  Finds xs none = All IsPlain xs

  Finds-cons :
      (x : A) (xs : List A) (o : Option ℕ)
      → rposition is_key xs ≡ o
      → Finds xs o
      → Finds (x ∷ xs) (rposition is_key (x ∷ xs))
  unfolding rposition
  Finds-cons x xs (some i) e (k, rest, d, key, plain, lt) =
      rw e (k, rest, d, key, plain, omega arith)
  Finds-cons x xs none e plain = elim (Bool-cases (is_key x)) [
    | inl t ↦ rw (e, t) (x, xs, refl, t, plain, omega arith)
    | inr f ↦ rw (e, f) (f, plain)
  ]

  pub rposition-Finds : (xs : List A) → Finds xs (rposition is_key xs)
  unfolding rposition
  rposition-Finds [] = tt
  rposition-Finds (x ∷ xs) = Finds-cons x xs (rposition is_key xs) refl (rposition-Finds xs)

  pub rposition-lt : (xs : List A) (i : ℕ) → rposition is_key xs ≡ some i → i < length xs
  rposition-lt xs i e = let f : Finds xs (some i) = rw e at (rposition-Finds xs) in f.5

  -- What a cut does to the queue: it starts at its last key item, all before is gone and counted;
  -- without a key item nothing changes.
  abbrev pub Cuts : BoundedBuffer A → BoundedBuffer A × ℕ → Type 0
  Cuts b (b', n) =
      ((k : A) × (rest : List A) × (b'.queue ≡ k ∷ rest)
        × (is_key k ≡ true)
        × All IsPlain rest
        × (drop n b.queue ≡ b'.queue)
        × (n < length b.queue)
        × (b'.dropped ≡ add_u64 b.dropped n))
      ⊎ (All IsPlain b.queue × (b' ≡ b) × (n ≡ 0))

  -- After a resync the queue starts at its last keyframe, everything before it is gone and is
  -- counted as dropped; a queue without a keyframe is left alone, and so is the counter.
  pub resync-Cuts : (b : BoundedBuffer A) → Cuts b (resync_keep_latest_keyframe is_key b)
  unfolding resync_keep_latest_keyframe
  resync-Cuts b = elim (Option-cases (rposition is_key b.queue)) [
    | inl e ↦
        rw (e, resync_keep_latest_keyframe) (inr (rw e at (rposition-Finds b.queue), refl, refl))
    | inr (i, e) ↦
        let f : IsLastKey b.queue i = rw e at (rposition-Finds b.queue) in
        rw (e, resync_keep_latest_keyframe) (inl (f.0, f.1, f.2, f.3, f.4, refl, f.5, refl))
  ]
