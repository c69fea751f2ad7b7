-- ===== src/Hls/Storage/Files.antt =====
-- The laws of the map of files.
use strym_core.Common.{
  eq_bytes, eq_bytes_self, eq_bytes→eq, true, false, none, some, List, [], ◌∷◌, Bytes, ◌≡◌, refl,
  ap, sym, ◌∙◌, Bool-cases, inl, inr, ◌⊎◌, ◌≢◌,
}
use strym_core.Hls.Storage.{lookup, insert, without}

pub lookup-insert_self :
    (n c : Bytes) (files : List (Bytes × Bytes)) → lookup n (insert n c files) ≡ some c
unfolding lookup insert
lookup-insert_self n c [] = rw (eq_bytes_self n)
lookup-insert_self n c ((m, d) ∷ files) = elim (Bool-cases (eq_bytes m n)) [
  | inl e ↦ rw e (rw e refl)
  | inr e ↦ rw e (rw e (lookup-insert_self n c files))
]

-- Another name finds what it found.
pub lookup-insert_other :
    (n k c : Bytes) (files : List (Bytes × Bytes))
    → eq_bytes n k ≡ false
    → lookup k (insert n c files) ≡ lookup k files
unfolding lookup insert
lookup-insert_other n k c [] h = rw h
lookup-insert_other n k c ((m, d) ∷ files) h = elim (Bool-cases (eq_bytes m n)) [
  | inl e ↦
      let other : eq_bytes m k ≡ false = ap (λ x. eq_bytes x k) (eq_bytes→eq m n e) ∙ h in
      rw e (rw other)
  | inr e ↦ rw e (rw (lookup-insert_other n k c files h))
]

pub lookup-without_self :
    (n : Bytes) (files : List (Bytes × Bytes)) → lookup n (without n files) ≡ none
unfolding lookup without
lookup-without_self n [] = refl
lookup-without_self n ((m, d) ∷ files) = elim (Bool-cases (eq_bytes m n)) [
  | inl e ↦ rw e (lookup-without_self n files)
  | inr e ↦ rw e (rw e (lookup-without_self n files))
]

pub lookup-without_other :
    (n k : Bytes) (files : List (Bytes × Bytes))
    → eq_bytes n k ≡ false
    → lookup k (without n files) ≡ lookup k files
unfolding lookup without
lookup-without_other n k [] h = refl
lookup-without_other n k ((m, d) ∷ files) h = elim (Bool-cases (eq_bytes m n)) [
  | inl e ↦
      let other : eq_bytes m k ≡ false = ap (λ x. eq_bytes x k) (eq_bytes→eq m n e) ∙ h in
      rw e (rw other (lookup-without_other n k files h))
  | inr e ↦ rw e (rw (lookup-without_other n k files h))
]

-- A file that can be read.
abbrev pub IsThere : List (Bytes × Bytes) → Bytes → Type 0
IsThere files name = (content : Bytes) × (lookup name files ≡ some content)

pub IsThere-insert :
    (n c k : Bytes) (files : List (Bytes × Bytes)) → IsThere files k → IsThere (insert n c files) k
IsThere-insert n c k files (d, h) = elim (Bool-cases (eq_bytes n k)) [
  | inl e ↦ (c, rw (← eq_bytes→eq n k e) (lookup-insert_self n c files))
  | inr e ↦ (d, lookup-insert_other n k c files e ∙ h)
]

pub inserted :
    (n c k d : Bytes) (files : List (Bytes × Bytes))
    → lookup k (insert n c files) ≡ some d
    → (k ≡ n) ⊎ (lookup k files ≡ some d)
inserted n c k d files h = elim (Bool-cases (eq_bytes n k)) [
  | inl e ↦ inl (sym (eq_bytes→eq n k e))
  | inr e ↦ inr (sym (lookup-insert_other n k c files e) ∙ h)
]

pub kept :
    (n k d : Bytes) (files : List (Bytes × Bytes))
    → lookup k (without n files) ≡ some d
    → (k ≢ n) × (lookup k files ≡ some d)
kept n k d files h = elim (Bool-cases (eq_bytes n k)) [
  | inl e ↦
      let none_left : lookup k (without n files) ≡ none =
        rw (← eq_bytes→eq n k e) (lookup-without_self n files) in
      cc
  | inr e ↦ (
    (λ q. let same : eq_bytes n k ≡ true = rw q (eq_bytes_self n) in cc),
    sym (lookup-without_other n k files e) ∙ h,
  )
]
