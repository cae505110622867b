-- ===== src/Archiver/Distinct.antt =====
-- How many hashes are left when the hashes asked for are sorted and repetitions dropped.
use digital_objects_network.Archiver.{insert_hash, sort_hashes, dedup_after, dedup}
use digital_objects_network.Synchronizer.Blobs.{is_asked}
use digital_objects_network.Prelude.{
  ℕ, suc, List, [], ◌∷◌, ◌≡◌, ◌≤◌, ◌<◌, true, false, All, All-map, length, refl, leb, ◌==◌,
  Bool-cases, inl, inr, arith, Bool, ◌||◌,
}

Ascending : List ℕ → Type 0
Ascending [] = Unit {0}
Ascending (v ∷ vs) = All (λ (x : ℕ). v ≤ x) vs × Ascending vs

All-insert_hash :
    (low vh : ℕ) (vs : List ℕ)
    → low ≤ vh
    → All (λ (x : ℕ). low ≤ x) vs
    → All (λ (x : ℕ). low ≤ x) (insert_hash vh vs)
unfolding insert_hash
All-insert_hash low vh [] l h = (l, tt)
All-insert_hash low vh (v ∷ vs) l h = elim (Bool-cases (leb vh v)) [
  | inl t ↦ rw t (l, h)
  | inr f ↦ rw f (h.0, All-insert_hash low vh vs l h.1)
]

insert_hash-Ascending : (vh : ℕ) (vs : List ℕ) → Ascending vs → Ascending (insert_hash vh vs)
unfolding insert_hash Ascending
insert_hash-Ascending vh [] h = (tt, tt)
insert_hash-Ascending vh (v ∷ vs) h = elim (Bool-cases (leb vh v)) [
  | inl t ↦
      let l : vh ≤ v = ground arith in
      rw t ((l, All-map (λ (x : ℕ) (k : v ≤ x). omega arith) vs h.0), h)
  | inr f ↦
      let l : v ≤ vh = ground arith in
      rw f (All-insert_hash v vh vs l h.0, insert_hash-Ascending vh vs h.1)
]

sort_hashes-Ascending : (vs : List ℕ) → Ascending (sort_hashes vs)
unfolding sort_hashes Ascending
sort_hashes-Ascending [] = tt
sort_hashes-Ascending (v ∷ vs) = insert_hash-Ascending v (sort_hashes vs) (sort_hashes-Ascending vs)

-- Sorting keeps what is asked for.
asked-insert_hash :
    (v vh : ℕ) (vs : List ℕ) → is_asked v (vh ∷ vs) ≡ true → is_asked v (insert_hash vh vs) ≡ true
unfolding insert_hash is_asked
asked-insert_hash v vh [] h = h
asked-insert_hash v vh (x ∷ xs) h = elim (Bool-cases (leb vh x)) [
  | inl t ↦ rw t h
  | inr f ↦ elim (Bool-cases (x == v)) [
    | inl t₁ ↦ rw f (rw t₁ refl)
    | inr f₁ ↦ rw f (rw f₁ (asked-insert_hash v vh xs (rw f₁ at h)))
  ]
]

asked-sort_hashes :
    (v : ℕ) (vs : List ℕ) → is_asked v vs ≡ true → is_asked v (sort_hashes vs) ≡ true
unfolding sort_hashes is_asked
asked-sort_hashes v [] h = h
asked-sort_hashes v (x ∷ xs) h =
    asked-insert_hash v x (sort_hashes xs) (elim (Bool-cases (x == v)) [
      | inl t ↦ rw t refl
      | inr f ↦ rw f (asked-sort_hashes v xs (rw f at h))
    ])

-- A hash that is inserted adds at most one, and nothing when it is there.
dedup_after-insert_hash :
    (prev vh : ℕ) (vs : List ℕ)
    → prev ≤ vh
    → length (dedup_after prev (insert_hash vh vs)) ≤ suc (length (dedup_after prev vs))
unfolding dedup_after insert_hash
dedup_after-insert_hash prev vh [] l = elim (Bool-cases (prev == vh)) [
  | inl t ↦ rw t (omega arith)
  | inr f ↦ rw f (omega arith)
]
dedup_after-insert_hash prev vh (v ∷ vs) l = elim (Bool-cases (leb vh v)) [
  | inr f ↦
      let l₁ : v ≤ vh = ground arith in
      elim (Bool-cases (prev == v)) [
        | inl t ↦ rw f (rw t (dedup_after-insert_hash prev vh vs l))
        | inr f₁ ↦ let k = dedup_after-insert_hash v vh vs l₁ in rw f (rw f₁ (omega arith))
      ]
  | inl t ↦ elim (Bool-cases (prev == vh)) [
    | inl t₁ ↦ rw t (rw t₁ (omega arith))
    | inr f₁ ↦ elim (Bool-cases (vh == v)) [
      | inl t₂ ↦
          let e : vh ≡ v = ground arith in
          let f₂ : (prev == v) ≡ false = ground arith in rw (t, f₁, t₂, f₂, e) (omega arith)
      | inr f₂ ↦ let f₃ : (prev == v) ≡ false = ground arith in rw (t, f₁, f₂, f₃) (omega arith)
    ]
  ]
]

All-asked : (low v : ℕ) (vs : List ℕ) → All (λ (x : ℕ). low ≤ x) vs → is_asked v vs ≡ true → low ≤ v
unfolding is_asked
All-asked low v [] h a = cc
All-asked low v (x ∷ xs) h a = elim (Bool-cases (x == v)) [
  | inl t ↦ let l = h.0 in ground arith
  | inr f ↦ All-asked low v xs h.1 (rw f at a)
]

dedup_after-insert_hash_asked :
    (prev vh : ℕ) (vs : List ℕ)
    → Ascending vs
    → is_asked vh vs ≡ true
    → length (dedup_after prev (insert_hash vh vs)) ≤ length (dedup_after prev vs)
unfolding dedup_after insert_hash Ascending is_asked
dedup_after-insert_hash_asked prev vh [] h a = cc
dedup_after-insert_hash_asked prev vh (v ∷ vs) h a = elim (Bool-cases (v == vh)) [
  | inl t ↦
      let e : vh ≡ v = ground arith in
      let t₁ : leb v v ≡ true = ground arith in
      let t₂ : (v == v) ≡ true = ground arith in
      elim (Bool-cases (prev == v)) [
        | inl t₃ ↦ rw (e, t₁, t₃) (omega arith)
        | inr f ↦ rw (e, t₁, f, t₂) (omega arith)
      ]
  | inr f ↦
      let a₁ : is_asked vh vs ≡ true = rw f at a in
      let l = All-asked v vh vs h.0 a₁ in
      let f₁ : leb vh v ≡ false = ground arith in
      elim (Bool-cases (prev == v)) [
        | inl t ↦ rw (f₁, t) (dedup_after-insert_hash_asked prev vh vs h.1 a₁)
        | inr f₂ ↦ let k = dedup_after-insert_hash_asked v vh vs h.1 a₁ in rw (f₁, f₂) (omega arith)
      ]
]

-- The number of hashes that are looked up.
unfoldable pub distinct : List ℕ → ℕ
distinct vs = length (dedup (sort_hashes vs))

dedup-insert_hash :
    (vh : ℕ) (vs : List ℕ) → length (dedup (insert_hash vh vs)) ≤ suc (length (dedup vs))
unfolding insert_hash dedup_after
dedup-insert_hash vh [] = omega arith
dedup-insert_hash vh (v ∷ vs) = elim (Bool-cases (leb vh v)) [
  | inr f ↦
      let l : v ≤ vh = ground arith in
      let k = dedup_after-insert_hash v vh vs l in rw f (omega arith)
  | inl t ↦ elim (Bool-cases (vh == v)) [
    | inl t₁ ↦ let e : vh ≡ v = ground arith in rw (t, t₁, e) (omega arith)
    | inr f ↦ rw (t, f) (omega arith)
  ]
]

dedup-insert_hash_asked :
    (vh : ℕ) (vs : List ℕ)
    → Ascending vs
    → is_asked vh vs ≡ true
    → length (dedup (insert_hash vh vs)) ≤ length (dedup vs)
unfolding insert_hash dedup_after Ascending is_asked
dedup-insert_hash_asked vh [] h a = cc
dedup-insert_hash_asked vh (v ∷ vs) h a = elim (Bool-cases (v == vh)) [
  | inl t ↦
      let e : vh ≡ v = ground arith in
      let t₁ : leb v v ≡ true = ground arith in
      let t₂ : (v == v) ≡ true = ground arith in rw (e, t₁, t₂) (omega arith)
  | inr f ↦
      let a₁ : is_asked vh vs ≡ true = rw f at a in
      let l = All-asked v vh vs h.0 a₁ in
      let f₁ : leb vh v ≡ false = ground arith in
      let k = dedup_after-insert_hash_asked v vh vs h.1 a₁ in rw f₁ (omega arith)
]

unfoldable pub has_repeat : List ℕ → Bool
unfolding is_asked
has_repeat [] = false
has_repeat (vh ∷ vhs) = is_asked vh vhs || has_repeat vhs

distinct_le : (vs : List ℕ) → distinct vs ≤ length vs
unfolding distinct sort_hashes
distinct_le [] = omega arith
distinct_le (v ∷ vs) =
    let k = dedup-insert_hash v (sort_hashes vs) in let l = distinct_le vs in omega arith

pub distinct_lt : (vs : List ℕ) → has_repeat vs ≡ true → distinct vs < length vs
unfolding distinct sort_hashes has_repeat
distinct_lt [] h = cc
distinct_lt (v ∷ vs) h = elim (Bool-cases (is_asked v vs)) [
  | inl t ↦
      let k =
        dedup-insert_hash_asked v (sort_hashes vs) (sort_hashes-Ascending vs)
          (asked-sort_hashes v vs t) in
      let l = distinct_le vs in omega arith
  | inr f ↦
      let k = dedup-insert_hash v (sort_hashes vs) in
      let l = distinct_lt vs (rw f at h) in omega arith
]
