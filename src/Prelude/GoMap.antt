-- ===== src/Prelude/GoMap.antt =====
-- Go's built-in maps. A map is the list of its entries, in the order in which a `range` over it
-- would visit them; that order is any, so the theorems hold for every list. A write to an old key
-- keeps its place.
use mathlib.Core.Option.{some-injective}
use mathlib.Core.Path.{subst}
use netforge.Prelude.{
  ◌≡◌, refl, ap, In, here, there, Bool, Bool-cases, All, inl, inr, Option, none, some, List, [],
  false, ◌∷◌, arith, Eq, ◌==◌, if◌then◌else◌,
}

abbrev pub GoMap {ℓ κ} : Type ℓ → Type κ → Type (ℓ ⊔ κ)
GoMap K V = List (K × V)

module _ {ℓ κ} {K : Type ℓ} {V : Type κ} where
  abbrev pub keys : GoMap K V → List K
  keys [] = []
  keys ((k, v) ∷ m) = k ∷ keys m

  abbrev pub values : GoMap K V → List V
  values [] = []
  values ((k, v) ∷ m) = v ∷ values m

  -- `for k, v := range m { if p(k, v) { delete(m, k) } }`
  unfoldable pub delete_if : (K → V → Bool) → GoMap K V → GoMap K V
  delete_if p [] = []
  delete_if p ((k, v) ∷ m) = if p k v then delete_if p m else (k, v) ∷ delete_if p m

module _ {ℓ κ} {K : Type ℓ} {V : Type κ} ⦃e : Eq K⦄ where
  unfoldable pub get : GoMap K V → K → Option V
  get [] k = none
  get ((j, v) ∷ m) k = if j == k then some v else get m k

  unfoldable pub put : GoMap K V → K → V → GoMap K V
  put [] k v = (k, v) ∷ []
  put ((j, w) ∷ m) k v = if j == k then (j, v) ∷ m else (j, w) ∷ put m k v

  unfoldable pub delete : GoMap K V → K → GoMap K V
  delete [] k = []
  delete ((j, w) ∷ m) k = if j == k then delete m k else (j, w) ∷ delete m k

  -- No key has two entries.
  abbrev pub IsUnique : GoMap K V → Type (ℓ ⊔ κ)
  IsUnique [] = Unit
  IsUnique ((k, v) ∷ m) = (get m k ≡ none) × IsUnique m

  pub get-put :
      (m : GoMap K V) (k j : K) (v : V) → get (put m k v) j ≡ (if k == j then some v else get m j)
  unfolding get put
  get-put [] k j v = refl
  get-put ((i, w) ∷ m) k j v =
      ground (arith, get-put m k j v, e.beq_iff k j, e.beq_iff i k, e.beq_iff i j)

  pub get-delete :
      (m : GoMap K V) (k j : K) → get (delete m k) j ≡ (if k == j then none else get m j)
  unfolding get delete
  get-delete [] k j = ground arith
  get-delete ((i, w) ∷ m) k j =
      ground (arith, get-delete m k j, e.beq_iff k j, e.beq_iff i k, e.beq_iff i j)

module _ {ℓ} {V : Type ℓ} where
  -- What a purging loop leaves of an entry.
  abbrev pub survive : (V → Bool) → Option V → Option V
  survive p none = none
  survive p (some v) = if p v then none else some v

module _ {ℓ κ} {K : Type ℓ} {V : Type κ} ⦃e : Eq K⦄ where
  pub put-IsUnique : (m : GoMap K V) (k : K) (v : V) → IsUnique m → IsUnique (put m k v)
  unfolding get put
  put-IsUnique [] k v u = (refl, tt)
  put-IsUnique ((i, w) ∷ m) k v u =
      ground (arith, get-put m k i v, put-IsUnique m k v, e.beq_iff i k, e.beq_iff k i)

  pub delete-IsUnique : (m : GoMap K V) (k : K) → IsUnique m → IsUnique (delete m k)
  unfolding get delete
  delete-IsUnique [] k u = tt
  delete-IsUnique ((i, w) ∷ m) k u = ground (arith, get-delete m k i, delete-IsUnique m k)

  get-delete_if-none :
      (p : K → V → Bool) (m : GoMap K V) (k : K) → get m k ≡ none → get (delete_if p m) k ≡ none
  unfolding get delete_if
  get-delete_if-none p [] k h = refl
  get-delete_if-none p ((i, w) ∷ m) k h = ground (arith, get-delete_if-none p m k)

  pub delete_if-IsUnique :
      (p : K → V → Bool) (m : GoMap K V) → IsUnique m → IsUnique (delete_if p m)
  unfolding delete_if
  delete_if-IsUnique p [] u = tt
  delete_if-IsUnique p ((i, w) ∷ m) u =
      ground (arith, get-delete_if-none p m i, delete_if-IsUnique p m)

  pub get-delete_if :
      (p : K → V → Bool) (m : GoMap K V) (k : K)
      → IsUnique m
      → get (delete_if p m) k ≡ survive (p k) (get m k)
  unfolding get delete_if
  get-delete_if p [] k u = refl
  get-delete_if p ((i, w) ∷ m) k u =
      ground (arith, get-delete_if p m k, get-delete_if-none p m k, e.beq_iff i k)

-- What holds of all the entries holds of each that a look-up finds.
module _ {ℓ κ μ} {K : Type ℓ} {V : Type κ} ⦃e : Eq K⦄ (P : V → Type μ) where
  pub All-get : (m : GoMap K V) (k : K) (v : V) → All P (values m) → get m k ≡ some v → P v
  unfolding get
  All-get [] k v h g = cc
  All-get ((i, w) ∷ m) k v h g = elim (Bool-cases (i == k)) [
    | inl same ↦ let q : some w ≡ some v = rw same at g in subst P (some-injective w v q) h.0
    | inr other ↦ All-get m k v h.1 (rw other at g)
  ]

  pub All-put :
      (m : GoMap K V) (k : K) (v : V) → All P (values m) → P v → All P (values (put m k v))
  unfolding put
  All-put [] k v h p = (p, tt)
  All-put ((i, w) ∷ m) k v h p = elim (Bool-cases (i == k)) [
    | inl same ↦ rw same (p, h.1)
    | inr other ↦ rw other (h.0, All-put m k v h.1 p)
  ]

module _ {ℓ κ μ} {K : Type ℓ} {V : Type κ} (P : V → Type μ) where
  pub All-delete_if :
      (p : K → V → Bool) (m : GoMap K V) → All P (values m) → All P (values (delete_if p m))
  unfolding delete_if
  All-delete_if p [] h = tt
  All-delete_if p ((i, w) ∷ m) h = elim (Bool-cases (p i w)) [
    | inl gone ↦ rw gone (All-delete_if p m h.1)
    | inr kept ↦ rw kept (h.0, All-delete_if p m h.1)
  ]

module _ {ℓ κ} {K : Type ℓ} {V : Type κ} ⦃e : Eq K⦄ where
  -- In a map with unique keys an entry is what its key finds.
  pub get-In : (m : GoMap K V) (k : K) (v : V) → IsUnique m → In (k, v) m → get m k ≡ some v
  unfolding get
  get-In [] k v u r = elim r [ ]
  get-In ((j, w) ∷ m) k v u (here p) =
      ground (arith, e.beq_iff j k, ap (λ x. x.0) p, ap (λ x. x.1) p)
  get-In ((j, w) ∷ m) k v u (there r) = ground (arith, e.beq_iff j k, get-In m k v u.1 r)

  -- A loop that looks at the keys only.
  pub get-delete_if_key :
      (p : K → Bool) (m : GoMap K V) (k : K)
      → get (delete_if (λ j w. p j) m) k ≡ (if p k then none else get m k)
  unfolding get delete_if
  get-delete_if_key p [] k = ground arith
  get-delete_if_key p ((j, w) ∷ m) k = ground (arith, get-delete_if_key p m k, e.beq_iff j k)

module _ {ℓ κ} {K : Type ℓ} {V : Type κ} where
  -- A loop that looks at the values only leaves those that pass.
  pub All-values-delete_if :
      (p : V → Bool) (m : GoMap K V) → All (λ w. p w ≡ false) (values (delete_if (λ j w. p w) m))
  unfolding delete_if
  All-values-delete_if p [] = tt
  All-values-delete_if p ((j, w) ∷ m) = elim (Bool-cases (p w)) [
    | inl gone ↦ rw gone (All-values-delete_if p m)
    | inr kept ↦ rw kept (kept, All-values-delete_if p m)
  ]
