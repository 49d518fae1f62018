-- ===== src/Maps/Laws.antt =====
-- Reading a map back after a write or a delete.
use restconf.Prelude.{
  ◌≡◌, refl, none, some, List, [], ◌∷◌, arith, if◌then◌else◌, Bool-cases, inl, inr, ◌⊎◌,
}
use restconf.Text.{Bytes, beq}
use restconf.Text.Laws.{beq_iff}
use restconf.Maps.{find, store, delete}

module _ {ℓ} {V : Type ℓ} where
  pub find-store :
      (m : List (Bytes × V)) (k j : Bytes) (v : V)
      → find (store m k v) j ≡ (if beq k j then some v else find m j)
  unfolding find store
  find-store [] k j v = ground arith
  find-store ((i, w) ∷ m) k j v =
      ground (arith, find-store m k j v, beq_iff i k, beq_iff i j, beq_iff k j)

  pub find-delete :
      (m : List (Bytes × V)) (k j : Bytes)
      → find (delete m k) j ≡ (if beq k j then none else find m j)
  unfolding find delete
  find-delete [] k j = ground arith
  find-delete ((i, w) ∷ m) k j =
      ground (arith, find-delete m k j, beq_iff i k, beq_iff i j, beq_iff k j)

  -- What a written map holds is what was written, or what was there.
  pub find-store_inv :
      (m : List (Bytes × V)) (k j : Bytes) (v w : V)
      → find (store m k v) j ≡ some w
      → ((k ≡ j) × (v ≡ w)) ⊎ (find m j ≡ some w)
  find-store_inv m k j v w e = elim (Bool-cases (beq k j)) [
    | inl same ↦ inl ((beq_iff k j).0 same, ground (arith, find-store m k j v))
    | inr other ↦ inr (ground (arith, find-store m k j v))
  ]

-- Every key stands once.
abbrev pub IsMap {ℓ} : {V : Type ℓ} → List (Bytes × V) → Type ℓ
IsMap [] = Unit
IsMap ((k, v) ∷ m) = (find m k ≡ none) × IsMap m

module _ {ℓ} {V : Type ℓ} where
  pub store-IsMap : (m : List (Bytes × V)) (k : Bytes) (v : V) → IsMap m → IsMap (store m k v)
  unfolding store find
  store-IsMap [] k v h = (refl, tt)
  store-IsMap ((i, w) ∷ m) k v h = elim (Bool-cases (beq i k)) [
    | inl same ↦ rw same (ground (arith, beq_iff i k))
    | inr other ↦
        rw other
          ((ground (arith, find-store m k i v, beq_iff k i, beq_iff i k)), store-IsMap m k v h.1)
  ]
