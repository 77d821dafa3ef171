-- ===== src/Common/GoMap.antt =====
-- Go's `map[string]V`: an association list. Its order stands for the order in which `range`
-- visits the entries, which Go leaves open.
pub mod Every
use iot_api.Common.{
  String, ◌≡◌, refl, inl, inr, ◌==◌, eq_iff, Bool, Option, none, some, List, [], ◌∷◌, arith,
  if◌then◌else◌, In,
}

abbrev pub GoMap {ℓ} : Type ℓ → Type ℓ
GoMap V = List (String × V)

module _ {ℓ} {V : Type ℓ} where
  -- `v, ok := m[k]`.
  unfoldable pub lookup : String → GoMap V → Option V
  lookup key [] = none
  lookup key ((k, value) ∷ entries) = if k == key then some value else lookup key entries

  -- `m[k] = v`.
  unfoldable pub insert : String → V → GoMap V → GoMap V
  insert key new [] = (key, new) ∷ []
  insert key new ((k, value) ∷ entries) =
      if k == key then (key, new) ∷ entries else (k, value) ∷ insert key new entries

  -- `delete(m, k)`.
  unfoldable pub delete : String → GoMap V → GoMap V
  delete k [] = []
  delete k ((j, v) ∷ m) = let rest = delete k m in if j == k then rest else (j, v) ∷ rest

  -- `for k, v := range m { if p(v) { delete(m, k) } }`.
  unfoldable pub delete_if : (V → Bool) → GoMap V → GoMap V
  delete_if p [] = []
  delete_if p ((j, v) ∷ m) = let rest = delete_if p m in if p v then rest else (j, v) ∷ rest

  -- `for _, v := range m { out = append(out, v) }`.
  unfoldable pub values : GoMap V → List V
  values [] = []
  values ((j, v) ∷ m) = v ∷ values m

  -- `for _, v := range m { if p(v) { return v } }`.
  unfoldable pub find_value : (V → Bool) → GoMap V → Option V
  find_value p [] = none
  find_value p ((j, v) ∷ m) = if p v then some v else find_value p m

  -- `m[k]` where a missing key reads as the zero value `d`.
  abbrev pub lookup_or : V → String → GoMap V → V
  lookup_or d k m = elim (lookup k m) [ none ↦ d | some v ↦ v ]

  -- No key stands twice.
  abbrev pub IsMap : GoMap V → Type ℓ
  IsMap [] = Unit
  IsMap ((k, v) ∷ m) = (lookup k m ≡ none) × IsMap m

  pub lookup-insert :
      (key asked : String) (new : V) (entries : GoMap V)
      → lookup asked (insert key new entries)
        ≡ (if key == asked then some new else lookup asked entries)
  unfolding lookup insert
  lookup-insert key asked new [] = refl
  lookup-insert key asked new ((k, value) ∷ entries) =
      let rest = lookup-insert key asked new entries in
      ground (arith, rest, eq_iff key asked, eq_iff k asked, eq_iff k key)

  pub lookup-delete :
      (k j : String) (m : GoMap V) → lookup j (delete k m) ≡ (if k == j then none else lookup j m)
  unfolding lookup delete
  lookup-delete k j [] = ground arith
  lookup-delete k j ((i, w) ∷ m) =
      ground (arith, eq_iff k j, eq_iff i k, eq_iff i j, lookup-delete k j m)

  -- Where `delete_if` keeps an entry.
  abbrev pub unless : (V → Bool) → Option V → Option V
  unless p none = none
  unless p (some v) = if p v then none else some v

  lookup-delete_if-none :
      (p : V → Bool) (j : String) (m : GoMap V)
      → lookup j m ≡ none
      → lookup j (delete_if p m) ≡ none
  unfolding lookup delete_if
  lookup-delete_if-none p j [] h = refl
  lookup-delete_if-none p j ((i, w) ∷ m) h = ground (arith, lookup-delete_if-none p j m)

  pub lookup-delete_if :
      (p : V → Bool) (j : String) (m : GoMap V)
      → IsMap m
      → lookup j (delete_if p m) ≡ unless p (lookup j m)
  unfolding lookup delete_if
  lookup-delete_if p j [] h = refl
  lookup-delete_if p j ((i, w) ∷ m) h =
      ground (arith, eq_iff i j, lookup-delete_if p j m h.1, lookup-delete_if-none p j m)

  pub insert-IsMap : (k : String) (v : V) (m : GoMap V) → IsMap m → IsMap (insert k v m)
  unfolding insert lookup
  insert-IsMap k v [] h = (refl, tt)
  insert-IsMap k v ((i, w) ∷ m) h =
      ground (arith, eq_iff i k, eq_iff k i, lookup-insert k i v m, insert-IsMap k v m h.1)

  pub delete-IsMap : (k : String) (m : GoMap V) → IsMap m → IsMap (delete k m)
  unfolding delete lookup
  delete-IsMap k [] h = tt
  delete-IsMap k ((i, w) ∷ m) h = ground (arith, lookup-delete k i m, delete-IsMap k m h.1)

  pub delete_if-IsMap : (p : V → Bool) (m : GoMap V) → IsMap m → IsMap (delete_if p m)
  unfolding delete_if lookup
  delete_if-IsMap p [] h = tt
  delete_if-IsMap p ((i, w) ∷ m) h =
      ground (arith, lookup-delete_if-none p i m, delete_if-IsMap p m h.1)

module _ {V : Type 0} where
  -- What a lookup finds is among the values.
  pub lookup-In : (k : String) (v : V) (m : GoMap V) → lookup k m ≡ some v → In v (values m)
  unfolding lookup values
  lookup-In k v [] h = cc
  lookup-In k v ((i, w) ∷ m) h = ground (arith, lookup-In k v m)

  -- Each value is found under a key.
  pub In-values :
      (v : V) (m : GoMap V) → IsMap m → In v (values m) → (k : String) × (lookup k m ≡ some v)
  unfolding lookup values
  In-values v [] h i = absurd i
  In-values v ((j, w) ∷ m) h (inl e) = (j, ground (arith, eq_iff j j))
  In-values v ((j, w) ∷ m) h (inr i) =
      let (k, e) = In-values v m h.1 i in (k, ground (arith, eq_iff j k))

pub ruleset map_laws = (lookup-insert, lookup-delete)
