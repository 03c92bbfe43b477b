-- ===== src/Common/Maps.antt =====
-- Go maps as association lists without repeated keys, over keys with a Boolean equality.
use Prim.Native.Nat.{ℕ}
use Prim.Native.String.{String}
use text.Mathlib.Text.{◌==◌ as str_eq}
use text.Mathlib.TextEquality.{eq_iff}
use mathlib.Core.Path.{◌≡◌, refl, subst}
use mathlib.Core.Logic.{◌↔◌, inl, inr}
use mathlib.Core.Bool.{Bool, true, false}
use mathlib.Core.List.{List, [], ◌∷◌}
use mathlib.Core.Option.{Option, none, some}
use native.Mathlib.Omega.{arith}
use go_ring.Common.Tests.{◌==◌ as nat_eq, ==_iff, if◌then◌else◌, Bool-cases}

pub record Eq {ℓ} (K : Type ℓ) : Type ℓ where
  pub beq : K → K → Bool
  pub beq_iff : (a b : K) → (beq a b ≡ true) ↔ (a ≡ b)

instance abbrev pub nat_eq_instance : Eq ℕ
nat_eq_instance = record { beq = nat_eq; beq_iff = ==_iff }

instance abbrev pub string_eq_instance : Eq String
string_eq_instance = record { beq = str_eq; beq_iff = eq_iff }

abbrev pub Map {ℓ κ} : Type ℓ → Type κ → Type (ℓ ⊔ κ)
Map K V = List (K × V)

pub beq_refl {ℓ} : {K : Type ℓ} ⦃e : Eq K⦄ (k : K) → e.beq k k ≡ true
beq_refl ⦃e⦄ k = (e.beq_iff k k).1 refl

module _ {ℓ κ} {K : Type ℓ} {V : Type κ} ⦃e : Eq K⦄ where
  unfoldable pub lookup : K → Map K V → Option V
  lookup k [] = none
  lookup k ((j, v) ∷ m) = if e.beq j k then some v else lookup k m

  unfoldable pub insert : K → V → Map K V → Map K V
  insert k v [] = (k, v) ∷ []
  insert k v ((j, w) ∷ m) = if e.beq j k then (k, v) ∷ m else (j, w) ∷ insert k v m

  unfoldable pub delete : K → Map K V → Map K V
  delete k [] = []
  delete k ((j, w) ∷ m) = if e.beq j k then delete k m else (j, w) ∷ delete k m

  pub lookup-insert :
      (k j : K) (v : V) (m : Map K V)
      → lookup j (insert k v m) ≡ (if e.beq k j then some v else lookup j m)
  unfolding lookup insert
  lookup-insert k j v [] = refl
  lookup-insert k j v ((i, w) ∷ m) =
      ground (arith, e.beq_iff k j, e.beq_iff i k, e.beq_iff i j, lookup-insert k j v m)

  pub lookup-insert_self : (k : K) (v : V) (m : Map K V) → lookup k (insert k v m) ≡ some v
  lookup-insert_self k v m = simp (lookup-insert, beq_refl)

  pub delete_of_nil : (k : K) (m : Map K V) → m ≡ [] → delete k m ≡ []
  unfolding delete
  delete_of_nil k m h = rw h refl

  pub lookup-delete :
      (k j : K) (m : Map K V) → lookup j (delete k m) ≡ (if e.beq k j then none else lookup j m)
  unfolding lookup delete
  lookup-delete k j [] = ground arith
  lookup-delete k j ((i, w) ∷ m) =
      ground (arith, e.beq_iff k j, e.beq_iff i k, e.beq_iff i j, lookup-delete k j m)

-- A property of all entries.
abbrev pub AllEntries {ℓ κ ι} : {K : Type ℓ} {V : Type κ} → (K → V → Type ι) → Map K V → Type ι
AllEntries P [] = Unit
AllEntries P ((k, v) ∷ m) = P k v × AllEntries P m

module _ {ℓ κ ι} {K : Type ℓ} {V : Type κ} ⦃e : Eq K⦄ (P : K → V → Type ι) where
  pub AllEntries-lookup :
      (k : K) (v : V) (m : Map K V) → AllEntries P m → lookup k m ≡ some v → P k v
  unfolding lookup
  AllEntries-lookup k v [] a h = cc
  AllEntries-lookup k v ((j, w) ∷ m) a h = elim (Bool-cases (e.beq j k)) [
    | inl hit ↦
        let same : j ≡ k = (e.beq_iff j k).0 hit in
        let value : w ≡ v = ground arith in subst (λ x. P x v) same (subst (P j) value a.0)
    | inr miss ↦ AllEntries-lookup k v m a.1 (ground arith)
  ]

  pub AllEntries-insert :
      (k : K) (v : V) (m : Map K V) → AllEntries P m → P k v → AllEntries P (insert k v m)
  unfolding insert
  AllEntries-insert k v [] a h = (h, tt)
  AllEntries-insert k v ((j, w) ∷ m) a h = elim (Bool-cases (e.beq j k)) [
    | inl hit ↦ rw (hit, insert) (h, a.1)
    | inr miss ↦ rw (miss, insert) (a.0, AllEntries-insert k v m a.1 h)
  ]

  -- What is left has other keys.
  pub AllEntries-delete :
      (k : K) (m : Map K V)
      → AllEntries P m
      → AllEntries (λ j w. P j w × (e.beq j k ≡ false)) (delete k m)
  unfolding delete
  AllEntries-delete k [] a = tt
  AllEntries-delete k ((j, w) ∷ m) a = elim (Bool-cases (e.beq j k)) [
    | inl hit ↦ rw (hit, delete) (AllEntries-delete k m a.1)
    | inr miss ↦ rw (miss, delete) ((a.0, miss), AllEntries-delete k m a.1)
  ]

pub AllEntries-map {ℓ κ ι} :
    {K : Type ℓ} {V : Type κ} (P Q : K → V → Type ι) (m : Map K V)
    → ((k : K) (v : V) → P k v → Q k v)
    → AllEntries P m
    → AllEntries Q m
AllEntries-map P Q [] f a = tt
AllEntries-map P Q ((k, v) ∷ m) f a = (f k v a.0, AllEntries-map P Q m f a.1)
