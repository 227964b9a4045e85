-- ===== src/Prelude/Dict.antt =====
-- A Python dict with text keys, in insertion order; also a table whose primary key is one text.
use Prim.Native.String.{String}
use mathlib.Core.Path.{◌≡◌, refl, sym, subst}
use mathlib.Core.Logic.{◌≢◌, inl, inr}
use mathlib.Core.Option.{Option, none, some}
use mathlib.Core.List.{List, [], ◌∷◌}
use native.Mathlib.Omega.{arith}
use text.Mathlib.Text.{◌==◌ as str_eq}
use text.Mathlib.TextEquality.{eq_iff}
use toss_api_quant_trading.Prelude.Tests.{if◌then◌else◌, Bool-cases}

abbrev pub Dict {ℓ} : Type ℓ → Type ℓ
Dict V = List (String × V)

module _ {ℓ} {V : Type ℓ} where
  -- `d.get(k)`
  abbrev pub lookup : String → Dict V → Option V
  lookup k [] = none
  lookup k ((j, v) ∷ d) = if str_eq k j then some v else lookup k d

  -- `d.get(k, default)`
  abbrev pub get_or : String → V → Dict V → V
  get_or k v d = elim (lookup k d) [ none ↦ v | some w ↦ w ]

  -- `d[k] = v`
  abbrev pub insert : String → V → Dict V → Dict V
  insert k v [] = (k, v) ∷ []
  insert k v ((j, w) ∷ d) = if str_eq k j then (j, v) ∷ d else (j, w) ∷ insert k v d

  -- `del d[k]`, which does nothing for a missing key, as SQL's DELETE
  abbrev pub erase : String → Dict V → Dict V
  erase k [] = []
  erase k ((j, w) ∷ d) = if str_eq k j then d else (j, w) ∷ erase k d

  abbrev pub keys : Dict V → List String
  keys [] = []
  keys ((k, _) ∷ d) = k ∷ keys d

  abbrev pub values : Dict V → List V
  values [] = []
  values ((_, v) ∷ d) = v ∷ values d

  -- Every entry satisfies the predicate.
  abbrev pub AllEntries {κ} : (String → V → Type κ) → Dict V → Type κ
  AllEntries P [] = Unit
  AllEntries P ((k, v) ∷ d) = P k v × AllEntries P d

  pub lookup-insert :
      (k j : String) (v : V) (d : Dict V)
      → lookup j (insert k v d) ≡ (if str_eq j k then some v else lookup j d)
  lookup-insert k j v [] = refl
  lookup-insert k j v ((i, w) ∷ d) =
      ground (arith, eq_iff k j, eq_iff k i, eq_iff j i, eq_iff j k, lookup-insert k j v d)

  pub lookup-insert_self : (k : String) (v : V) (d : Dict V) → lookup k (insert k v d) ≡ some v
  lookup-insert_self k v d = ground (arith, lookup-insert k k v d, eq_iff k k)

  pub lookup-insert_ne :
      (k j : String) (v : V) (d : Dict V) → j ≢ k → lookup j (insert k v d) ≡ lookup j d
  lookup-insert_ne k j v d h = ground (arith, lookup-insert k j v d, eq_iff j k)

  pub lookup-erase_ne : (k j : String) (d : Dict V) → j ≢ k → lookup j (erase k d) ≡ lookup j d
  lookup-erase_ne k j [] h = refl
  lookup-erase_ne k j ((i, w) ∷ d) h =
      ground (arith, eq_iff k i, eq_iff j i, lookup-erase_ne k j d h)

module _ {ℓ κ} {V : Type ℓ} (P : String → V → Type κ) where
  pub insert-AllEntries :
      (k : String) (v : V) (d : Dict V) → P k v → AllEntries P d → AllEntries P (insert k v d)
  insert-AllEntries k v [] p h = (p, h)
  insert-AllEntries k v ((j, w) ∷ d) p h = elim (Bool-cases (str_eq k j)) [
    | inl e ↦ rw e (subst (λ i. P i v) ((eq_iff k j).0 e) p, h.1)
    | inr e ↦ rw e (h.0, insert-AllEntries k v d p h.1)
  ]

  pub erase-AllEntries : (k : String) (d : Dict V) → AllEntries P d → AllEntries P (erase k d)
  erase-AllEntries k [] h = h
  erase-AllEntries k ((j, w) ∷ d) h = elim (Bool-cases (str_eq k j)) [
    | inl e ↦ rw e h.1
    | inr e ↦ rw e (h.0, erase-AllEntries k d h.1)
  ]

  some_is : (k : String) (v w : V) → some w ≡ some v → P k w → P k v
  some_is k v w e p = let q : w ≡ v = cc in subst (λ x. P k x) q p

  pub lookup-AllEntries :
      (k : String) (v : V) (d : Dict V) → AllEntries P d → lookup k d ≡ some v → P k v
  lookup-AllEntries k v [] h e = absurd (cc)
  lookup-AllEntries k v ((j, w) ∷ d) h e = elim (Bool-cases (str_eq k j)) [
    | inl q ↦ some_is k v w (rw q at e) (subst (λ i. P i w) (sym ((eq_iff k j).0 q)) h.0)
    | inr q ↦ lookup-AllEntries k v d h.1 (rw q at e)
  ]
