-- ===== src/Common/Dicts.antt =====
-- A JavaScript object or Map with text keys, as an association list in insertion order. A key that
-- is set again keeps its place.
use Prim.Native.String.{String}
use text.Mathlib.Text.{◌==◌}
use text.Mathlib.TextEquality.{eq_iff}
use mathlib.Core.Path.{◌≡◌, refl, sym, ◌∙◌, subst}
use mathlib.Core.Bool.{false}
use mathlib.Core.Logic.{◌⊎◌, inl, inr}
use mathlib.Core.Option.{Option, none, some}
use mathlib.Core.List.{List, [], ◌∷◌}
use native.Mathlib.Omega.{arith}
use work_engine.Common.Tests.{if◌then◌else◌, Bool-cases}

abbrev pub Dict : Type 0 → Type 0
Dict V = List (String × V)

module _ {V : Type 0} where
  unfoldable pub lookup : String → Dict V → Option V
  lookup key [] = none
  lookup key ((name, value) ∷ fields) = if name == key then some value else lookup key fields

  -- The field is overwritten where it stands, or added at the end.
  unfoldable pub insert : String → V → Dict V → Dict V
  insert key value [] = (key, value) ∷ []
  insert key value ((name, old) ∷ fields) =
      let others = insert key value fields in
      if name == key then (name, value) ∷ fields else (name, old) ∷ others

  unfoldable pub erase : String → Dict V → Dict V
  erase key [] = []
  erase key ((name, value) ∷ fields) =
      let others = erase key fields in if name == key then others else (name, value) ∷ others

  pub lookup-insert :
      (set got : String) (value : V) (d : Dict V)
      → lookup got (insert set value d) ≡ (if set == got then some value else lookup got d)
  unfolding insert lookup
  lookup-insert set got value [] = refl
  lookup-insert set got value ((name, old) ∷ fields) =
      ground (
        arith,
        lookup-insert set got value fields,
        eq_iff name set,
        eq_iff name got,
        eq_iff set got,
      )

  pub lookup-erase :
      (k j : String) (m : Dict V) → lookup j (erase k m) ≡ (if k == j then none else lookup j m)
  unfolding lookup erase
  lookup-erase k j [] = ground arith
  lookup-erase k j ((i, w) ∷ m) =
      ground (arith, eq_iff k j, eq_iff i k, eq_iff i j, lookup-erase k j m)

-- The value of an option that is there.
pub some-eq {ℓ} : {A : Type ℓ} {a b : A} → some a ≡ some b → a ≡ b
some-eq e = cc

not-some : {A : Type 0} {a : A} → none ≡ some a → ⊥
not-some e = cc

-- What holds of a new value and of all that were there holds of all after an insertion.
pub insert-Every :
    {V : Type 0} (P : V → Type 0) (k : String) (v : V) (m : Dict V)
    → P v
    → ((j : String) (w : V) → lookup j m ≡ some w → P w)
    → (j : String) (w : V) → lookup j (insert k v m) ≡ some w
    → P w
insert-Every P k v m new old j w e = elim (Bool-cases (k == j)) [
  | inl same ↦ subst P (some-eq (sym (rw (lookup-insert k j v m, same) refl) ∙ e)) new
  | inr other ↦ old j w (sym (rw (lookup-insert k j v m, other) refl) ∙ e)
]

pub erase-Every :
    {V : Type 0} (P : V → Type 0) (k : String) (m : Dict V)
    → ((j : String) (w : V) → lookup j m ≡ some w → P w)
    → (j : String) (w : V) → lookup j (erase k m) ≡ some w
    → P w
erase-Every P k m old j w e = elim (Bool-cases (k == j)) [
  | inl same ↦ absurd (not-some (sym (rw (lookup-erase k j m, same) refl) ∙ e))
  | inr other ↦ old j w (sym (rw (lookup-erase k j m, other) refl) ∙ e)
]

-- What is found after an insertion is what was inserted, or was there under another key.
pub insert-cases :
    {V : Type 0} (set got : String) (value found : V) (d : Dict V)
    → lookup got (insert set value d) ≡ some found
    → ((set ≡ got) × (value ≡ found)) ⊎ (((set == got) ≡ false) × (lookup got d ≡ some found))
insert-cases set got value found d e = elim (Bool-cases (set == got)) [
  | inl same ↦
      inl
        ((eq_iff set got).0 same, some-eq (sym (rw (lookup-insert set got value d, same) refl) ∙ e))
  | inr other ↦ inr (other, sym (rw (lookup-insert set got value d, other) refl) ∙ e)
]

pub lookup-insert-here :
    {V : Type 0} (key : String) (value : V) (d : Dict V)
    → lookup key (insert key value d) ≡ some value
lookup-insert-here key value d = rw (lookup-insert key key value d, (eq_iff key key).1 refl) refl

pub lookup-insert-other :
    {V : Type 0} (set got : String) (value : V) (d : Dict V)
    → (set == got) ≡ false
    → lookup got (insert set value d) ≡ lookup got d
lookup-insert-other set got value d other = rw (lookup-insert set got value d, other) refl
