-- ===== src/Bindings/Keys.antt =====
-- An object keyed by pairs of texts, in insertion order (app-server/src/role-binding-registry.mjs
-- keys its deliveries by a JSON array of two texts).
use work_engine.Common.{
  ◌≡◌, some-eq, refl, sym, ◌∙◌, ap, subst, inl, inr, Bool, true, ◌&&◌, List, [], ◌∷◌, Option, none,
  some, String, arith, text_eq, text_eq_iff, if◌then◌else◌, Bool-cases,
}

abbrev pub Keyed : Type 0 → Type 0
Keyed V = List ((String × String) × V)

abbrev pub same_key : String × String → String → String → Bool
same_key k a b = text_eq k.0 a && text_eq k.1 b

pub same_key-eq :
    (k : String × String) (a b : String) → same_key k a b ≡ true → (k.0 ≡ a) × (k.1 ≡ b)
same_key-eq (i, j) a b h = (ground (arith, text_eq_iff i a, h), ground (arith, text_eq_iff j b, h))

module _ {V : Type 0} where
  unfoldable pub key_lookup : String → String → Keyed V → Option V
  key_lookup a b [] = none
  key_lookup a b ((k, v) ∷ m) = if same_key k a b then some v else key_lookup a b m

  unfoldable pub key_insert : String → String → V → Keyed V → Keyed V
  key_insert a b v [] = ((a, b), v) ∷ []
  key_insert a b v ((k, w) ∷ m) = if same_key k a b then (k, v) ∷ m else (k, w) ∷ key_insert a b v m

  pub lookup-key_insert :
      (a b c d : String) (v : V) (m : Keyed V)
      → key_lookup c d (key_insert a b v m)
        ≡ (if same_key (a, b) c d then some v else key_lookup c d m)
  unfolding key_lookup key_insert
  lookup-key_insert a b c d v [] = refl
  lookup-key_insert a b c d v (((i, j), w) ∷ m) = ground (
    arith,
    text_eq_iff a c,
    text_eq_iff b d,
    text_eq_iff i a,
    text_eq_iff j b,
    text_eq_iff i c,
    text_eq_iff j d,
    lookup-key_insert a b c d v m,
  )

  -- What holds of a new value and of all that were there holds of all after an insertion.
  pub key_insert-Every :
      (P : String → String → V → Type 0) (a b : String) (v : V) (m : Keyed V)
      → P a b v
      → ((c d : String) (w : V) → key_lookup c d m ≡ some w → P c d w)
      → (c d : String) (w : V) → key_lookup c d (key_insert a b v m) ≡ some w
      → P c d w
  key_insert-Every P a b v m new old c d w e = elim (Bool-cases (same_key (a, b) c d)) [
    | inl same ↦
        let (i, j) = same_key-eq (a, b) c d same in
        subst (P c d) (some-eq (sym (rw (lookup-key_insert a b c d v m, same) refl) ∙ e))
          (subst (λ y. P c y v) j (subst (λ x. P x b v) i new))
    | inr other ↦ old c d w (sym (rw (lookup-key_insert a b c d v m, other) refl) ∙ e)
  ]

  -- The first entry whose value passes a test.
  unfoldable pub find_entry : (V → Bool) → Keyed V → Option ((String × String) × V)
  find_entry p [] = none
  find_entry p ((k, v) ∷ m) = if p v then some (k, v) else find_entry p m

  entry-eq :
      {i j a b : String} {v w : V}
      → ◌≡◌ {A = Option ((String × String) × V)} (some ((i, j), v)) (some ((a, b), w))
      → (i ≡ a) × (j ≡ b) × (v ≡ w)
  entry-eq e = (cc, cc, cc)

  -- No key twice.
  abbrev pub Distinct : Keyed V → Type 0
  Distinct [] = Unit
  Distinct ((k, v) ∷ m) = (key_lookup k.0 k.1 m ≡ none) × Distinct m

  pub key_insert-Distinct :
      (a b : String) (v : V) (m : Keyed V) → Distinct m → Distinct (key_insert a b v m)
  unfolding key_insert key_lookup
  key_insert-Distinct a b v [] h = (refl, tt)
  key_insert-Distinct a b v (((i, j), w) ∷ m) (fresh, h) = elim (Bool-cases (same_key (i, j) a b)) [
    | inl same ↦ rw same (fresh, h)
    | inr other ↦ rw other (
        (
          ground (
            arith,
            text_eq_iff a i,
            text_eq_iff b j,
            text_eq_iff i a,
            text_eq_iff j b,
            lookup-key_insert a b i j v m,
            fresh,
            other,
          ),
          key_insert-Distinct a b v m h,
        ))
  ]

  -- What a search finds is what its key gives.
  pub find_entry-lookup :
      (p : V → Bool) (m : Keyed V) (a b : String) (v : V)
      → Distinct m
      → find_entry p m ≡ some ((a, b), v)
      → (key_lookup a b m ≡ some v) × (p v ≡ true)
  unfolding key_lookup find_entry
  find_entry-lookup p [] a b v h e = cc
  find_entry-lookup p (((i, j), w) ∷ m) a b v (fresh, h) e = elim (Bool-cases (p w)) [
    | inl hit ↦
        let (same_i, same_j, same_v) = entry-eq {i = i} {j = j} {v = w} (sym (rw hit refl) ∙ e) in
        let same : same_key (i, j) a b ≡ true =
          ground (arith, text_eq_iff i a, text_eq_iff j b, same_i, same_j) in
        (rw same (ap some same_v), subst (λ x. p x ≡ true) same_v hit)
    | inr miss ↦
        let (found, good) = find_entry-lookup p m a b v h (sym (rw miss refl) ∙ e) in
        (
          elim (Bool-cases (same_key (i, j) a b)) [
            | inl same ↦
                let (x, y) = same_key-eq (i, j) a b same in
                let fresh' =
                  subst (λ y'. key_lookup a y' m ≡ none) y
                    (subst (λ x'. key_lookup x' j m ≡ none) x fresh) in
                absurd (cc)
            | inr other ↦ rw other found
          ],
          good,
        )
  ]
