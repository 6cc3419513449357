-- ===== src/Ledger/Normal.antt =====
-- What `json` has normalized stays as it is (app-server/src/context-lifecycle-ledger.mjs).
use work_engine.Common.{
  ◌≡◌, refl, ap, subst, inl, inr, Bool, true, false, Option, none, some, String, some-eq,
  Bool-cases,
}
use work_engine.Common.{if◌then◌else◌}
use work_engine.Ledger.Values.{
  Number, Value, null, undefined, other, bool, number, text, array, object, Values, nil, cons,
  Members, end, member, is_safe, both, through, put_member, json, json_values, json_members,
}

both-some :
    {A B C : Type 0} (f : A → B → C) (o : Option A) (p : Option B) (c : C)
    → both f o p ≡ some c
    → (a : A) × (b : B) × (o ≡ some a) × (p ≡ some b) × (f a b ≡ c)
unfolding both
both-some f none p c e = absurd (cc)
both-some f (some a) none c e = absurd (cc)
both-some f (some a) (some b) c e = (a, b, refl, refl, some-eq e)

pub through-some :
    {A B : Type 0} (f : A → B) (o : Option A) (c : B)
    → through f o ≡ some c
    → (a : A) × (o ≡ some a) × (f a ≡ c)
unfolding through
through-some f none c e = absurd (cc)
through-some f (some a) c e = (a, refl, some-eq e)

pub some_null : (b : Bool) (v w : Value) → (if b then some v else none) ≡ some w → v ≡ w
some_null true v w e = some-eq e
some_null false v w e = absurd (cc)

safe-kept :
    (n : Number) (v : Value) (b : Bool)
    → (if b then some (number n) else none) ≡ some v
    → (b ≡ true) × (number n ≡ v)
safe-kept n v true e = (refl, some-eq e)
safe-kept n v false e = absurd (cc)

module _ (key_le : String → String → Bool)
    (total : (j k : String) → key_le j k ≡ false → key_le k j ≡ true) where
  -- A key that does not follow the first one.
  abbrev Leads : String → Members → Type 0
  Leads k end = Unit {0}
  Leads k (member j v ms) = key_le k j ≡ true

  -- Normalized members, in the order of their keys.
  abbrev IsNormal : Members → Type 0
  IsNormal end = Unit {0}
  IsNormal (member k v ms) = (json key_le v ≡ some v) × Leads k ms × IsNormal ms

  put_member-Leads :
      (j k : String) (v : Value) (ms : Members)
      → Leads j ms
      → key_le j k ≡ true
      → Leads j (put_member key_le k v ms)
  unfolding put_member
  put_member-Leads j k v end h e = e
  put_member-Leads j k v (member i w ms) h e = elim (Bool-cases (key_le k i)) [
    | inl first ↦ rw first e
    | inr later ↦ rw later h
  ]

  put_member-IsNormal :
      (k : String) (v : Value) (ms : Members)
      → json key_le v ≡ some v
      → IsNormal ms
      → IsNormal (put_member key_le k v ms)
  unfolding put_member
  put_member-IsNormal k v end e n = (e, tt, tt)
  put_member-IsNormal k v (member j w ms) e (f, h, n) = elim (Bool-cases (key_le k j)) [
    | inl first ↦ rw first (e, first, (f, h, n))
    | inr later ↦
        rw later (f, put_member-Leads j k v ms h (total k j later), put_member-IsNormal k v ms e n)
  ]

  put_first :
      (k : String) (v : Value) (ms : Members)
      → Leads k ms
      → put_member key_le k v ms ≡ member k v ms
  unfolding put_member
  put_first k v end h = refl
  put_first k v (member j w ms) h = rw h refl

  IsNormal-json : (ms : Members) → IsNormal ms → json_members key_le ms ≡ some ms
  unfolding json_members json json_values both
  IsNormal-json end n = refl
  IsNormal-json (member k v ms) (e, h, n) =
      rw (e, IsNormal-json ms n) (ap some (put_first k v ms h))

  mutual
    unfolding json json_values json_members both through

    pub json-again : (v w : Value) → json key_le v ≡ some w → json key_le w ≡ some w
    json-again null w e = subst (λ x. json key_le x ≡ some x) (some-eq e) refl
    json-again undefined w e = absurd (cc)
    json-again other w e = absurd (cc)
    json-again (bool b) w e = subst (λ x. json key_le x ≡ some x) (some-eq e) refl
    json-again (number n) w e =
        let (safe, same) = safe-kept n w (is_safe n) e in
        subst (λ x. json key_le x ≡ some x) same (rw safe refl)
    json-again (text s) w e = subst (λ x. json key_le x ≡ some x) (some-eq e) refl
    json-again (array vs) w e =
        let (ws, h, same) = through-some array (json_values key_le vs) w e in
        subst (λ x. json key_le x ≡ some x) same (ap (through array) (json_values-again vs ws h))
    json-again (object ms) w e =
        let (ns, h, same) = through-some object (json_members key_le ms) w e in
        subst (λ x. json key_le x ≡ some x) same
          (ap (through object) (IsNormal-json ns (json_members-IsNormal ms ns h)))

    json_values-again :
        (vs ws : Values) → json_values key_le vs ≡ some ws → json_values key_le ws ≡ some ws
    json_values-again nil ws e = subst (λ x. json_values key_le x ≡ some x) (some-eq e) refl
    json_values-again (cons v vs) ws e =
        let (x, xs, h, hs, same) = both-some cons (json key_le v) (json_values key_le vs) ws e in
        subst (λ y. json_values key_le y ≡ some y) same
          (rw (json-again v x h, json_values-again vs xs hs) refl)

    json_members-IsNormal : (ms ns : Members) → json_members key_le ms ≡ some ns → IsNormal ns
    json_members-IsNormal end ns e = subst IsNormal (some-eq e) tt
    json_members-IsNormal (member k v ms) ns e =
        let (x, xs, h, hs, same) =
          both-some (put_member key_le k) (json key_le v) (json_members key_le ms) ns e in
        subst IsNormal same
          (put_member-IsNormal k x xs (json-again v x h) (json_members-IsNormal ms xs hs))
