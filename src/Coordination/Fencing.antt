-- ===== src/Coordination/Fencing.antt =====
-- Fencing tokens: what a run of the store's operations does to the generation of a resource
-- (app-server/src/services/workspace-coordination/service.mjs).
use work_engine.Common.{
  ℕ, ◌+◌, ◌≤◌, ◌<◌, ◌≡◌, refl, sym, ◌∙◌, ap, subst, inl, inr, List, [], ◌∷◌, Option, none, some,
  String, Result, ok, err, arith, text_eq, text_eq_refl, text_eq_iff, Bool-cases, lookup, insert,
  lookup-insert, Dict, if◌then◌else◌, Post, returns, throws, Post-refuse, Post-require, Post->>=,
  Post-or_throw,
}
use work_engine.Common.Json.{Json}
use work_engine.Coordination.Contract.{Lease, Request, key_of, lease_of}
use work_engine.Coordination.{
  Slot, slot_of, Store, Outcome, blocked, acquired, acquire, acquire_slot, issue, unexpired,
  release, release_slot, matching, with_admission, current_lease, Mutation, save_publication,
  save_slot, Publication,
}

-- A call of the store.
pub data Call : Type 0 where
  acquires : Request → Call
  releases : Lease → Call
  admits : Lease → String → ℕ → Mutation → Call
  saves : String → Option String → String → Json → Call

abbrev pub kept : {E A : Type 0} → Store → Result E (Store × A) → Store
kept s (ok (s', a)) = s'
kept s (err e) = s

-- The store after a call, which a call that throws leaves as it was.
unfoldable pub call : Call → Store → Store
call (acquires r) s = (acquire r s).0
call (releases l) s = (release l s).0
call (admits l operation at mutate) s = kept s (with_admission l operation at mutate s)
call (saves operation expected revision json) s =
    kept s (save_publication operation expected revision json s)

unfoldable pub run_calls : List Call → Store → Store
unfolding call
run_calls [] s = s
run_calls (c ∷ cs) s = run_calls cs (call c s)

-- The last fencing token that was issued for a key.
unfoldable pub generation : String → Store → ℕ
generation key s = (slot_of (lookup key s.resources)).generation

generation-insert :
    (k j : String) (slot : Slot) (d : Dict Slot)
    → (slot_of (lookup j (insert k slot d))).generation
      ≡ (if text_eq k j then slot.generation else (slot_of (lookup j d)).generation)
unfolding slot_of
generation-insert k j slot d = elim (Bool-cases (text_eq k j)) [
  | inl same ↦ rw (lookup-insert k j slot d, same) refl
  | inr other ↦ rw (lookup-insert k j slot d, other) refl
]

-- What an acquisition does: nothing if it is blocked, and else it issues the next token.
abbrev Issues : Request → Store → Store × Outcome → Type 0
Issues r s (s', blocked l) = s' ≡ s
Issues r s (s', acquired l) =
    (l ≡ lease_of r (generation (key_of r.resource) s + 1))
    × (generation (key_of r.resource) s' ≡ l.fencing_token)
    × ((key : String) → generation key s ≤ generation key s')

insert-raises :
    (k j : String) (slot : Slot) (s : Store)
    → generation k s ≤ slot.generation
    → generation j s ≤ generation j (record s { resources = insert k slot s.resources })
unfolding generation
insert-raises k j slot s h = elim (Bool-cases (text_eq k j)) [
  | inl same ↦
      let before : generation j s ≤ slot.generation =
        subst (λ x. generation x s ≤ slot.generation) ((text_eq_iff k j).0 same) h in
      rw (generation-insert k j slot s.resources, same) before
  | inr other ↦ rw (generation-insert k j slot s.resources, other) (omega arith)
]

acquire-Issues : (r : Request) (s : Store) → Issues r s (acquire r s)
unfolding acquire issue generation
acquire-Issues r s =
    go (unexpired r.issued_at (slot_of (lookup (key_of r.resource) s.resources)).lease)
  where
    key : String
    key = key_of r.resource

    slot : Slot
    slot = slot_of (lookup key s.resources)

    go : (o : Option Lease) → Issues r s (acquire_slot r slot o s)
    go (some l) = refl
    go none = (
      refl,
      rw
          (
            generation-insert key key
                (record { generation = slot.generation + 1; lease = some (issue r slot) })
                s.resources,
            text_eq_refl key,
          )
          refl,
      λ j. insert-raises key j _ s (omega arith),
    )

Raises : Store → Store → Type 0
Raises s s' = (key : String) → generation key s ≤ generation key s'

Issues-Raises : (r : Request) (s : Store) (p : Store × Outcome) → Issues r s p → Raises s p.0
unfolding Raises
Issues-Raises r s (s', blocked l) i key = rw i (omega arith)
Issues-Raises r s (s', acquired l) (_, _, raises) key = raises key

matching-generation :
    (l : Lease) (o : Option Slot) (slot : Slot) → matching l o ≡ some slot → o ≡ some slot
unfolding matching
matching-generation l none slot e = e
matching-generation l (some slot') slot e = ground (arith, e)

release-Raises : (l : Lease) (s : Store) → Raises s (release l s).0
unfolding Raises release generation slot_of
release-Raises l s key = go (matching l (lookup (key_of l.resource) s.resources)) refl
  where
    go :
        (o : Option Slot)
        → matching l (lookup (key_of l.resource) s.resources) ≡ o
        → generation key s ≤ generation key (release_slot l o s).0
    go none e = omega arith
    go (some slot) e =
        let found = matching-generation l _ slot e in
        let same : generation (key_of l.resource) s ≤ slot.generation =
          rw (found, generation, slot_of) (omega arith) in
        insert-raises (key_of l.resource) key (record slot { lease = none }) s same

with_admission-Raises :
    (l : Lease) (operation : String) (at : ℕ) (mutate : Mutation) (s : Store)
    → Post (λ p. Raises s p.0) (with_admission l operation at mutate s)
unfolding with_admission Raises generation
with_admission-Raises l operation at mutate s = Post-refuse _ λ _.
    Post-or_throw _ λ held _. Post-require _ λ _. Post->>= λ result _. returns λ key. omega arith

save_publication-Raises :
    (operation : String) (expected : Option String) (revision : String) (json : Json) (s : Store)
    → Post (λ p. Raises s p.0) (save_publication operation expected revision json s)
unfolding save_publication Raises generation
save_publication-Raises operation expected revision json s = go (lookup operation s.publications)
  where
    go :
        (o : Option Publication)
        → Post (λ p. Raises s p.0) (save_slot operation expected revision json o s)
    go none = Post-require _ λ _. returns λ key. omega arith
    go (some old) = elim (Bool-cases (text_eq old.revision revision)) [
      | inl same ↦ rw same (returns λ key. omega arith)
      | inr other ↦ rw other (Post-require _ λ _. returns λ key. omega arith)
    ]

kept-Raises :
    {E A : Type 0} (s : Store) (r : Result E (Store × A))
    → Post (λ p. Raises s p.0) r
    → Raises s (kept s r)
unfolding Raises
kept-Raises s (ok (s', a)) (returns h) = h
kept-Raises s (err e) p = λ key. omega arith

call-Raises : (c : Call) (s : Store) → Raises s (call c s)
unfolding call
call-Raises (acquires r) s = Issues-Raises r s _ (acquire-Issues r s)
call-Raises (releases l) s = release-Raises l s
call-Raises (admits l operation at mutate) s =
    kept-Raises s _ (with_admission-Raises l operation at mutate s)
call-Raises (saves operation expected revision json) s =
    kept-Raises s _ (save_publication-Raises operation expected revision json s)

run_calls-Raises : (cs : List Call) (s : Store) → Raises s (run_calls cs s)
unfolding run_calls Raises
run_calls-Raises [] s key = omega arith
run_calls-Raises (c ∷ cs) s key =
    omega (arith, call-Raises c s key, run_calls-Raises cs (call c s) key)

acquired-Issues :
    (r : Request) (s s' : Store) (l : Lease)
    → acquire r s ≡ (s', acquired l)
    → Issues r s (s', acquired l)
acquired-Issues r s s' l e = subst (Issues r s) e (acquire-Issues r s)

-- Between two acquisitions of the same resource, whatever calls are made: the later lease has the
-- greater fencing token.
pub acquire-fences :
    (r r' : Request) (cs : List Call) (s s' s'' : Store) (l l' : Lease)
    → key_of r'.resource ≡ key_of r.resource
    → acquire r s ≡ (s', acquired l)
    → acquire r' (run_calls cs s') ≡ (s'', acquired l')
    → l.fencing_token < l'.fencing_token
unfolding lease_of Raises
acquire-fences r r' cs s s' s'' l l' same e e' =
    let (_, issued, _) = acquired-Issues r s s' l e in
    let (lease', _, _) = acquired-Issues r' (run_calls cs s') s'' l' e' in
    let raised = run_calls-Raises cs s' (key_of r.resource) in
    let token : l'.fencing_token ≡ generation (key_of r.resource) (run_calls cs s') + 1 =
      ap (λ x. x.fencing_token) lease' ∙ ap (λ k. generation k (run_calls cs s') + 1) same in
    omega (arith, issued, raised, token)

current_lease-token :
    (l held : Lease) (o : Option Slot)
    → current_lease l o ≡ some held
    → (slot_of o).generation ≡ l.fencing_token
unfolding current_lease slot_of
current_lease-token l held none e = cc
current_lease-token l held (some slot) e = ground (arith, e)

with_admission-current :
    (l : Lease) (operation : String) (at : ℕ) (mutate : Mutation) (s : Store)
    → Post
        (λ _. generation (key_of l.resource) s ≡ l.fencing_token)
        (with_admission l operation at mutate s)
unfolding with_admission generation
with_admission-current l operation at mutate s = Post-refuse _ λ _.
    Post-or_throw _
      λ held e. Post-require _ λ _. Post->>= λ result _. returns (current_lease-token l held _ e)

-- Once a later lease of a resource was acquired, no mutation is admitted under the earlier one,
-- whatever calls are made before and after the later acquisition.
pub superseded-refused :
    (r r' : Request) (cs cs' : List Call) (s s' s'' : Store) (l l' : Lease) (operation : String)
    (at : ℕ) (mutate : Mutation)
    → key_of r'.resource ≡ key_of r.resource
    → acquire r s ≡ (s', acquired l)
    → acquire r' (run_calls cs s') ≡ (s'', acquired l')
    → Post (λ _. ⊥) (with_admission l operation at mutate (run_calls cs' s''))
unfolding lease_of Raises
superseded-refused r r' cs cs' s s' s'' l l' operation at mutate same e e' =
    never _ (with_admission-current l operation at mutate (run_calls cs' s''))
  where
    stale : generation (key_of l.resource) (run_calls cs' s'') ≡ l.fencing_token → ⊥
    stale h =
        let (lease, _, _) = acquired-Issues r s s' l e in
        let (_, issued', _) = acquired-Issues r' (run_calls cs s') s'' l' e' in
        let newer = acquire-fences r r' cs s s' s'' l l' same e e' in
        let raised = run_calls-Raises cs' s'' (key_of r.resource) in
        let key : key_of l.resource ≡ key_of r.resource = ap (λ x. key_of x.resource) lease in
        let h' : generation (key_of r.resource) (run_calls cs' s'') ≡ l.fencing_token =
          sym (ap (λ k. generation k (run_calls cs' s'')) key) ∙ h in
        let issued : generation (key_of r.resource) s'' ≡ l'.fencing_token =
          sym (ap (λ k. generation k s'') same) ∙ issued' in
        omega (arith, newer, raised, h', issued)

    never :
        {E A : Type 0} (m : Result E A)
        → Post (λ _. generation (key_of l.resource) (run_calls cs' s'') ≡ l.fencing_token) m
        → Post (λ _. ⊥) m
    never (ok a) (returns h) = absurd (stale h)
    never (err x) p = throws
