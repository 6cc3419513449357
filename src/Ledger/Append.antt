-- ===== src/Ledger/Append.antt =====
-- What an append to a ledger gives (app-server/src/context-lifecycle-ledger.mjs).
use work_engine.Common.{
  ℕ, ◌+◌, ◌<◌, ◌≤◌, ◌≡◌, refl, true, false, Option, none, some, String, ok, arith, checks,
  text_eq_refl, RawNumber, int, safe_between, max_safe_integer, is_sha_revision, Post, returns,
  Post-require, Post->>=, Post->>, Post-or_throw, Post-ok,
}
use work_engine.Ledger.{
  Host, RawInput, Body, Entry, raw_of, entry_of, normalize_input, links, validate_entry, append,
  follows, verify_entry,
}
use work_engine.Ledger.Chain.{normalize_input-again}

-- A body whose revision has the form of one gives a valid entry.
entry_of-valid :
    (revision_for : Body → String) (host : Host) (b : Body)
    → is_sha_revision (revision_for b) ≡ true
    → safe_between 1 none (int b.sequence) ≡ some b.sequence
    → links b.sequence b.previous_revision ≡ ok tt
    → normalize_input host (raw_of b.input) ≡ ok b.input
    → validate_entry revision_for host (entry_of revision_for b) ≡ ok b
unfolding validate_entry entry_of checks
entry_of-valid revision_for host b sha number linked normal =
    rw (number, linked, sha, normal, text_eq_refl (revision_for b)) refl

-- What is known of a valid entry's body.
validate_entry-bounds :
    (revision_for : Body → String) (host : Host) (e : Entry)
    → Post
        (λ b. (1 ≤ b.sequence) × (is_sha_revision e.entry_revision ≡ true))
        (validate_entry revision_for host e)
unfolding validate_entry safe_between
validate_entry-bounds revision_for host e = Post-require _ λ schema. Post-or_throw _ λ n number.
    Post->> λ _. Post-require _ λ sha.
      Post->>=
        λ i normal. Post-require _ λ revision. returns (at_least_one e.sequence n number, sha)
  where
    at_least_one : (v : RawNumber) (n : ℕ) → safe_between 1 none v ≡ some n → 1 ≤ n
    at_least_one (int m) n h = ground (arith, h)
    at_least_one RawNumber.negative n h = cc
    at_least_one RawNumber.not_integer n h = cc

safe_sequence : (n : ℕ) → 1 ≤ n → n ≤ max_safe_integer → safe_between 1 none (int n) ≡ some n
unfolding safe_between
safe_sequence n lo hi = ground (arith, lo, hi)

later_links :
    (n : ℕ) (r : String) → 1 ≤ n → is_sha_revision r ≡ true → links (n + 1) (some r) ≡ ok tt
unfolding links checks
later_links n r lo sha = ground (arith, lo, sha)

first_safe : safe_between 1 none (int 1) ≡ some 1
unfolding safe_between
first_safe = refl

first_links : links 1 none ≡ ok tt
unfolding links checks
first_links = refl

-- If every revision has the form of one and `sort` compares any two keys, an entry appended to nothing, or to an entry whose
-- sequence is below the greatest safe integer, verifies against the entry it was appended to.
pub append-verifies :
    (revision_for : Body → String) (host : Host) (previous : Option Entry) (v : RawInput)
    → ((b : Body) → is_sha_revision (revision_for b) ≡ true)
    → ((j k : String) → host.key_le j k ≡ false → host.key_le k j ≡ true)
    → ((p : Entry) (b : Body)
        → previous ≡ some p
        → validate_entry revision_for host p ≡ ok b
        → b.sequence < max_safe_integer)
    → Post
        (λ e. verify_entry revision_for host e previous ≡ true)
        (append revision_for host previous v)
unfolding append verify_entry follows
append-verifies revision_for host none v sha total room = Post->>= λ i normal.
    let again = Post-ok (normalize_input-again host v total) normal in
    let b : Body = record { sequence = 1; previous_revision = none; input = i } in
    returns (
      rw (verify_entry, entry_of-valid revision_for host b (sha b) first_safe first_links again)
        refl)
append-verifies revision_for host (some p) v sha total room = Post->>= λ i normal.
    Post->>= λ before valid.
      let again = Post-ok (normalize_input-again host v total) normal in
      let (lo, good) = Post-ok (validate_entry-bounds revision_for host p) valid in
      let b : Body = record {
        sequence = before.sequence + 1;
        previous_revision = some p.entry_revision;
        input = i;
      } in
      let below = room p before refl valid in
      let valid' =
        entry_of-valid revision_for host b (sha b)
          (safe_sequence (before.sequence + 1) (omega (arith, lo)) (omega (arith, below)))
          (later_links before.sequence p.entry_revision lo good) again in
      returns (rw (verify_entry, valid', valid, text_eq_refl p.entry_revision) (ground arith))
