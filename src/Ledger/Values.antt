-- ===== src/Ledger/Values.antt =====
-- The details of a ledger's entry (app-server/src/context-lifecycle-ledger.mjs): values before and after
-- `json` has normalized them. `key_le` is the order in which `sort` puts the keys of an object.
use work_engine.Common.{
  ℕ, suc, Bool, false, Option, none, some, String, if◌then◌else◌, leb, max_safe_integer,
}

-- A number: n, -(n + 1), or one that is no integer.
pub data Number : Type 0 where
  whole minus : ℕ → Number
  fraction : Number

mutual
  pub data Value : Type 0 where
    null undefined other : Value
    bool : Bool → Value
    number : Number → Value
    text : String → Value
    array : Values → Value
    object : Members → Value

  pub data Values : Type 0 where
    nil : Values
    cons : Value → Values → Values

  pub data Members : Type 0 where
    end : Members
    member : String → Value → Members → Members

-- `Number.isSafeInteger`
unfoldable pub is_safe : Number → Bool
is_safe (whole n) = leb n max_safe_integer
is_safe (minus n) = leb (suc n) max_safe_integer
is_safe fraction = false

unfoldable pub both : {A B C : Type 0} → (A → B → C) → Option A → Option B → Option C
both f none p = none
both f (some a) none = none
both f (some a) (some b) = some (f a b)

unfoldable pub through : {A B : Type 0} → (A → B) → Option A → Option B
through f none = none
through f (some a) = some (f a)

-- A member is put before the first that its key does not follow.
unfoldable pub put_member : (String → String → Bool) → String → Value → Members → Members
put_member key_le k v end = member k v end
put_member key_le k v (member j w ms) =
    let rest = put_member key_le k v ms in
    if key_le k j then member k v (member j w ms) else member j w rest

-- `json`: none where it throws.
unfoldable mutual
  unfolding is_safe both through put_member

  pub json : (String → String → Bool) → Value → Option Value
  json key_le null = some null
  json key_le undefined = none
  json key_le other = none
  json key_le (bool b) = some (bool b)
  json key_le (number n) = if is_safe n then some (number n) else none
  json key_le (text s) = some (text s)
  json key_le (array vs) = through array (json_values key_le vs)
  json key_le (object ms) = through object (json_members key_le ms)

  pub json_values : (String → String → Bool) → Values → Option Values
  json_values key_le nil = some nil
  json_values key_le (cons v vs) = both cons (json key_le v) (json_values key_le vs)

  pub json_members : (String → String → Bool) → Members → Option Members
  json_members key_le end = some end
  json_members key_le (member k v ms) =
      both (put_member key_le k) (json key_le v) (json_members key_le ms)
