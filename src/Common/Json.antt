-- ===== src/Common/Json.antt =====
-- JSON values, for what a component stores without reading it.
use Prim.Native.Nat.{ℕ}
use Prim.Native.String.{String}
use text.Mathlib.Text.{◌==◌}
use mathlib.Core.Bool.{Bool}
use work_engine.Common.Tests.{if◌then◌else◌}

mutual
  pub data Json : Type 0 where
    null : Json
    bool : Bool → Json
    num : ℕ → Json
    str : String → Json
    arr : Items → Json
    obj : Fields → Json

  pub data Items : Type 0 where
    nil : Items
    cons : Json → Items → Items

  pub data Fields : Type 0 where
    end : Fields
    field : String → Json → Fields → Fields

unfoldable pub field_or_null : String → Fields → Json
field_or_null k end = null
field_or_null k (field j v fs) = if j == k then v else field_or_null k fs

-- `value.key ?? null`
unfoldable pub get_or_null : String → Json → Json
unfolding field_or_null
get_or_null k (obj fs) = field_or_null k fs
get_or_null k null = null
get_or_null k (bool b) = null
get_or_null k (num n) = null
get_or_null k (str s) = null
get_or_null k (arr xs) = null
