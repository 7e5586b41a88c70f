-- ===== src/Shared/Json.antt =====
-- The values of `Record<string, unknown>`, object spread, and what survives a JSON column: the
-- composition of `toJsonText` and `fromJsonText` of core/storage/repos/_helpers.ts.
use Prim.Native.Nat.{ℕ}
use Prim.Native.String.{String}
use mathlib.Core.List.{List, [], ◌∷◌}
use mathlib.Core.Bool.{Bool}
use memos_qdrant.Shared.Tests.{string_eq}
use memos_qdrant.Shared.Keyed.{Map, set}

-- A double that the code carries and never computes with, as its bit pattern.
pub record Double : Type 0 where
  pub bits : ℕ

mutual
  pub data Value : Type 0 where
    undefined : Value
    null : Value
    bool : Bool → Value
    int : ℕ → Value
    num : Double → Value
    obj : Fields → Value
    arr : Items → Value
    str : String → Value

  pub data Fields : Type 0 where
    end : Fields
    field : String → Value → Fields → Fields

  pub data Items : Type 0 where
    nil : Items
    cons : Value → Items → Items

abbrev pub Meta : Type 0
Meta = Map String Value

-- `{ ...a, ...b }`
unfoldable pub spread : Meta → Meta → Meta
spread a [] = a
spread a ((k, v) ∷ b) = spread (set k v a) b

-- A property that holds `undefined` is dropped from an object.
unfoldable pub add_field : String → Value → Fields → Fields
add_field k undefined fs = fs
add_field k v fs = field k v fs

-- In an array, `undefined` becomes `null`.
unfoldable pub array_item : Value → Value
array_item undefined = null
array_item v = v

unfoldable mutual
  unfolding add_field array_item

  pub json_value : Value → Value
  json_value (arr xs) = arr (json_items xs)
  json_value (obj fs) = obj (json_fields fs)
  json_value v = v

  pub json_items : Items → Items
  json_items nil = nil
  json_items (cons v xs) = cons (array_item (json_value v)) (json_items xs)

  pub json_fields : Fields → Fields
  json_fields end = end
  json_fields (field k v fs) = add_field k (json_value v) (json_fields fs)

unfoldable pub add_entry : String → Value → Meta → Meta
add_entry k undefined m = m
add_entry k v m = (k, v) ∷ m

-- What a JSON column gives back for the object that was written.
unfoldable pub stored : Meta → Meta
unfolding add_entry
stored [] = []
stored ((k, v) ∷ m) = add_entry k (json_value v) (stored m)

pub strings : List String → Items
strings [] = nil
strings (s ∷ ss) = cons (str s) (strings ss)
