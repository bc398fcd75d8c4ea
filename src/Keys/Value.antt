-- ===== src/Keys/Value.antt =====
-- The values that a key is made of, as encodeKeyValue of packages/core/src/keys/key.ts tells them
-- apart, and the errors of packages/core/src/keys/errors.ts.
use frond.Shared.{ℕ, Bool, true, false, List}

-- A text of JavaScript: its UTF-16 code units.
abbrev pub Text : Type 0
Text = List ℕ

-- A finite number is its 64 bits.
pub data KeyNumber : Type 0 where
  nan : KeyNumber
  infinite : Bool → KeyNumber
  finite : ℕ → KeyNumber

pub data Prototype : Type 0 where
  object_prototype null_prototype other_prototype : Prototype

-- `other` is a function, a symbol or a bigint. An array may have holes. The fields of an object are
-- its own enumerable properties under text keys.
mutual
  pub data KeyInput : Type 0 where
    undefined null other : KeyInput
    string : Text → KeyInput
    boolean : Bool → KeyInput
    number : KeyNumber → KeyInput
    array : KeyItems → KeyInput
    object : Prototype → KeyFields → KeyInput

  pub data KeyItems : Type 0 where
    no_items : KeyItems
    item : KeyInput → KeyItems → KeyItems
    hole : KeyItems → KeyItems

  pub data KeyFields : Type 0 where
    no_fields : KeyFields
    field : Text → KeyInput → KeyFields → KeyFields

pub data KeyError : Type 0 where
  non_finite_number : Text → KeyNumber → KeyError
  too_long : ℕ → ℕ → KeyError
  unsupported_json_value : Text → KeyError

pub data KeyResult {ℓ} (A : Type ℓ) : Type ℓ where
  ok : A → KeyResult A
  err : KeyError → KeyResult A

module _ {ℓ κ} {A : Type ℓ} {B : Type κ} where
  abbrev pub bind : KeyResult A → (A → KeyResult B) → KeyResult B
  bind (ok a) f = f a
  bind (err e) f = err e

  abbrev pub map_ok : (A → B) → KeyResult A → KeyResult B
  map_ok f (ok a) = ok (f a)
  map_ok f (err e) = err e

-- Object.getPrototypeOf(value) is Object.prototype or null.
abbrev pub is_plain : Prototype → Bool
is_plain object_prototype = true
is_plain null_prototype = true
is_plain other_prototype = false
