-- ===== src/Settings/References.antt =====
-- settings/storage/loader.py: where the secret references of a configuration are, and which validation
-- errors may show one.
pub mod Covering
use mountainash_transport.Prelude.{
  ℕ, zero, suc, Bool, true, false, ◌&&◌, ◌||◌, List, [], ◌∷◌, String, ◌==◌, ◌is◌, string_eq,
  if◌then◌else◌, get_or_else, Option, none, some, Text, codes, ℤ, pos, negsuc,
}

-- A key of a mapping, or a place in a list.
pub data Part : Type 0 where
  key : String → Part
  index : ℤ → Part

abbrev pub same_part : Part → Part → Bool
same_part (key a) (key b) = a is b
same_part (index (pos a)) (index (pos b)) = a == b
same_part (index (negsuc a)) (index (negsuc b)) = a == b
same_part _ _ = false

-- A value of a configuration. A model is what its `model_dump` gives; a list may be a tuple.
mutual
  pub data Value : Type 0 where
    text : Text → Value
    secret_str : Text → Value
    other : Value
    model : Fields → Value
    dict : Fields → Value
    list : Items → Value

  pub data Fields : Type 0 where
    end : Fields
    field : Part → Value → Fields → Fields

  pub data Items : Type 0 where
    nil : Items
    cons : Value → Items → Items

-- The shape of a value: where its references are, without them.
mutual
  pub data Shape : Type 0 where
    leaf : Bool → Shape
    dict : ShapeFields → Shape
    list : ShapeItems → Shape

  pub data ShapeFields : Type 0 where
    end : ShapeFields
    field : Part → Shape → ShapeFields → ShapeFields

  pub data ShapeItems : Type 0 where
    nil : ShapeItems
    cons : Shape → ShapeItems → ShapeItems

abbrev pub starts_with : Text → Text → Bool
starts_with [] t = true
starts_with (c ∷ cs) [] = false
starts_with (c ∷ cs) (d ∷ ds) = (c == d) && starts_with cs ds

-- `value.startswith("secret:")`
abbrev pub is_reference : Text → Bool
is_reference = starts_with (codes "secret:")

unfoldable mutual
  pub reference_shape : Value → Shape
  reference_shape (text t) = Shape.leaf (is_reference t)
  reference_shape (secret_str t) = Shape.leaf (is_reference t)
  reference_shape other = Shape.leaf false
  reference_shape (model fs) = Shape.dict (shape_fields fs)
  reference_shape (dict fs) = Shape.dict (shape_fields fs)
  reference_shape (list vs) = Shape.list (shape_items vs)

  pub shape_fields : Fields → ShapeFields
  shape_fields end = ShapeFields.end
  shape_fields (field k v fs) = ShapeFields.field k (reference_shape v) (shape_fields fs)

  pub shape_items : Items → ShapeItems
  shape_items nil = ShapeItems.nil
  shape_items (cons v vs) = ShapeItems.cons (reference_shape v) (shape_items vs)

unfoldable mutual
  pub has_reference : Shape → Bool
  has_reference (leaf b) = b
  has_reference (dict fs) = any_field fs
  has_reference (list ss) = any_item ss

  pub any_field : ShapeFields → Bool
  any_field end = false
  any_field (field k s fs) = has_reference s || any_field fs

  pub any_item : ShapeItems → Bool
  any_item nil = false
  any_item (cons s ss) = has_reference s || any_item ss

-- `fields.get(part, default)`
unfoldable pub get : Shape → Part → ShapeFields → Shape
get default p end = default
get default p (field k s fs) = let rest = get default p fs in if same_part p k then s else rest

-- `implicated[part]`, where the list has it.
unfoldable pub item : ℕ → ShapeItems → Option Shape
item n nil = none
item zero (cons s ss) = some s
item (suc n) (cons s ss) = item n ss

-- The part of a list's shape that a part of a location names, none where the loop breaks.
unfoldable pub entry_at : Part → ShapeItems → Option Shape
entry_at (key k) ss = none
entry_at (index (negsuc n)) ss = none
entry_at (index (pos n)) ss = item n ss

-- `for part in location`
unfoldable pub implicated : Shape → List Part → Shape
implicated s [] = s
implicated (leaf b) (p ∷ ps) = leaf b
implicated (dict fs) (p ∷ ps) = implicated (get (leaf false) p fs) ps
implicated (list ss) (p ∷ ps) = elim (entry_at p ss) [ none ↦ list ss | some s ↦ implicated s ps ]

-- An entry of a validation error.
pub record Entry : Type 0 where
  pub location : List Part
  pub missing : Bool

abbrev pub is_empty : List Part → Bool
is_empty [] = true
is_empty (p ∷ ps) = false

unfoldable pub sensitive_entry : Shape → Entry → Bool
sensitive_entry shape e =
    if is_empty e.location || e.missing
    then has_reference shape
    else has_reference (implicated shape e.location)

-- `_sensitive_validation`
unfoldable pub sensitive_validation : List Entry → Shape → Bool
sensitive_validation [] shape = false
sensitive_validation (e ∷ es) shape = sensitive_entry shape e || sensitive_validation es shape
