-- ===== src/Settings/References/Covering.antt =====
-- settings/storage/loader.py, _sensitive_validation: it finds every reference that an error may show.
use mountainash_transport.Prelude.{
  ℕ, zero, suc, ◌≡◌, ap, ◌∙◌, inl, inr, Bool, true, false, ◌&&◌, ◌||◌, List, [], ◌∷◌, string_eq,
  if◌then◌else◌, Option, none, some, pos, negsuc, arith, Bool-cases, Option-cases, ==_iff,
}
use mountainash_transport.Settings.References.{
  Part, key, index, same_part, Value, Fields, Items, Shape, is_reference, reference_shape,
  shape_fields, shape_items, has_reference, any_field, any_item, get, item, entry_at, implicated,
  Entry, sensitive_entry, is_empty,
}

-- What a mapping has for a key, and a list at a place.
unfoldable pub find : Part → Fields → Option Value
find p Fields.end = none
find p (Fields.field k v fs) = let rest = find p fs in if same_part p k then some v else rest

unfoldable pub nth : ℕ → Items → Option Value
nth n Items.nil = none
nth zero (Items.cons v vs) = some v
nth (suc n) (Items.cons v vs) = nth n vs

abbrev pub child : Part → Value → Option Value
child p (Value.model fs) = find p fs
child p (Value.dict fs) = find p fs
child (index (pos n)) (Value.list vs) = nth n vs
child p v = none

-- The value at a path.
unfoldable pub reads : Value → List Part → Option Value
reads v [] = some v
reads v (p ∷ ps) = elim (child p v) [ none ↦ none | some w ↦ reads w ps ]

abbrev pub is_reference_text : Option Value → Bool
is_reference_text (some (Value.text t)) = is_reference t
is_reference_text (some (Value.secret_str t)) = is_reference t
is_reference_text _ = false

-- Whether a value has a reference at a path.
abbrev pub refers : Value → List Part → Bool
refers v path = is_reference_text (reads v path)

-- Whether one of two paths goes on from the other.
abbrev pub meets : List Part → List Part → Bool
meets [] qs = true
meets (p ∷ ps) [] = true
meets (p ∷ ps) (q ∷ qs) = same_part p q && meets ps qs

same_part_sound : (p q : Part) → same_part p q ≡ true → p ≡ q
same_part_sound (key a) (key b) h = ap key ((string_eq.beq_iff a b).0 h)
same_part_sound (index (pos a)) (index (pos b)) h = ap (λ n. index (pos n)) ((==_iff a b).0 h)
same_part_sound (index (negsuc a)) (index (negsuc b)) h =
    ap (λ n. index (negsuc n)) ((==_iff a b).0 h)
same_part_sound (key a) (index b) h = ground (arith, h)
same_part_sound (index (pos a)) (key b) h = ground (arith, h)
same_part_sound (index (negsuc a)) (key b) h = ground (arith, h)
same_part_sound (index (pos a)) (index (negsuc b)) h = ground (arith, h)
same_part_sound (index (negsuc a)) (index (pos b)) h = ground (arith, h)

-- The shape of what a mapping or a list has.
pub get-find :
    (default : Shape) (p : Part) (fs : Fields) (w : Value)
    → find p fs ≡ some w
    → get default p (shape_fields fs) ≡ reference_shape w
unfolding find get shape_fields
get-find default p Fields.end w h = ground (arith, h)
get-find default p (Fields.field k v fs) w h = elim (Bool-cases (same_part p k)) [
  | inl a ↦ ground (arith, a, h)
  | inr a ↦ ground (arith, a, h, get-find default p fs w)
]

item-nth :
    (n : ℕ) (vs : Items) (w : Value)
    → nth n vs ≡ some w
    → item n (shape_items vs) ≡ some (reference_shape w)
unfolding nth item shape_items
item-nth n Items.nil w h = ground (arith, h)
item-nth zero (Items.cons v vs) w h = ground (arith, h)
item-nth (suc n) (Items.cons v vs) w h = item-nth n vs w h

any_field-find :
    (p : Part) (fs : Fields) (w : Value)
    → find p fs ≡ some w
    → has_reference (reference_shape w) ≡ true
    → any_field (shape_fields fs) ≡ true
unfolding find shape_fields has_reference
any_field-find p Fields.end w h r = ground (arith, h)
any_field-find p (Fields.field k v fs) w h r = elim (Bool-cases (same_part p k)) [
  | inl a ↦ ground (arith, a, h, r)
  | inr a ↦ ground (arith, a, h, r, any_field-find p fs w)
]

any_item-nth :
    (n : ℕ) (vs : Items) (w : Value)
    → nth n vs ≡ some w
    → has_reference (reference_shape w) ≡ true
    → any_item (shape_items vs) ≡ true
unfolding nth shape_items has_reference
any_item-nth n Items.nil w h r = ground (arith, h)
any_item-nth zero (Items.cons v vs) w h r = ground (arith, h, r)
any_item-nth (suc n) (Items.cons v vs) w h r = ground (arith, any_item-nth n vs w h r)

-- A value that has a reference at a path is no leaf without one, or has a child that has it.
pub refers-child :
    (v : Value) (p : Part) (ps : List Part)
    → refers v (p ∷ ps) ≡ true
    → (w : Value) × (child p v ≡ some w) × (refers w ps ≡ true)
unfolding reads
refers-child v p ps h = elim (Option-cases (child p v)) [
  | inl a ↦ absurd (ground (arith, a, h))
  | inr (w, a) ↦ (w, a, ground (arith, a, h))
]

has_reference-refers :
    (v : Value) (path : List Part) → refers v path ≡ true → has_reference (reference_shape v) ≡ true
unfolding reads reference_shape has_reference
has_reference-refers (Value.text t) [] h = h
has_reference-refers (Value.secret_str t) [] h = h
has_reference-refers Value.other [] h = ground (arith, h)
has_reference-refers (Value.model fs) [] h = ground (arith, h)
has_reference-refers (Value.dict fs) [] h = ground (arith, h)
has_reference-refers (Value.list vs) [] h = ground (arith, h)
has_reference-refers v (p ∷ ps) h =
    let (w, a, b) = refers-child v p ps h in below v p w a (has_reference-refers w ps b)
  where
    below :
        (v : Value) (p : Part) (w : Value)
        → child p v ≡ some w
        → has_reference (reference_shape w) ≡ true
        → has_reference (reference_shape v) ≡ true
    below (Value.text t) p w a r = ground (arith, a)
    below (Value.secret_str t) p w a r = ground (arith, a)
    below Value.other p w a r = ground (arith, a)
    below (Value.model fs) p w a r = any_field-find p fs w a r
    below (Value.dict fs) p w a r = any_field-find p fs w a r
    below (Value.list vs) (key k) w a r = ground (arith, a)
    below (Value.list vs) (index (pos n)) w a r = any_item-nth n vs w a r
    below (Value.list vs) (index (negsuc n)) w a r = ground (arith, a)

-- What the shape has at a location covers the references that the location leads to, or leads past.
implicated-refers :
    (v : Value) (location path : List Part)
    → meets location path ≡ true
    → refers v path ≡ true
    → has_reference (implicated (reference_shape v) location) ≡ true
unfolding implicated reads reference_shape has_reference entry_at
implicated-refers v [] path m h = has_reference-refers v path h
implicated-refers v (p ∷ ps) [] m h = here v h
  where
    here :
        (v : Value)
        → refers v [] ≡ true
        → has_reference (implicated (reference_shape v) (p ∷ ps)) ≡ true
    here (Value.text t) h = h
    here (Value.secret_str t) h = h
    here Value.other h = ground (arith, h)
    here (Value.model fs) h = ground (arith, h)
    here (Value.dict fs) h = ground (arith, h)
    here (Value.list vs) h = ground (arith, h)
implicated-refers v (p ∷ ps) (q ∷ qs) m h =
    let (w, a, b) = refers-child v q qs h in
    let same : p ≡ q = same_part_sound p q (ground (arith, m)) in
    let rest : meets ps qs ≡ true = ground (arith, m) in
    below v p w (ap (λ x. child x v) same ∙ a) (implicated-refers w ps qs rest b)
  where
    below :
        (v : Value) (p : Part) (w : Value)
        → child p v ≡ some w
        → has_reference (implicated (reference_shape w) ps) ≡ true
        → has_reference (implicated (reference_shape v) (p ∷ ps)) ≡ true
    below (Value.text t) p w a r = ground (arith, a)
    below (Value.secret_str t) p w a r = ground (arith, a)
    below Value.other p w a r = ground (arith, a)
    below (Value.model fs) p w a r = ground (arith, get-find (Shape.leaf false) p fs w a, r)
    below (Value.dict fs) p w a r = ground (arith, get-find (Shape.leaf false) p fs w a, r)
    below (Value.list vs) (key k) w a r = ground (arith, a)
    below (Value.list vs) (index (pos n)) w a r = ground (arith, item-nth n vs w a, r)
    below (Value.list vs) (index (negsuc n)) w a r = ground (arith, a)

-- An entry that is not sensitive leads to no reference and past none, and, where it may show the whole
-- value, there is none.
pub sensitive_entry-refers :
    (v : Value) (e : Entry) (path : List Part)
    → sensitive_entry (reference_shape v) e ≡ false
    → (is_empty e.location || e.missing || meets e.location path) ≡ true
    → refers v path ≡ false
unfolding sensitive_entry
sensitive_entry-refers v e path s m = elim (Bool-cases (refers v path)) [
  | inr a ↦ a
  | inl a ↦ elim (Bool-cases (is_empty e.location || e.missing)) [
    | inl b ↦ absurd (ground (arith, s, b, has_reference-refers v path a))
    | inr b ↦
        let c : meets e.location path ≡ true = ground (arith, b, m) in
        absurd (ground (arith, s, b, implicated-refers v e.location path c a))
  ]
]
