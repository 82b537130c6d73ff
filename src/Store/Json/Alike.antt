-- ===== src/Store/Json/Alike.antt =====
-- store/messages.py, `_without_volatile`: values that differ in `file_reference` keys only.
use paperboy.Base.{◌≡◌, refl, Option, none, some, ap, Bool-cases, inl, inr}
use paperboy.Base.Text.{Text, codes}
use paperboy.Store.Json.{
  Json, Items, Fields, arr, obj, nil, cons, end, field, is_volatile, without_volatile,
  items_without, fields_without,
}

-- The same value, but that an object on either side, at any depth, may have fields
-- `file_reference` that the other has not, or has with another value.
mutual
  pub data AreAlike : Json → Json → Type 0 where
    same : (j : Json) → AreAlike j j
    arrays : (xs ys : Items) → AlikeItems xs ys → AreAlike (arr xs) (arr ys)
    objects : (fs gs : Fields) → AlikeFields fs gs → AreAlike (obj fs) (obj gs)

  pub data AlikeItems : Items → Items → Type 0 where
    no_items : AlikeItems nil nil
    item :
        (x y : Json) (xs ys : Items)
        → AreAlike x y
        → AlikeItems xs ys
        → AlikeItems (cons x xs) (cons y ys)

  pub data AlikeFields : Fields → Fields → Type 0 where
    no_fields : AlikeFields end end
    fields :
        (k : Text) (v w : Json) (fs gs : Fields)
        → AreAlike v w
        → AlikeFields fs gs
        → AlikeFields (field k v fs) (field k w gs)
    first_has :
        (v : Json) (fs gs : Fields)
        → AlikeFields fs gs
        → AlikeFields (field (codes "file_reference") v fs) gs
    second_has :
        (w : Json) (fs gs : Fields)
        → AlikeFields fs gs
        → AlikeFields fs (field (codes "file_reference") w gs)

field_lem :
    (k : Text) (v w : Json) (fs gs : Fields)
    → without_volatile v ≡ without_volatile w
    → fields_without fs ≡ fields_without gs
    → fields_without (field k v fs) ≡ fields_without (field k w gs)
unfolding fields_without
field_lem k v w fs gs e f = elim (Bool-cases (is_volatile k)) [
  | inl y ↦ rw y f
  | inr n ↦ rw (n, e, f) refl
]

mutual
  unfolding without_volatile items_without fields_without

  alike_lem : {x y : Json} → AreAlike x y → without_volatile x ≡ without_volatile y
  alike_lem (same j) = refl
  alike_lem (arrays xs ys h) = ap arr (items_lem h)
  alike_lem (objects fs gs h) = ap obj (fields_lem h)

  items_lem : {xs ys : Items} → AlikeItems xs ys → items_without xs ≡ items_without ys
  items_lem no_items = refl
  items_lem (item x y xs ys h hs) = rw (alike_lem h, items_lem hs) refl

  fields_lem : {fs gs : Fields} → AlikeFields fs gs → fields_without fs ≡ fields_without gs
  fields_lem no_fields = refl
  fields_lem (fields k v w fs gs h hs) = field_lem k v w fs gs (alike_lem h) (fields_lem hs)
  fields_lem (first_has v fs gs hs) = fields_lem hs
  fields_lem (second_has w fs gs hs) = fields_lem hs

-- Alike values are the same to `_without_volatile`.
pub AreAlike-without_volatile :
    (x y : Json) → AreAlike x y → without_volatile x ≡ without_volatile y
AreAlike-without_volatile x y h = alike_lem h

-- A value that may be missing.
abbrev pub IsAlike : Option Json → Option Json → Type 0
IsAlike none none = Unit
IsAlike none (some y) = ⊥
IsAlike (some x) none = ⊥
IsAlike (some x) (some y) = AreAlike x y
