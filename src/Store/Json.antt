-- ===== src/Store/Json.antt =====
-- JSON values, and store/messages.py, `_without_volatile`.
pub mod Alike
use paperboy.Base.{Bool, true, false, ◌≡◌, refl, arith, if◌then◌else◌}
use paperboy.Base.Text.{Text, codes, text_eq}

mutual
  pub data Json : Type 0 where
    null : Json
    bool : Bool → Json
    num : Text → Json
    str : Text → Json
    arr : Items → Json
    obj : Fields → Json

  pub data Items : Type 0 where
    nil : Items
    cons : Json → Items → Items

  pub data Fields : Type 0 where
    end : Fields
    field : Text → Json → Fields → Fields

-- `_VOLATILE_KEYS`
abbrev pub is_volatile : Text → Bool
is_volatile k = text_eq k (codes "file_reference")

unfoldable mutual
  pub without_volatile : Json → Json
  without_volatile null = null
  without_volatile (bool b) = bool b
  without_volatile (num n) = num n
  without_volatile (str s) = str s
  without_volatile (arr xs) = arr (items_without xs)
  without_volatile (obj fs) = obj (fields_without fs)

  pub items_without : Items → Items
  items_without nil = nil
  items_without (cons x xs) = cons (without_volatile x) (items_without xs)

  pub fields_without : Fields → Fields
  fields_without end = end
  fields_without (field k v fs) =
      if is_volatile k then fields_without fs else field k (without_volatile v) (fields_without fs)

-- No key of the value, at any depth, is volatile.
unfoldable mutual
  pub is_stable : Json → Bool
  is_stable null = true
  is_stable (bool b) = true
  is_stable (num n) = true
  is_stable (str s) = true
  is_stable (arr xs) = items_stable xs
  is_stable (obj fs) = fields_stable fs

  pub items_stable : Items → Bool
  items_stable nil = true
  items_stable (cons x xs) = if is_stable x then items_stable xs else false

  pub fields_stable : Fields → Bool
  fields_stable end = true
  fields_stable (field k v fs) =
      if is_volatile k then false else if is_stable v then fields_stable fs else false

mutual
  unfolding without_volatile items_without fields_without is_stable items_stable fields_stable

  stable_lem : (j : Json) → is_stable (without_volatile j) ≡ true
  stable_lem null = refl
  stable_lem (bool b) = refl
  stable_lem (num n) = refl
  stable_lem (str s) = refl
  stable_lem (arr xs) = items_lem xs
  stable_lem (obj fs) = fields_lem fs

  items_lem : (xs : Items) → items_stable (items_without xs) ≡ true
  items_lem nil = refl
  items_lem (cons x xs) = rw (stable_lem x) (items_lem xs)

  fields_lem : (fs : Fields) → fields_stable (fields_without fs) ≡ true
  fields_lem end = refl
  fields_lem (field k v fs) = ground (arith, stable_lem v, fields_lem fs)

mutual
  unfolding without_volatile items_without fields_without is_stable items_stable fields_stable

  unchanged_lem : (j : Json) → is_stable j ≡ true → without_volatile j ≡ j
  unchanged_lem null h = refl
  unchanged_lem (bool b) h = refl
  unchanged_lem (num n) h = refl
  unchanged_lem (str s) h = refl
  unchanged_lem (arr xs) h = cc (items_unchanged xs h)
  unchanged_lem (obj fs) h = cc (fields_unchanged fs h)

  items_unchanged : (xs : Items) → items_stable xs ≡ true → items_without xs ≡ xs
  items_unchanged nil h = refl
  items_unchanged (cons x xs) h = ground (arith, unchanged_lem x, items_unchanged xs)

  fields_unchanged : (fs : Fields) → fields_stable fs ≡ true → fields_without fs ≡ fs
  fields_unchanged end h = refl
  fields_unchanged (field k v fs) h = ground (arith, unchanged_lem v, fields_unchanged fs)

-- What `_without_volatile` returns has no volatile key at any depth.
pub is_stable-without_volatile : (j : Json) → is_stable (without_volatile j) ≡ true
is_stable-without_volatile j = stable_lem j

-- A value that has no volatile key is left as it is.
pub without_volatile_stable : (j : Json) → is_stable j ≡ true → without_volatile j ≡ j
without_volatile_stable j h = unchanged_lem j h
