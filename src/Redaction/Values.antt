-- ===== src/Redaction/Values.antt =====
-- Laws of `redact_value` and `redact_headers`.
use ai_test.Base.{
  String, ◌≡◌, refl, ap, Bool, true, false, Option, none, some, [], ◌∷◌, arith, eq_iff,
  if◌then◌else◌, inl, inr, Bool-cases,
}
use ai_test.Base.Int.{ℤ}
use ai_test.Base.Dict
use ai_test.Base.Dict.{Dict}
use ai_test.Json.{
  Value, null, bool, int, float, str, list, dict, Items, nil, cons, Fields, end, field,
}
use ai_test.Redaction.{
  mask, is_sensitive_key, hides, redact_headers, redact_inside, redact_items, redact_fields,
  redact_value,
}

module _ (lower : String → String) {F : Type 0} where
  -- Values that may differ under sensitive keys, and nowhere else.
  mutual
    pub data SameOutside : Value F → Value F → Type 0 where
      same_null : SameOutside null null
      same_bool : (b : Bool) → SameOutside (bool b) (bool b)
      same_int : (n : ℤ) → SameOutside (int n) (int n)
      same_float : (x : F) → SameOutside (float x) (float x)
      same_str : (s : String) → SameOutside (str s) (str s)
      same_list : {vs ws : Items F} → SameItems vs ws → SameOutside (list vs) (list ws)
      same_dict : {fs gs : Fields F} → SameFields fs gs → SameOutside (dict fs) (dict gs)

    pub data SameItems : Items F → Items F → Type 0 where
      same_nil : SameItems nil nil
      same_cons :
          {v w : Value F} {vs ws : Items F}
          → SameOutside v w
          → SameItems vs ws
          → SameItems (cons v vs) (cons w ws)

    pub data SameFields : Fields F → Fields F → Type 0 where
      same_end : SameFields end end
      same_field :
          {v w : Value F} {fs gs : Fields F} (k : String)
          → SameOutside v w
          → SameFields fs gs
          → SameFields (field k v fs) (field k w gs)
      secret_field :
          {fs gs : Fields F} (k : String) (v w : Value F)
          → is_sensitive_key lower k ≡ true
          → SameFields fs gs
          → SameFields (field k v fs) (field k w gs)

  mutual
    unfolding redact_inside

    redact_inside-SameOutside :
        {v w : Value F} → SameOutside v w → redact_inside lower v ≡ redact_inside lower w
    redact_inside-SameOutside same_null = refl
    redact_inside-SameOutside (same_bool b) = refl
    redact_inside-SameOutside (same_int n) = refl
    redact_inside-SameOutside (same_float x) = refl
    redact_inside-SameOutside (same_str s) = refl
    redact_inside-SameOutside (same_list h) = ap list (redact_items-SameItems h)
    redact_inside-SameOutside (same_dict h) = ap dict (redact_fields-SameFields h)

    redact_items-SameItems :
        {vs ws : Items F} → SameItems vs ws → redact_items lower vs ≡ redact_items lower ws
    redact_items-SameItems same_nil = refl
    redact_items-SameItems (same_cons h t) =
        cc (redact_inside-SameOutside h, redact_items-SameItems t)

    redact_fields-SameFields :
        {fs gs : Fields F} → SameFields fs gs → redact_fields lower fs ≡ redact_fields lower gs
    redact_fields-SameFields same_end = refl
    redact_fields-SameFields (same_field k h t) =
        cc (redact_inside-SameOutside h, redact_fields-SameFields t)
    redact_fields-SameFields (secret_field k v w s t) =
        rw s (ap (field k (str mask)) (redact_fields-SameFields t))

  -- Redaction leaks nothing of what stands under a sensitive key, at any depth: values that differ
  -- only there have the same redacted form.
  pub redact_value-SameOutside :
      (v w : Value F) (key : Option String)
      → SameOutside v w
      → redact_value lower v key ≡ redact_value lower w key
  unfolding redact_value
  redact_value-SameOutside v w key h =
      ap (λ r. if hides lower key then str mask else r) (redact_inside-SameOutside h)

  -- At any depth, a sensitive key has the mask as its value.
  mutual
    pub data IsMasked : Value F → Type 0 where
      masked_null : IsMasked null
      masked_bool : (b : Bool) → IsMasked (bool b)
      masked_int : (n : ℤ) → IsMasked (int n)
      masked_float : (x : F) → IsMasked (float x)
      masked_str : (s : String) → IsMasked (str s)
      masked_list : {vs : Items F} → AreMasked vs → IsMasked (list vs)
      masked_dict : {fs : Fields F} → HasMasks fs → IsMasked (dict fs)

    pub data AreMasked : Items F → Type 0 where
      masked_nil : AreMasked nil
      masked_cons : {v : Value F} {vs : Items F} → IsMasked v → AreMasked vs → AreMasked (cons v vs)

    pub data HasMasks : Fields F → Type 0 where
      masked_end : HasMasks end
      plain_field :
          {v : Value F} {fs : Fields F} (k : String)
          → is_sensitive_key lower k ≡ false
          → IsMasked v
          → HasMasks fs
          → HasMasks (field k v fs)
      masked_field :
          {fs : Fields F} (k : String)
          → is_sensitive_key lower k ≡ true
          → HasMasks fs
          → HasMasks (field k (str mask) fs)

  mutual
    unfolding redact_inside

    redact_inside-IsMasked : (v : Value F) → IsMasked (redact_inside lower v)
    redact_inside-IsMasked null = masked_null
    redact_inside-IsMasked (bool b) = masked_bool b
    redact_inside-IsMasked (int n) = masked_int n
    redact_inside-IsMasked (float x) = masked_float x
    redact_inside-IsMasked (str s) = masked_str s
    redact_inside-IsMasked (list vs) = masked_list (redact_items-AreMasked vs)
    redact_inside-IsMasked (dict fs) = masked_dict (redact_fields-HasMasks fs)

    redact_items-AreMasked : (vs : Items F) → AreMasked (redact_items lower vs)
    redact_items-AreMasked nil = masked_nil
    redact_items-AreMasked (cons v vs) =
        masked_cons (redact_inside-IsMasked v) (redact_items-AreMasked vs)

    redact_fields-HasMasks : (fs : Fields F) → HasMasks (redact_fields lower fs)
    redact_fields-HasMasks end = masked_end
    redact_fields-HasMasks (field k v fs) = elim (Bool-cases (is_sensitive_key lower k)) [
      | inl s ↦ rw s (masked_field k s (redact_fields-HasMasks fs))
      | inr s ↦ rw s (plain_field k s (redact_inside-IsMasked v) (redact_fields-HasMasks fs))
    ]

  -- A value in which all sensitive keys have the mask is its own redacted form.
  mutual
    unfolding redact_inside

    redact_inside_masked : {v : Value F} → IsMasked v → redact_inside lower v ≡ v
    redact_inside_masked masked_null = refl
    redact_inside_masked (masked_bool b) = refl
    redact_inside_masked (masked_int n) = refl
    redact_inside_masked (masked_float x) = refl
    redact_inside_masked (masked_str s) = refl
    redact_inside_masked (masked_list h) = ap list (redact_items_masked h)
    redact_inside_masked (masked_dict h) = ap dict (redact_fields_masked h)

    redact_items_masked : {vs : Items F} → AreMasked vs → redact_items lower vs ≡ vs
    redact_items_masked masked_nil = refl
    redact_items_masked (masked_cons h t) = cc (redact_inside_masked h, redact_items_masked t)

    redact_fields_masked : {fs : Fields F} → HasMasks fs → redact_fields lower fs ≡ fs
    redact_fields_masked masked_end = refl
    redact_fields_masked (plain_field k s h t) =
        rw s (cc (redact_inside_masked h, redact_fields_masked t))
    redact_fields_masked (masked_field k s t) =
        rw s (ap (field k (str mask)) (redact_fields_masked t))

  -- In a redacted value the sensitive keys, at any depth, have the mask, and redacting the value once
  -- more changes nothing.
  pub redact_value_idem :
      (v : Value F) (key : Option String)
      → IsMasked (redact_value lower v key)
        × (redact_value lower (redact_value lower v key) key ≡ redact_value lower v key)
  unfolding redact_value
  redact_value_idem v key = elim (Bool-cases (hides lower key)) [
    | inl s ↦ (rw s (masked_str mask), rw s refl)
    | inr s ↦
        (rw s (redact_inside-IsMasked v), rw s (redact_inside_masked (redact_inside-IsMasked v)))
  ]

module _ (lower : String → String) where
  -- The stored form of a header's value.
  abbrev pub shown : String → Option String → Option String
  shown k none = none
  shown k (some v) = some (if is_sensitive_key lower k then mask else v)

  -- Every header is kept; its value is masked exactly if its name is sensitive.
  pub get-redact_headers :
      (h : Dict String) (k : String) → Dict.get (redact_headers lower h) k ≡ shown k (Dict.get h k)
  unfolding redact_headers Dict.get
  get-redact_headers [] k = refl
  get-redact_headers ((j, v) ∷ h) k = ground (arith, eq_iff j k, get-redact_headers h k)
