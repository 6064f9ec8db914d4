-- ===== src/Json.antt =====
-- The values of Python's `json` module, which the HTTP API receives and the JSONB columns hold.
use lapinq.Prelude.{zero, String, Bool, true, false}
use lapinq.Prelude.Int.{ℤ, pos}

-- The literals NaN and Infinity, which Python reads as well, are left out; the handler of the progress has
-- them in its own type of values. A fractional number is a whole number of millionths. `null` is Python's `None`.
mutual
  pub data Json : Type 0 where
    null : Json
    bool : Bool → Json
    int : ℤ → Json
    float : ℤ → Json
    str : String → Json
    arr : Items → Json
    obj : Fields → Json

  pub data Items : Type 0 where
    nil : Items
    cons : Json → Items → Items

  pub data Fields : Type 0 where
    end : Fields
    field : String → Json → Fields → Fields

-- bool(value)
abbrev pub is_truthy : Json → Bool
is_truthy null = false
is_truthy (bool b) = b
is_truthy (int (pos zero)) = false
is_truthy (float (pos zero)) = false
is_truthy (str String.[]) = false
is_truthy (arr nil) = false
is_truthy (obj end) = false
is_truthy _ = true

-- value or default
abbrev pub or_else : Json → Json → Json
or_else j d = elim (is_truthy j) [ true ↦ j | false ↦ d ]
