-- ===== src/Json.antt =====
-- Values of `dict[str, Any]` columns (JSONB): what `json.dumps` accepts. The text of a UUID is kept
-- as the UUID, and a number that is no natural one as its text, since the modelled code computes
-- with neither.
use softbox_ai.Prelude.{ℕ, String, Option, none, some, Bool, false, true, str_eq, if◌then◌else◌}
use softbox_ai.Errors.{Result, ok, err, key_error, value_error}
use softbox_ai.Ids.{Uuid}

mutual
  pub data Json : Type 0 where
    null : Json
    boolean : Bool → Json
    number : String → Json
    integer : ℕ → Json
    text : String → Json
    uuid : Uuid → Json
    items : JsonList → Json
    object : JsonDict → Json

  pub data JsonList : Type 0 where
    nil : JsonList
    cons : Json → JsonList → JsonList

  pub data JsonDict : Type 0 where
    empty : JsonDict
    entry : String → Json → JsonDict → JsonDict

-- `value is False`: the literal, and nothing else that is falsy.
abbrev pub is_false : Json → Bool
is_false (boolean false) = true
is_false _ = false

-- `UUID(value)` of a payload's value; it raises on what is no UUID's text.
abbrev pub to_uuid : Json → Result Uuid
to_uuid (uuid i) = ok i
to_uuid _ = err (value_error "badly formed hexadecimal UUID string")

-- `UUID(payload[name])`.
unfoldable pub uuid_at : String → JsonDict → Result Uuid
uuid_at name empty = err (key_error name)
uuid_at name (entry k v rest) =
    let later = uuid_at name rest in if str_eq k name then to_uuid v else later

-- `d.get(name)`.
abbrev pub value_at : String → JsonDict → Option Json
value_at name empty = none
value_at name (entry k v rest) =
    let later = value_at name rest in if str_eq k name then some v else later

-- `d[name] = value`.
abbrev pub put : String → Json → JsonDict → JsonDict
put name v empty = entry name v empty
put name v (entry k w rest) =
    let later = put name v rest in if str_eq k name then entry k v rest else entry k w later

-- `{**d, **e}`.
unfoldable pub merge : JsonDict → JsonDict → JsonDict
merge d empty = d
merge d (entry k v e) = merge (put k v d) e
