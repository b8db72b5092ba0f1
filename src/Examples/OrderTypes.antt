-- ===== src/Examples/OrderTypes.antt =====
-- The theorem on the type of an order at a payload that names its type.
use poundcake.OrderTypes.{ensure_raw_data_order_type, webhook_alert, require_order_type, OrderType}
use poundcake.Prelude.{refl, ◌≡◌, ◌⊎◌, some, none}
use poundcake.OrderTypes.Laws.{ensure_raw_data_order_type-typed, LacksType, StatesType, HasType}
use poundcake.Json.{Value, text, obj, field, end}

abbrev payload : Value
payload = obj (field "status" (text "firing") (field "order_type" (text " Manual ") end))

ensure_raw_data_order_type-typed_example :
    (LacksType payload
      × (p : Value) × (ensure_raw_data_order_type payload webhook_alert ≡ some p)
      × HasType payload "status" webhook_alert p)
    ⊎ (StatesType payload
        × (((t : OrderType) × (p : Value) × (require_order_type (some payload) ≡ some t)
              × (ensure_raw_data_order_type payload webhook_alert ≡ some p)
              × HasType payload "status" t p)
            ⊎ ((require_order_type (some payload) ≡ none)
                × (ensure_raw_data_order_type payload webhook_alert ≡ none))))
ensure_raw_data_order_type-typed_example =
    ensure_raw_data_order_type-typed payload webhook_alert "status" refl
