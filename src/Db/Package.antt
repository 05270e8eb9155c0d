-- ===== src/Db/Package.antt =====
-- db/influx.go: the functions of the package over its variable `internalData`.
use bitmarkd_broadcast_monit.Common.{
  ◌≡◌, refl, ap, ◌∙◌, Bool, true, false, Option, none, some, List, [], ◌∷◌, if◌then◌else◌, Bytes,
}
use bitmarkd_broadcast_monit.Configuration.{InfluxDbConfig}
use bitmarkd_broadcast_monit.Db
use bitmarkd_broadcast_monit.Db.{InfluxData, Influx, LoopEvent, loop}

-- The zero value of the variable.
abbrev pub internal_data : Influx
internal_data = record { database = []; queue = []; is_ok = false }

abbrev assign : Influx → Option Influx → Bool × Influx
assign i none = (false, i)
assign i (some made) = (true, made)

-- `Initialise`: whether it gives no error, and the variable.
unfoldable pub initialise_package :
    (Bytes → Bytes → Bytes → Bool) → InfluxDbConfig → Influx → Bool × Influx
initialise_package new_http_client config i = assign i (Db.initialise new_http_client config)

-- `Add`
unfoldable pub add_data : InfluxData → Influx → Influx
add_data d i = Db.add i d

-- `Start`, up to the wait for the shutdown after the loop.
unfoldable pub start : {Point : Type 0} → List (LoopEvent Point) → Influx → Influx
start es i = if i.is_ok then loop es i else i

-- A history of calls of `Add`.
unfoldable pub add_each : List InfluxData → Influx → Influx
add_each [] i = i
add_each (d ∷ ds) i = add_each ds (add_data d i)

-- Until `Initialise` succeeds with an address and a port, what is added is thrown away, and `Start`
-- does nothing.
pub add_each-not_ok :
    {Point : Type 0} (ds : List InfluxData) (es : List (LoopEvent Point)) (i : Influx)
    → i.is_ok ≡ false
    → (add_each ds i ≡ i) × (start es i ≡ i)
unfolding add_each add_data start Db.add
add_each-not_ok [] es i h = (refl, rw h refl)
add_each-not_ok (d ∷ ds) es i h =
    let same : add_data d i ≡ i = rw (add_data, Db.add, h) refl in
    let (kept, idle) = add_each-not_ok ds es i h in (ap (add_each ds) same ∙ kept, idle)
