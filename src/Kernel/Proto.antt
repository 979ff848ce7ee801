-- ===== src/Kernel/Proto.antt =====
-- The wire contract on metal (kernel/src/proto.rs). The JSON value and the numbers with a point are
-- parameters: `f32` and `f64` read hundredths and thousandths.
pub mod Stable
use apex_os_rv.Prelude.{
  ℕ, ◌≡◌, refl, true, false, some, List, [], ◌∷◌, Text, codes, list_eq, nat_eq, ◌==◌,
}
use apex_os_rv.Protocol.Wire.{Wire}
use apex_os_rv.Protocol.Sensor.{air_quality}
use apex_os_rv.Protocol.Session.{ToolCall}
use apex_os_rv.Protocol.Event.{Event, sensor_reading, vast_instance_launched, tool_requested}
use apex_os_rv.Kernel.Console.{Console, ◌>>=◌, ◌>>◌, println, unwrap, assert, Json}

pub record Literals (w : Wire) : Type 0 where
  pub f32 : ℕ → w.F32
  pub f64 : ℕ → w.F64
  pub query : w.Value

abbrev pub report : Text
report = codes "proto: 3 events round-tripped on metal"

module _ {w : Wire} (lit : Literals w) where
  unfoldable pub first_event : Event w
  first_event =
      sensor_reading (codes "rv-metal-0")
        (air_quality (lit.f32 5150) (lit.f32 40700) (lit.f32 50) 3 (lit.f32 2250) (lit.f32 4025)
          (lit.f32 101325) (codes "bme688"))
        1777000000

  unfoldable pub second_event : Event w
  second_event = vast_instance_launched (codes "vast-31337") (codes "qwen3-30b-a3b") (lit.f64 297)

  unfoldable pub third_event : Event w
  third_event =
      tool_requested 1
        (record { id = 7; tool = codes "cerebro.recall"; args = lit.query; needs_approval = false })

module _ {w : Wire} (json : Json w) where
  unfoldable pub roundtrip : Event w → Console Unit
  roundtrip ev = do
    text ← unwrap (json.to_string ev)
    back ← unwrap (json.from_str text)
    text2 ← unwrap (json.to_string back)
    assert (text == text2)
    v1 ← unwrap (json.value_from_str text)
    v2 ← unwrap (json.to_value back)
    assert (json.value_eq v1 v2)
    println text

  unfoldable pub run : Literals w → Console Unit
  run lit = do
    roundtrip (first_event lit)
    roundtrip (second_event lit)
    roundtrip (third_event lit)
    println report
