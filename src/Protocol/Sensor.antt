-- ===== src/Protocol/Sensor.antt =====
-- Sensor readings and council participants (vendor/apexos-protocol/src/lib.rs).
use apex_os_rv.Prelude.{ℕ, Bool, Option, Text}
use apex_os_rv.Protocol.Wire.{Wire}

-- The fields of each variant stand in the source's order.
pub data SensorReading (w : Wire) : Type 0 where
  temperature : w.F32 → Text → SensorReading w
  humidity : w.F32 → Text → SensorReading w
  pressure : w.F32 → Text → SensorReading w
  motion : Bool → Text → SensorReading w
  distance : w.F32 → Text → SensorReading w
  gpio_level : ℕ → Bool → SensorReading w
  -- iaq, co2_eq_ppm, voc_ppm, accuracy, temperature_c, humidity_pct, pressure_hpa, sensor_id
  air_quality : w.F32 → w.F32 → w.F32 → ℕ → w.F32 → w.F32 → w.F32 → Text → SensorReading w
  -- min_c, max_c, mean_c, sensor_id
  thermal_frame : w.F32 → w.F32 → w.F32 → Text → SensorReading w

pub record CouncilAgentDef : Type 0 where
  pub id : Text
  pub persona : Text
  pub backend : Option Text
  pub model : Option Text
  pub color : Option Text
