-- ===== src/Metric.antt =====
-- common/Metric.h and .cpp: a counter of the runtime statistics, and the field of a message that
-- reports it. Its `double` counts by whole numbers, which it holds exactly up to 2^53.
use mozilla_telemetry.Prelude.{
  ℕ, ◌+◌, Option, none, some, Bool, List, [], ◌∷◌, ◌++◌, ◌≡◌, map, Bytes, codes,
}
use mozilla_telemetry.Prelude.Int.{ℤ}

-- A `double`, as it comes about: a whole number, ticks of the clock in seconds, or bytes in MiB per
-- second over such a time.
pub data Number : Type 0 where
  whole : ℕ → Number
  seconds : ℤ → Number
  throughput : ℕ → ℤ → Number

-- `Metric`, over its values: numbers that count, or doubles.
pub record Metric (V : Type 0) : Type 0 where
  pub name : Bytes
  pub representation : Bytes
  pub value : V

abbrev pub Counter : Type 0
Counter = Metric ℕ

-- The constructor; the header gives "count" for a representation that is left out.
abbrev pub new_metric : Bytes → Bytes → Counter
new_metric name representation = record { name = name; representation = representation; value = 0 }

abbrev pub count : Bytes
count = codes "count"

-- A counter as the metric that it is.
abbrev pub exact : Counter → Metric Number
exact m = record { name = m.name; representation = m.representation; value = whole m.value }

-- `++metric.mValue`
abbrev pub bump : Counter → Counter
bump m = record m { value = m.value + 1 }

-- `mValue = 0`
abbrev pub reset : Counter → Counter
reset m = record m { value = 0 }

-- `message::Field_ValueType`
pub data ValueType : Type 0 where
  string_type bytes_type integer_type double_type bool_type : ValueType

-- `message::Field`; `none` is a member that is not set, and the unknown fields are the bytes that they
-- stand for.
pub record Field : Type 0 where
  pub name : Option Bytes
  pub value_type : Option ValueType
  pub representation : Option Bytes
  pub value_string : List Bytes
  pub value_bytes : List Bytes
  pub value_integer : List ℤ
  pub value_double : List Number
  pub value_bool : List Bool
  pub unknown_fields : Bytes

abbrev pub new_field : Field
new_field = record {
  name = none;
  value_type = none;
  representation = none;
  value_string = [];
  value_bytes = [];
  value_integer = [];
  value_double = [];
  value_bool = [];
  unknown_fields = [];
}

-- `message::Message`
pub record Message : Type 0 where
  pub uuid : Option Bytes
  pub timestamp : Option ℤ
  pub type : Option Bytes
  pub logger : Option Bytes
  pub severity : Option ℤ
  pub payload : Option Bytes
  pub env_version : Option Bytes
  pub pid : Option ℤ
  pub hostname : Option Bytes
  pub fields : List Field
  pub unknown_fields : Bytes

abbrev pub new_message : Message
new_message = record {
  uuid = none;
  timestamp = none;
  type = none;
  logger = none;
  severity = none;
  payload = none;
  env_version = none;
  pid = none;
  hostname = none;
  fields = [];
  unknown_fields = [];
}

abbrev pub clear_fields : Message → Message
clear_fields m = record m { fields = [] }

-- The field that shows a metric.
abbrev pub shown : Metric Number → Field
shown metric = record new_field {
  name = some metric.name;
  representation = some metric.representation;
  value_type = some double_type;
  value_double = metric.value ∷ [];
}

-- `ConstructField`
unfoldable pub construct_field : Message → Metric Number → Message
construct_field m metric = record m { fields = m.fields ++ (shown metric ∷ []) }

-- A report of counters: a message shows each of them, in order, and they start again at 0.
pub record Reports (before after : List Counter) (m : Message) : Type 0 where
  pub reported : m.fields ≡ map shown (map exact before)
  pub cleared : after ≡ map reset before
