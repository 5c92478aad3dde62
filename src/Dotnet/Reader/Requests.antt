-- ===== src/Dotnet/Reader/Requests.antt =====
-- dotnet/nuodb/datareader.cpp: the methods of a reader, and what they do when it is closed.
use nuodb_drivers.Prelude.{ℕ, Option, some, List, ◌∷◌, Bytes}
use nuodb_drivers.Prelude.Outcome.{ℤ}
use nuodb_drivers.Dotnet.Calls.{◌>>=◌, pure, String}
use nuodb_drivers.Dotnet.Library.{Library}
use nuodb_drivers.Dotnet.Objects.{Act}
use nuodb_drivers.Dotnet.Command.{Value}
use nuodb_drivers.Dotnet.Reader
use nuodb_drivers.Dotnet.Reader.Values

-- The methods, but `Close`, that ask first whether the reader is closed. `unsupported` stands for those that are
-- not supported, `get_named` is the indexer by a name that is not empty.
pub data Request (lib : Library) : Type 0 where
  depth field_count visible_field_count get_enumerator next_result read unsupported : Request lib
  get_item get_boolean get_char get_data_type_name get_date_time get_decimal get_double
        get_field_type get_float get_int16 get_int32 get_int64 get_name
        get_provider_specific_field_type get_provider_specific_value get_string get_value :
      ℤ → Request lib
  get_ordinal : String → Request lib
  get_provider_specific_values : Act lib ℕ → Request lib
  get_named : ℕ → Bytes → Request lib
  get_values : Option (List (Option (Value lib))) → Request lib

module _ {lib : Library} where
  abbrev pub drop : {A : Type 0} → Act lib A → Act lib (Unit {0})
  drop m = m >>= λ a. pure tt

  unfoldable pub perform : Request lib → Act lib (Unit {0})
  perform Request.depth = drop Reader.depth
  perform Request.field_count = drop Reader.field_count
  perform Request.visible_field_count = drop Reader.visible_field_count
  perform Request.get_enumerator = drop Reader.get_enumerator
  perform Request.next_result = drop Reader.next_result
  perform Request.read = drop Reader.read
  perform Request.unsupported = Reader.unsupported
  perform (Request.get_item i) = drop (Values.get_item lib i)
  perform (Request.get_boolean i) = drop (Values.get_boolean lib i)
  perform (Request.get_char i) = drop (Values.get_char lib i)
  perform (Request.get_data_type_name i) = drop (Values.get_data_type_name lib i)
  perform (Request.get_date_time i) = drop (Values.get_date_time lib i)
  perform (Request.get_decimal i) = drop (Values.get_decimal lib i)
  perform (Request.get_double i) = drop (Values.get_double lib i)
  perform (Request.get_field_type i) = drop (Values.get_field_type lib i)
  perform (Request.get_float i) = drop (Values.get_float lib i)
  perform (Request.get_int16 i) = drop (Values.get_int16 lib i)
  perform (Request.get_int32 i) = drop (Values.get_int32 lib i)
  perform (Request.get_int64 i) = drop (Values.get_int64 lib i)
  perform (Request.get_name i) = drop (Reader.get_name i)
  perform (Request.get_provider_specific_field_type i) =
      drop (Values.get_provider_specific_field_type lib i)
  perform (Request.get_provider_specific_value i) = drop (Values.get_provider_specific_value lib i)
  perform (Request.get_string i) = drop (Values.get_string lib i)
  perform (Request.get_value i) = drop (Values.get_value lib i)
  perform (Request.get_provider_specific_values base) =
      drop (Reader.get_provider_specific_values base)
  perform (Request.get_ordinal name) = drop (Reader.get_ordinal name)
  perform (Request.get_named c cs) = drop (Values.get_named lib (some (c ∷ cs)))
  perform (Request.get_values values) = drop (Values.get_values lib values)
