-- ===== src/Dotnet/Reader/Closing.antt =====
-- dotnet/nuodb/datareader.cpp: a closed reader.
use nuodb_drivers.Prelude.{true, codes, ◌≡◌, arith}
use nuodb_drivers.Dotnet.Calls.{raises, nuodb}
use nuodb_drivers.Dotnet.Library.{Library}
use nuodb_drivers.Dotnet.Objects.{State}
use nuodb_drivers.Dotnet.Reader
use nuodb_drivers.Dotnet.Reader.Values
use nuodb_drivers.Dotnet.Reader.Requests.{Request, perform}

module _ {lib : Library} where
  -- Each method of a closed reader, but `Close`, that asks whether it is closed throws the same
  -- `NuoDbException`, whatever its arguments are, and neither calls the client library nor changes
  -- anything; so does the indexer by a name that is not empty.
  pub perform-Refuses :
      (s : State lib) (r : Request lib)
      → s.reader.is_closed ≡ true
      → perform r s ≡ (raises (nuodb (codes "The reader is closed.")), s)
  unfolding perform Reader.depth Reader.field_count Reader.visible_field_count Reader.get_enumerator
      Reader.next_result Reader.read Reader.unsupported Reader.get_name Reader.get_ordinal
      Reader.get_provider_specific_values Values.get_item Values.get_boolean Values.get_char
      Values.get_data_type_name Values.get_date_time Values.get_decimal Values.get_double
      Values.get_field_type Values.get_float Values.get_int16 Values.get_int32 Values.get_int64
      Values.get_provider_specific_field_type Values.get_provider_specific_value Values.get_string
      Values.get_value Values.get_named Values.get_values
  perform-Refuses s Request.depth h = ground (arith, h)
  perform-Refuses s Request.field_count h = ground (arith, h)
  perform-Refuses s Request.visible_field_count h = ground (arith, h)
  perform-Refuses s Request.get_enumerator h = ground (arith, h)
  perform-Refuses s Request.next_result h = ground (arith, h)
  perform-Refuses s Request.read h = ground (arith, h)
  perform-Refuses s Request.unsupported h = ground (arith, h)
  perform-Refuses s (Request.get_item i) h = ground (arith, h)
  perform-Refuses s (Request.get_boolean i) h = ground (arith, h)
  perform-Refuses s (Request.get_char i) h = ground (arith, h)
  perform-Refuses s (Request.get_data_type_name i) h = ground (arith, h)
  perform-Refuses s (Request.get_date_time i) h = ground (arith, h)
  perform-Refuses s (Request.get_decimal i) h = ground (arith, h)
  perform-Refuses s (Request.get_double i) h = ground (arith, h)
  perform-Refuses s (Request.get_field_type i) h = ground (arith, h)
  perform-Refuses s (Request.get_float i) h = ground (arith, h)
  perform-Refuses s (Request.get_int16 i) h = ground (arith, h)
  perform-Refuses s (Request.get_int32 i) h = ground (arith, h)
  perform-Refuses s (Request.get_int64 i) h = ground (arith, h)
  perform-Refuses s (Request.get_name i) h = ground (arith, h)
  perform-Refuses s (Request.get_provider_specific_field_type i) h = ground (arith, h)
  perform-Refuses s (Request.get_provider_specific_value i) h = ground (arith, h)
  perform-Refuses s (Request.get_string i) h = ground (arith, h)
  perform-Refuses s (Request.get_value i) h = ground (arith, h)
  perform-Refuses s (Request.get_provider_specific_values base) h = ground (arith, h)
  perform-Refuses s (Request.get_ordinal name) h = ground (arith, h)
  perform-Refuses s (Request.get_named c cs) h = ground (arith, h)
  perform-Refuses s (Request.get_values values) h = ground (arith, h)
