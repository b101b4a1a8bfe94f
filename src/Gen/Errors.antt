-- ===== src/Gen/Errors.antt =====
-- api/gen/server.gen.go: the errors that a wrapper hands to its error handler, each with its methods
-- Error and Unwrap; two of them have no Unwrap. `decimal` is the verb %d.
use Prim.Native.String
use fleetcontrol.Common.{ℕ, String, Error, message}

abbrev around : String → String → String → String
around before name after = String.◌++◌ before (String.◌++◌ name after)

pub record UnescapedCookieParamError : Type 0 where
  pub param_name : String
  pub error : Error

unfoldable unescaped_cookie_param_text : UnescapedCookieParamError → String
unescaped_cookie_param_text e = around "error unescaping cookie parameter '" e.param_name "'"

unfoldable unescaped_cookie_param_unwrap : UnescapedCookieParamError → Error
unescaped_cookie_param_unwrap e = e.error

pub record UnmarshalingParamError : Type 0 where
  pub param_name : String
  pub error : Error

unfoldable unmarshaling_param_text : UnmarshalingParamError → String
unmarshaling_param_text e =
    around "Error unmarshaling parameter " e.param_name (String.◌++◌ " as JSON: " (message e.error))

unfoldable unmarshaling_param_unwrap : UnmarshalingParamError → Error
unmarshaling_param_unwrap e = e.error

pub record RequiredParamError : Type 0 where
  pub param_name : String

unfoldable required_param_text : RequiredParamError → String
required_param_text e = around "Query argument " e.param_name " is required, but not found"

pub record RequiredHeaderError : Type 0 where
  pub param_name : String
  pub error : Error

unfoldable required_header_text : RequiredHeaderError → String
required_header_text e = around "Header parameter " e.param_name " is required, but not found"

unfoldable required_header_unwrap : RequiredHeaderError → Error
required_header_unwrap e = e.error

pub record InvalidParamFormatError : Type 0 where
  pub param_name : String
  pub error : Error

unfoldable pub invalid_param_format_text : InvalidParamFormatError → String
invalid_param_format_text e =
    around "Invalid format for parameter " e.param_name (String.◌++◌ ": " (message e.error))

unfoldable invalid_param_format_unwrap : InvalidParamFormatError → Error
invalid_param_format_unwrap e = e.error

pub record TooManyValuesForParamError : Type 0 where
  pub param_name : String
  pub count : ℕ

unfoldable too_many_values_for_param_text : (ℕ → String) → TooManyValuesForParamError → String
too_many_values_for_param_text decimal e =
    around "Expected one value for " e.param_name (String.◌++◌ ", got " (decimal e.count))

-- The error that an error handler is given: a pointer to one of these.
pub data ParamError : Type 0 where
  unescaped_cookie : UnescapedCookieParamError → ParamError
  unmarshaling : UnmarshalingParamError → ParamError
  required : RequiredParamError → ParamError
  required_header : RequiredHeaderError → ParamError
  invalid_format : InvalidParamFormatError → ParamError
  too_many_values : TooManyValuesForParamError → ParamError

-- Its method Error.
unfoldable pub param_error_text : (ℕ → String) → ParamError → String
unfolding unescaped_cookie_param_text unmarshaling_param_text required_param_text
    required_header_text invalid_param_format_text too_many_values_for_param_text
param_error_text decimal (unescaped_cookie e) = unescaped_cookie_param_text e
param_error_text decimal (unmarshaling e) = unmarshaling_param_text e
param_error_text decimal (required e) = required_param_text e
param_error_text decimal (required_header e) = required_header_text e
param_error_text decimal (invalid_format e) = invalid_param_format_text e
param_error_text decimal (too_many_values e) = too_many_values_for_param_text decimal e
