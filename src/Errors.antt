-- ===== src/Errors.antt =====
-- src/error.rs: the errors that reach a client, their status and their type.
use inf_splitter.Prelude.{ℕ, ◌++◌}
use inf_splitter.Config.Provider.{
  ConfigError, duplicate_model, invalid_api_key, invalid_byte_size, invalid_duration, io,
  multiple_defaults, no_providers, port, provider, secret_not_found, unknown_drop_model,
  unroutable_model,
}
use inf_splitter.Prelude.Text.{Text}
use inf_splitter.Prelude.Bytes.{chars}

pub data AppError : Type 0 where
  bad_request : Text → AppError
  upstream : Text → AppError
  internal : Text → AppError

unfoldable pub status : AppError → ℕ
status (bad_request _) = 400
status (upstream _) = 502
status (internal _) = 500

unfoldable pub error_type : AppError → Text
error_type (bad_request _) = chars "invalid_request_error"
error_type (upstream _) = chars "upstream_error"
error_type (internal _) = chars "internal_error"

-- Display for AppError
unfoldable pub app_error_text : AppError → Text
app_error_text (bad_request message) = chars "bad request: " ++ message
app_error_text (upstream message) = chars "upstream error: " ++ message
app_error_text (internal message) = chars "internal error: " ++ message

pub record ErrorBody : Type 0 where
  pub body_type : Text
  pub error_type : Text
  pub message : Text

-- into_response: the status and the body of the answer
unfoldable pub into_response : AppError → ℕ × ErrorBody
into_response error = (
  status error,
  record {
    body_type = chars "error";
    error_type = error_type error;
    message = app_error_text error;
  },
)

-- Display for ConfigError
unfoldable pub config_error_text : ConfigError → Text
config_error_text (io message) = chars "failed to read config file: " ++ chars message
config_error_text (provider name message) =
    chars "provider section " ++ name ++ chars ": " ++ chars message
config_error_text (duplicate_model model first second) =
    chars "duplicate model " ++ model ++ chars " in sections " ++ first ++ chars " and " ++ second
config_error_text (multiple_defaults first second) =
    chars "multiple default provider sections: " ++ first ++ chars " and " ++ second
config_error_text (unknown_drop_model section model) =
    chars "drop_fields references model " ++ model ++ chars " not in section " ++ section
config_error_text (unroutable_model model) =
    chars "no provider section defines models = \"default\" and model "
    ++ model
    ++ chars " is not listed elsewhere"
config_error_text (secret_not_found name) =
    chars "secret not found for "
    ++ name
    ++ chars ": set env var or secrets/"
    ++ name
    ++ chars " file"
config_error_text no_providers = chars "config must define at least one provider section"
config_error_text (port message) = chars "invalid listen port: " ++ chars message
config_error_text (invalid_duration value message) =
    chars "invalid duration " ++ value ++ chars ": " ++ chars message
config_error_text (invalid_byte_size value message) =
    chars "invalid byte size " ++ value ++ chars ": " ++ chars message
config_error_text (invalid_api_key section message) =
    chars "invalid api_key in section " ++ section ++ chars ": " ++ chars message

-- From<ConfigError> for AppError
unfoldable pub from_config_error : ConfigError → AppError
from_config_error (unroutable_model model) =
    bad_request (chars "no route configured for model " ++ model)
from_config_error other = internal (config_error_text other)
