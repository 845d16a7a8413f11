-- ===== src/Errors.antt =====
-- lib/errors: the error values of the service. An `error` of Go is an AppError, the HTTPError of
-- pkg/httpclient, an error of a library, or one of these wrapped by fmt.Errorf, with the format and
-- its other operands.
use quick_bite_analytics_ser.Prelude.{ℕ, String, List}

pub data Error : Type 0 where
  app_error : String → ℕ → String → Error
  app_error_with_cause : Error → String → ℕ → String → Error
  http_error : ℕ → String → Error
  plain : String → Error
  wrapped : String → List String → Error → Error

-- apperror.New
abbrev pub new : String → ℕ → String → Error
new code status_code message = app_error code status_code message

-- apperror.WithCause
abbrev pub with_cause : Error → String → ℕ → String → Error
with_cause err code status_code message = app_error_with_cause err code status_code message
