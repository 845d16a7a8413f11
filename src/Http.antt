-- ===== src/Http.antt =====
-- lib/http/response.go and lib/errors/handler.go: what is answered to a request. The JSON encoding
-- is left out: a body is the data or the error of the envelope.
use quick_bite_analytics_ser.Prelude.{ℕ, String}
use quick_bite_analytics_ser.Errors.{
  Error, app_error, app_error_with_cause, http_error, plain, wrapped,
}
use quick_bite_analytics_ser.Go.Effect.{Result, ok, fail}

pub data Body (D : Type 0) : Type 0 where
  success : D → Body D
  failure : String → String → Body D

pub record Response (D : Type 0) : Type 0 where
  pub status_code : ℕ
  pub body : Body D

module _ {D : Type 0} where
  unfoldable pub send_success : ℕ → D → Response D
  send_success status_code data_ = record { status_code = status_code; body = success data_ }

  -- the data with a meta block
  send_paginated : {M : Type 0} → D → M → Response (D × M)
  send_paginated data_ meta = record { status_code = 200; body = success (data_, meta) }

  abbrev pub internal_error : Response D
  internal_error = record {
    status_code = 500;
    body = failure "INTERNAL_ERROR" "Something went wrong";
  }

  -- `err.(CodedError)` holds of an AppError itself, and of no error that wraps one
  unfoldable pub send_error : Error → Response D
  send_error (app_error code status_code message) = record {
    status_code = status_code;
    body = failure code message;
  }
  send_error (app_error_with_cause err code status_code message) = record {
    status_code = status_code;
    body = failure code message;
  }
  send_error (http_error status_code body) = internal_error
  send_error (plain message) = internal_error
  send_error (wrapped format operands err) = internal_error

  -- Wrap, of a handler that has answered or has returned an error
  unfoldable pub wrap : Result (Response D) → Response D
  unfolding send_error
  wrap (ok response) = response
  wrap (fail err) = send_error err
