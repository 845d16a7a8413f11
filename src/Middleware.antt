-- ===== src/Middleware.antt =====
-- lib/middleware/correlation.go. A handler acts on the http.ResponseWriter by the calls that it makes,
-- in order; what it logs is recorded as well.
use quick_bite_analytics_ser.Prelude.{ℕ, ℤ, pos, String, ◌==◌, List, [], ◌∷◌, ◌++◌, if◌then◌else◌}
use quick_bite_analytics_ser.Go.Time.{Time, sub, milliseconds}
use quick_bite_analytics_ser.Auth.{Incoming}
use quick_bite_analytics_ser.AppContext.{
  text, number, Logger, Line, with_attribute, info, Context, with_correlation_id, with_logger,
  logger_from_context,
}

-- http.ResponseWriter: Header().Set, WriteHeader and Write
pub data Call : Type 0 where
  set_header : String → String → Call
  write_header : ℕ → Call
  write : String → Call

pub record Exchange : Type 0 where
  pub calls : List Call
  pub logged : List Line

abbrev pub Handler : Type 0 → Type 0
Handler W = Context → Incoming → W → Exchange × W

abbrev pub correlation_header : String
correlation_header = "X-CorrelationId"

-- uuid.NewString, and the clock
pub record Process (W : Type 0) : Type 0 where
  pub new_string : W → String × W
  pub now : W → Time
  -- slog.Default()
  pub fallback : Logger

-- the status of a statusRecorder after the calls on it
unfoldable pub recorded : ℕ → List Call → ℕ
recorded status [] = status
recorded status (set_header k v ∷ calls) = recorded status calls
recorded status (write_header code ∷ calls) = recorded code calls
recorded status (write body ∷ calls) = recorded status calls

module _ {W : Type 0} (p : Process W) where
  unfoldable pub request_id : Incoming → W → String × W
  request_id r w =
      if r.header correlation_header == "" then p.new_string w else (r.header correlation_header, w)

  unfoldable pub correlation : Logger → Handler W → Handler W
  unfolding request_id
  correlation base next ctx r w =
      let (id, w') = request_id r w in
      let (x, w'') =
        next
          (with_logger (with_attribute "correlation_id" (text id) base)
            (with_correlation_id id ctx))
          r w' in
      (record x { calls = set_header correlation_header id ∷ x.calls }, w'')

  abbrev pub access_line : Context → Incoming → ℕ → ℤ → Line
  access_line ctx r status duration_ms = info (logger_from_context p.fallback ctx) "http request" (
      ("method", text r.method)
      ∷ ("path", text r.path)
      ∷ ("status", number (pos status))
      ∷ ("duration_ms", number duration_ms)
      ∷ [])

  unfoldable pub access_log : Handler W → Handler W
  unfolding recorded
  access_log next ctx r w =
      let (x, w') = next ctx r w in
      let line =
        access_line ctx r (recorded 200 x.calls) (milliseconds (sub (p.now w') (p.now w))) in
      (record x { logged = x.logged ++ line ∷ [] }, w')
