-- ===== src/Server/Correlated.antt =====
-- What the middlewares add to every response.
use quick_bite_analytics_ser.Prelude.{
  ℕ, ℤ, pos, String, ◌==◌, ◌≡◌, true, false, Option, none, some, List, [], ◌∷◌, ◌++◌, if◌then◌else◌,
}
use quick_bite_analytics_ser.Mongo.Driver.{Mongo}
use quick_bite_analytics_ser.Auth.{Incoming}
use quick_bite_analytics_ser.Rbac.Cache.{Cache}
use quick_bite_analytics_ser.AppContext.{text, number, Logger}
use quick_bite_analytics_ser.Middleware.{
  Call, set_header, write_header, write, Exchange, Process, correlation_header,
}

-- The value that net/http sends for a header: the last that is set before a status or a body is
-- written.
abbrev pub header_sent : String → Option String → List Call → Option String
header_sent name found [] = found
header_sent name found (set_header k v ∷ calls) =
    header_sent name (if k == name then some v else found) calls
header_sent name found (write_header code ∷ calls) = found
header_sent name found (write body ∷ calls) = found

-- net/http sends the first status that is written.
abbrev pub sent : List Call → Option ℕ
sent [] = none
sent (set_header k v ∷ calls) = sent calls
sent (write_header code ∷ calls) = some code
sent (write body ∷ calls) = some 200

-- The request's id, or a new one if it has none, is sent with the response, and one line is logged: it
-- has the id, the method and the path of the request, and the status that the response has.
pub record Correlated {W : Type 0} (p : Process W) (log : Logger) (r : Incoming) (w : W)
    (x : Exchange) : Type 0 where
  pub id : String
  pub given : (r.header correlation_header == "") ≡ false → id ≡ r.header correlation_header
  pub made : (r.header correlation_header == "") ≡ true → id ≡ (p.new_string w).0
  pub carried : header_sent correlation_header none x.calls ≡ some id
  pub status : ℕ
  pub answered : sent x.calls ≡ some status
  pub duration_ms : ℤ
  pub logged :
      x.logged
      ≡ record {
        message = "http request";
        attributes =
            log.bound
            ++ ("correlation_id", text id)
              ∷ ("method", text r.method)
              ∷ ("path", text r.path)
              ∷ ("status", number (pos status))
              ∷ ("duration_ms", number duration_ms)
              ∷ [];
      }
        ∷ []
