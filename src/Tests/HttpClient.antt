-- ===== src/Tests/HttpClient.antt =====
-- A server that fails once, and then answers; the world counts the requests.
use quick_bite_analytics_ser.Prelude.{
  ℕ, zero, suc, ◌+◌, ◌≤◌, String, ◌≡◌, refl, pos, negsuc, pos_part, ◌+ℤ◌, none, some, [], arith,
}
use quick_bite_analytics_ser.Go.Effect.{Result, ok}
use quick_bite_analytics_ser.HttpClient
use quick_bite_analytics_ser.HttpClient.{
  Net, Request, Exchange, response, returns, round, last_error, attempts, do_request, backoff,
}
use quick_bite_analytics_ser.Go.Int64.{succ_int64}
use quick_bite_analytics_ser.HttpClient.Bounds.{do_request_bound, do_request-negative}

abbrev reply : ℕ → Exchange
reply zero = response 503 "down"
reply (suc n) = response 200 "up"

abbrev net : Net ℕ String
net = record {
  marshal = λ s. ok s;
  refused = λ method url. none;
  exchange = λ c out n. (reply n, suc n);
  wait = λ d n. (none, n);
}

abbrev client : HttpClient.Client
client = record { timeout = pos 1; max_retries = pos 2; base_delay = pos 50 }

abbrev no_client : HttpClient.Client
no_client = record client { max_retries = negsuc 0 }

abbrev decode : String → Result String
decode s = ok s

abbrev request : Request String
request = record { method = "GET"; url = "/"; headers = []; body = none }

do_request_at : do_request net client decode request 0 ≡ (ok (some "up"), 2)
unfolding do_request HttpClient.rounds round HttpClient.judge HttpClient.decoded ◌+ℤ◌ succ_int64
do_request_at = refl

do_request_bound_example :
    (do_request net client decode request 0).1 ≤ 0 + pos_part (client.max_retries +ℤ pos 1)
do_request_bound_example =
    do_request_bound net client decode (λ n. n) (λ out n. omega arith) (λ d n. refl) request 0

do_request-negative_example : do_request net no_client decode request 0 ≡ (ok none, 0)
unfolding ◌+ℤ◌
do_request-negative_example = do_request-negative net no_client decode request 0 refl (ground arith)
