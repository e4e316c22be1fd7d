-- ===== src/Elastic/Examples.antt =====
-- A search whose response has one hit, and the theorem there.
use service_template.Base.{ℕ, false, String, Result, ok, err}
use service_template.Elastic.{Response, SearchQuery, track_total_hits, size_zero}

abbrev marshal : SearchQuery String → Result String String
marshal (track_total_hits query) = ok query
marshal (size_zero aggs) = err "unsupported type"

abbrev send : String → String → Result String (Response ℕ)
send index json = ok (record { is_error = false; body = "1"; decoded = ok 1 })
