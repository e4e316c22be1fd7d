-- ===== src/Http/Empty/Answers.antt =====
-- internal/http_handler/empty.go: what a client of POST /empty gets, and what is logged of it.
use service_template.Base.{[], none}
use service_template.Http.Writer.{Response}

abbrev pub new_response : Response
new_response = record { status = none; headers = []; body = [] }
