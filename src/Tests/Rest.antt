-- ===== src/Tests/Rest.antt =====
-- The theorem on pkg/dependencies/rest/client.go at a concrete input.
use text.Mathlib.Text.{◌==◌ as str_eq}
use go_ring.Common.{ℕ, zero, suc, ◌≡◌, ◌||◌, true, false, if◌then◌else◌, refl}
use go_ring.Rest.{Attempt, replied, response, max_retries, send_with_retry}
use go_ring.Rest.Retry.{IsRun, send_with_retry-IsRun}

-- The server fails once and then answers.
abbrev fails_once : ℕ → Attempt
fails_once zero = record { has_body = true; reply = replied 503; canceled = false }
fails_once (suc n) = record { has_body = true; reply = replied 200; canceled = false }

sent_twice : send_with_retry fails_once "GET" ≡ (response 200, 2)
unfolding send_with_retry
sent_twice = refl

send_with_retry-IsRun_example :
    IsRun fails_once 0 (max_retries "GET") (send_with_retry fails_once "GET")
    × (max_retries "GET" ≡ (if str_eq "GET" "GET" || str_eq "GET" "HEAD" then 3 else 1))
send_with_retry-IsRun_example = send_with_retry-IsRun fails_once "GET"
