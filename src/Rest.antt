-- ===== src/Rest.antt =====
-- pkg/dependencies/rest/client.go: the retries of a request. The transport, GetBody and the context are
-- given by what each attempt meets.
pub mod Retry
use Prim.Native.String.{String}
use text.Mathlib.Text.{◌==◌ as str_eq}
use go_ring.Common.{
  ℕ, zero, suc, Bool, true, false, not, ◌&&◌, ◌||◌, Option, none, some, ltb, if◌then◌else◌,
}

-- What `Do` gives: an error, or a response with its status.
pub data Reply : Type 0 where
  failed : Reply
  replied : ℕ → Reply

-- `has_body` is false where GetBody fails, `canceled` is true where ctx ends the wait behind.
pub record Attempt : Type 0 where
  pub has_body : Bool
  pub reply : Reply
  pub canceled : Bool

pub data Sent : Type 0 where
  response : ℕ → Sent
  body_failed canceled_during_retry failed_after_retries : Sent

unfoldable pub is_final : Reply → Bool
is_final failed = false
is_final (replied status) = ltb status 500

unfoldable pub max_retries : String → ℕ
max_retries method = if str_eq method "GET" || str_eq method "HEAD" then 3 else 1

-- What is behind the loop.
unfoldable pub last_result : Reply → Sent
last_result failed = failed_after_retries
last_result (replied status) = response status

-- The loop from `index` on with some attempts left, and the number of requests that went out.
unfoldable pub retry_loop : (ℕ → Attempt) → ℕ → ℕ → Reply → Sent × ℕ
unfolding is_final last_result
retry_loop attempts zero index last = (last_result last, index)
retry_loop attempts (suc left) index last =
    let attempt = attempts index in
    let later = retry_loop attempts left (suc index) attempt.reply in
    if ltb 0 index && not attempt.has_body
    then (body_failed, index)
    else if is_final attempt.reply
    then (last_result attempt.reply, suc index)
    else if ltb 0 left && attempt.canceled
    then (canceled_during_retry, suc index)
    else later

-- The zero values of `resp` and `err` are never returned, since there is one attempt or more.
unfoldable pub send_with_retry : (ℕ → Attempt) → String → Sent × ℕ
unfolding max_retries retry_loop
send_with_retry attempts method = retry_loop attempts (max_retries method) 0 failed
