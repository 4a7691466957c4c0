-- ===== src/Probe/Api.antt =====
-- internal/api/probe/client.go: which failed uploads are tried again.
use wacht.Shared.{ℕ, Bool, true, false, Option, none, some, ◌||◌, leb, nat_eq}

-- What an error of `PostResults` is by errors.As and errors.Is, the first that fits: a response with
-- a status, a net.Error, context.Canceled or DeadlineExceeded, or anything else.
pub data PostError : Type 0 where
  response : ℕ → PostError
  network context_done unknown : PostError

-- http.StatusRequestTimeout, StatusTooEarly, StatusTooManyRequests, StatusInternalServerError.
is_retryable_status : ℕ → Bool
is_retryable_status code = nat_eq code 408 || nat_eq code 425 || nat_eq code 429 || leb 500 code

unfoldable pub is_retryable_post_results_error : Option PostError → Bool
unfolding is_retryable_status
is_retryable_post_results_error none = false
is_retryable_post_results_error (some (PostError.response code)) = is_retryable_status code
is_retryable_post_results_error (some PostError.network) = true
is_retryable_post_results_error (some PostError.context_done) = true
is_retryable_post_results_error (some PostError.unknown) = true
