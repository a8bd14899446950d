-- ===== src/Errs/Tests.antt =====
-- The statuses at concrete codes.
use aeus.Common.{◌≡◌, refl}
use aeus.Errs.Codes.{code_too_many_attempts, http_status}

throttled : http_status code_too_many_attempts ≡ 429
unfolding http_status
throttled = refl
