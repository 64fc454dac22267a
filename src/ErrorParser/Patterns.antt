-- ===== src/ErrorParser/Patterns.antt =====
-- error_parser.py: `ERROR_PATTERNS`, in the order in which they are tried.
use provider_health_daemon.Base.{ℕ, String, true, Option, none, some, List, [], ◌∷◌, ◌++◌}
use provider_health_daemon.Cooldown.{ErrorInfo}
use provider_health_daemon.ErrorParser.{Captured, flat_error, iso_rate_limit}

abbrev pub Pattern : Type 0
Pattern = String × (Captured → ErrorInfo)

abbrev plain : Option ℕ → Option ℕ → String → ErrorInfo
plain = flat_error

abbrev of_model : Option ℕ → Option ℕ → String → ErrorInfo
of_model hours minutes type = record (flat_error hours minutes type) { model_specific = true }

abbrev for_good : Option ℕ → Option ℕ → String → ErrorInfo
for_good hours minutes type = record (flat_error hours minutes type) { permanent = true }

abbrev rechecked : Option ℕ → Option ℕ → String → ErrorInfo
rechecked hours minutes type = record (flat_error hours minutes type) { recheck = true }

abbrev of_gateway : Option ℕ → Option ℕ → String → ErrorInfo
of_gateway hours minutes type = record (flat_error hours minutes type) { global = true }

abbrev of_model_for_good : Option ℕ → Option ℕ → String → ErrorInfo
of_model_for_good hours minutes type = record (flat_error hours minutes type) {
  model_specific = true;
  permanent = true;
}

abbrev of_model_rechecked : Option ℕ → Option ℕ → String → ErrorInfo
of_model_rechecked hours minutes type = record (flat_error hours minutes type) {
  model_specific = true;
  recheck = true;
}

abbrev pub limit_patterns : ℕ → List Pattern
limit_patterns now =
    (
      "Rate limit reached.*try again in (\\d+)h(\\d+)m",
      λ g. of_model (some g.first) (some g.second) "rate_limit_tpd",
    )
    ∷ (
      "Rate limit reached.*try again in (\\d+)m",
      λ g. of_model (some 0) (some g.first) "rate_limit_rpm",
    )
    ∷ (
      "Rate limit reached.*try again in ([\\d.]+)s",
      λ _. of_model (some 0) (some 1) "rate_limit_rpm",
    )
    ∷ (
      "model is rate limited until (\\d{4}-\\d{2}-\\d{2}T[\\d:]+)",
      λ g. iso_rate_limit now g.stamp,
    )
    ∷ ("rate_limit_daily", λ _. plain (some 24) (some 0) "daily_free_exhausted")
    ∷ (
      "(?:daily free allocation|used up your daily)",
      λ _. plain (some 24) (some 0) "daily_free_exhausted",
    )
    ∷ (
      "You have reached the limit|MONTHLY_REQUEST_COUNT|Monthly request limit exceeded|reached its monthly quota",
      λ _. rechecked (some 1) (some 0) "monthly_limit",
    )
    ∷ ("The usage limit has been reached", λ _. rechecked (some 1) (some 0) "monthly_limit")
    ∷ ("weekly usage limit", λ _. of_model_rechecked (some 168) (some 0) "weekly_limit")
    ∷ (
      "(?:daily token quota exceeded|token quota exceeded)",
      λ _. rechecked (some 1) (some 0) "daily_quota_exceeded",
    )
    ∷ (
      "exceeded your current quota|quota exceeded",
      λ _. rechecked (some 1) (some 0) "monthly_limit",
    )
    ∷ (
      "exceeded your rate limit|session usage limit|sending requests too quickly",
      λ _. plain (some 0) (some 15) "generic_429",
    )
    ∷ ("Rate limit reached for model", λ _. of_model (some 0) (some 5) "rate_limit_rpm")
    ∷ []

abbrev pub account_patterns : List Pattern
account_patterns =
    ("HTTP 402|402 Payment Required", λ _. for_good (some 0) (some 0) "payment_required")
    ∷ (
      "InvalidSubscription.*does not have a v",
      λ _. rechecked (some 1) (some 0) "invalid_subscription",
    )
    ∷ (
      "Invalid model ID or insufficient subscription level",
      λ _. of_model_for_good (some 0) (some 0) "subscription_level",
    )
    ∷ (
      "requires a paid subscription|requires a subscription|Your plan does not include|plan does not include it|paid subscription on its provider",
      λ _. of_model_for_good (some 0) (some 0) "subscription_level",
    )
    ∷ (
      "not subscribed to required|ENTITLEMENT_ERROR|entitlement|membership benefits|not included in your plan|upgrade for access|upgrade your plan",
      λ _. rechecked (some 24) (some 0) "subscription_level",
    )
    ∷ (
      "requires a paid plan|pricingUrl|not supported when using Codex with a ChatGPT account",
      λ _. for_good (some 0) (some 0) "paid_required",
    )
    ∷ (
      "credit balance is too|Insufficient credits|Insufficient balance|Please top up",
      λ _. rechecked (some 24) (some 0) "no_credit",
    )
    ∷ (
      "balance is insufficient|Insufficient USD|Insufficient.*balance",
      λ _. rechecked (some 24) (some 0) "no_credit",
    )
    ∷ ("INSUFFICIENT_TOKENS|Insufficient tokens", λ _. rechecked (some 24) (some 0) "no_credit")
    ∷ (
      "Quota exceeded and account balance|payment method is required|Payment required to access",
      λ _. rechecked (some 24) (some 0) "no_credit",
    )
    ∷ (
      "Add credits to continue|run out of credits|spending-limit|PAID_MODEL_AUTH_REQUIRED|out of credits",
      λ _. rechecked (some 24) (some 0) "no_credit",
    )
    ∷ ("No active credentials for provider", λ _. rechecked (some 24) (some 0) "no_credentials")
    ∷ ("bearer token.*invalid|HTTP 403$", λ _. for_good (some 0) (some 0) "auth_invalid")
    ∷ (
      "Unauthorized|Please make sure you're using the latest version.*re-auth|You need to sign in|AuthenticationError",
      λ _. for_good (some 0) (some 0) "auth_invalid",
    )
    ∷ []

abbrev pub request_patterns : List Pattern
request_patterns =
    (
      "the following must be satisfied|'messages' : minimum number of items|Improperly formed request|stream_options' field is only allowed|max_tokens must be (?:at least|less than or equal)|Unsupported parameter|1 validation error|Tool call id was|--enable-auto-tool-choice|'messages' field cannot be empty|This model only supports s|failed to template request|Invalid parameter: messages with role|invalid tool call|duplicate tool id|cannot have duplicate tool",
      λ _. plain (some 0) (some 0) "request_invalid",
    )
    ∷ (
      "Function id.*not found|Function.*Not Found|Function '[0-9a-f-]{8,}'",
      λ _. of_model (some 1) (some 0) "function_not_found",
    )
    ∷ (
      "Model not found|model_not_found|Invalid model|model '[^']*' not found|does not exist|Requested entity was not found",
      λ _. of_model_rechecked (some 24) (some 0) "model_not_found",
    )
    ∷ (
      "no registered providers found|please check the model you provided",
      λ _. of_model_rechecked (some 24) (some 0) "model_not_found",
    )
    ∷ (
      "^Bad Request\\s*$|\"message\"\\s*:\\s*\"Bad Request\"\\s*,\\s*\"type\"\\s*:\\s*null",
      λ _. of_model_rechecked (some 24) (some 0) "model_not_found",
    )
    ∷ (
      "no longer available|has been deprecated|was deprecated on|model has been deprecated|has been removed|was retired at|was retired on",
      λ _. of_model_rechecked (some 24) (some 0) "model_deprecated",
    )
    ∷ ("\"title\"\\s*:\\s*\"Gone\"", λ _. of_model_rechecked (some 24) (some 0) "model_deprecated")
    ∷ (
      "model is not supported|not available for integrator|model_not_supported|does not exist or you do not have access",
      λ _. of_model_rechecked (some 24) (some 0) "model_not_supported",
    )
    ∷ (
      "is not available on the Worker",
      λ _. of_model_rechecked (some 24) (some 0) "model_not_supported",
    )
    ∷ (
      "currently unavailable|model_unavailable|temporarily unavailable",
      λ _. of_model_rechecked (some 0) (some 15) "model_unavailable",
    )
    ∷ ("model_config for", λ _. of_model_rechecked (some 24) (some 0) "model_not_supported")
    ∷ []

abbrev pub context_patterns : List Pattern
context_patterns =
    ("prompt too long.*exceeded max context", λ _. of_model none (some 15) "context_length")
    ∷ (
      "code.?[:\\\"]?\\s*1261|prompt exceeds max length",
      λ _. of_model none (some 15) "context_length",
    )
    ∷ (
      "Max_len exceeded|this model only supports \\d+ tokens",
      λ _. of_model none (some 15) "context_length",
    )
    ∷ (
      "context_length_exceeded|context_window_exceeded|prompt token count of.*exceeds the limit",
      λ _. of_model none (some 15) "context_length",
    )
    ∷ ("context window exceeded", λ _. of_model none (some 15) "context_length")
    ∷ (
      "maximum context length is \\d+ tokens",
      λ _. of_model none (some 15) "context_length_nvidia",
    )
    ∷ (
      "exceeded this model context window limit|exceeded.*context window limit|context window limit \\(",
      λ _. of_model none (some 15) "context_length",
    )
    ∷ (
      "tokens per day \\(TPD\\)|on tokens per day",
      λ _. of_model (some 24) (some 0) "daily_free_exhausted",
    )
    ∷ (
      "tokens per minute \\(TPM\\)|Limit \\d+, Requested \\d+",
      λ _. of_model (some 0) (some 5) "rate_limit_rpm",
    )
    ∷ (
      "Request too large for model|estimated number of input and maximum output tokens",
      λ _. of_model none (some 15) "context_length",
    )
    ∷ []

abbrev pub overload_patterns : List Pattern
overload_patterns =
    (
      "Rate limit exceeded\\.\\s*Please try again later",
      λ _. of_gateway (some 0) (some 15) "gateway_quota",
    )
    ∷ (
      "Rate limit exceeded|rate_limited|Service temporarily overloaded",
      λ _. plain (some 0) (some 15) "generic_429",
    )
    ∷ (
      "experiencing high demand|high demand|Please try again later",
      λ _. plain (some 0) (some 15) "generic_429",
    )
    ∷ ("Too Many Requests", λ _. plain (some 0) (some 15) "generic_429")
    ∷ ("fetch failed", λ _. plain (some 0) (some 5) "fetch_failed")
    ∷ ("fetch connect timeout|connect timeout", λ _. plain (some 0) (some 5) "fetch_failed")
    ∷ ("Internal Server Error", λ _. plain (some 0) (some 2) "generic_500")
    ∷ (
      "ResourceExhausted.*request limit reached",
      λ _. rechecked (some 1) (some 0) "worker_request_limit",
    )
    ∷ ("Worker local total request limit", λ _. rechecked (some 1) (some 0) "worker_request_limit")
    ∷ []

abbrev pub error_patterns : ℕ → List Pattern
error_patterns now =
    limit_patterns now
    ++ account_patterns
    ++ request_patterns
    ++ context_patterns
    ++ overload_patterns
