-- ===== src/SmartRouter/Tables.antt =====
-- smart_router.py: the tables by which models and providers are let in, ranked and limited. A set is a
-- list of its members.
use provider_health_daemon.Base.{ℕ, String, List, [], ◌∷◌}
use provider_health_daemon.Base.Dict.{Dict}
use provider_health_daemon.Clock.{seconds, hours}

abbrev pub permanently_blocked : List String
permanently_blocked =
    "anthropic" ∷ "kc" ∷ "cl" ∷ "bpm" ∷ "ps" ∷ "cbai" ∷ "gcli" ∷ "qoder" ∷ "kimi" ∷ "xai"
    ∷ "mistral" ∷ "tokenrouter" ∷ "together" ∷ "di" ∷ "replicate" ∷ "kimchi" ∷ "modelscope"
    ∷ "cerebras" ∷ "blockrun" ∷ "bzl" ∷ "hf" ∷ "pollinations" ∷ []

abbrev pub free_tier_suffix_only : List String
free_tier_suffix_only = "openrouter" ∷ []

abbrev pub free_tier_auto_suffix_only : List String
free_tier_auto_suffix_only = []

abbrev pub non_chat_model_tokens : List String
non_chat_model_tokens =
    "asr" ∷ "parakeet" ∷ "whisper" ∷ "speech" ∷ "audio" ∷ "tts" ∷ "stt" ∷ "embedding" ∷ "embed"
    ∷ "rerank" ∷ "laguna" ∷ "thinking" ∷ "agentic" ∷ []

abbrev pub blocked_model_substrings : List String
blocked_model_substrings =
    "mai-code" ∷ "glm-4.6v" ∷ "copilot-search" ∷ "exec-agent" ∷ "claude-opus-5" ∷ "claude-sonnet-5"
    ∷ "claude-opus-4.8" ∷ "gemini-3.5-flash" ∷ "gemini-3.7-flash-high" ∷ "gemini-3.7-flash-medium"
    ∷ "gemini-3.1-pro" ∷ "gemini-pro-agent" ∷ []

abbrev pub dead_models : List String
dead_models =
    "af/anthropic/claude-3.7-sonnet" ∷ "af/moonshot/kimi-k2.6"
    ∷ "nvidia/deepseek-ai/deepseek-v4-pro" ∷ "nvidia/moonshotai/kimi-k2.6" ∷ "nvidia/z-ai/glm-5.2"
    ∷ "tokenrouter/moonshotai/kimi-k3-free" ∷ "ag/gemini-pro-default"
    ∷ "kr/qwen3-coder-next-thinking-agentic" ∷ "kr/qwen3-coder-next-thinking"
    ∷ "kr/qwen3-coder-next-agentic" ∷ "gh/gpt-5-mini" ∷ "gh/trajectory-compaction"
    ∷ "gh/mai-code-1-flash-tertiary" ∷ "gh/exec-agent-c" ∷ "nvidia/minimaxai/minimax-m3"
    ∷ "nvidia/nemotron-3-ultra-550b-a55b" ∷ "groq/meta-llama/llama-4-maverick-17b-128e-instruct"
    ∷ "groq/gpt-oss-120b" ∷ "groq/openai/gpt-oss-120b" ∷ "deepseek-v4-flash-free"
    ∷ "opencode/deepseek-v4-flash-free" ∷ "llm7/deepseek-v4-flash" ∷ "cx/gpt-5"
    ∷ "blockrun/moonshot/kimi-k3" ∷ "pk/gemini-2.5-flash" ∷ "llm7/kimi-k3" ∷ "seek/glm-5.3-flash"
    ∷ "cf/@cf/meta/llama-3.3-70b-instruct-fp8-fast" ∷ "kira/mimo-v2.5" ∷ "kira/glm-5.3-flash"
    ∷ "kira/deepseek-v4.1-flash" ∷ "kira/hy3" ∷ "kira/ling-3.0-flash-sante" ∷ "kira/mercury-2"
    ∷ "kira/mercury-2.5" ∷ "kira/qwen3.8-flash" ∷ []

abbrev pub access_error_types : List String
access_error_types =
    "subscription_level" ∷ "no_credit" ∷ "no_credentials" ∷ "payment_required" ∷ "paid_required"
    ∷ "auth_invalid" ∷ "invalid_subscription" ∷ "monthly_limit" ∷ "weekly_limit"
    ∷ "daily_free_exhausted" ∷ []

abbrev pub static_combos : List String
static_combos =
    "cf/@cf/meta/llama-3.3-70b-instruct-fp8-fast" ∷ "cf/@cf/meta/llama-3.1-70b-instruct-fp8-fast"
    ∷ "cf/@cf/qwen/qwen2.5-coder-32b-instruct" ∷ "amd/DeepSeek-V4-Flash" ∷ "amd/GLM-5.2"
    ∷ "amd/MinerU2.5-Pro" ∷ "groq/llama-3.3-70b-versatile" ∷ "ollama/gpt-oss:120b"
    ∷ "rw/deepseek-ai/deepseek-v4-flash:free" ∷ "rw/google/gemma-4-31b-it:free"
    ∷ "rw/nvidia/nemotron-3-super-120b-a12b:free" ∷ []

abbrev pub provider_allowlist : Dict (List String)
provider_allowlist =
    (
      "gh",
      "gh/gpt-4-o-preview" ∷ "gh/gpt-4-0125-preview" ∷ "gh/gpt-4.1" ∷ "gh/gpt-4.1-2025-04-14"
          ∷ "gh/gpt-4o" ∷ "gh/gpt-4o-2024-05-13" ∷ "gh/gpt-4o-2024-08-06" ∷ "gh/gpt-4o-2024-11-20"
          ∷ "gh/gpt-4o-mini" ∷ "gh/gpt-4o-mini-2024-07-18" ∷ [],
    )
    ∷ (
      "samba",
      "samba/Meta-Llama-3.3-70B-Instruct" ∷ "samba/gpt-oss-120b" ∷ "samba/gemma-4-31B-it"
          ∷ "samba/DeepSeek-V3.1" ∷ [],
    )
    ∷ ("kr", "kr/claude-haiku-4.5" ∷ "kr/minimax-m2.1" ∷ "kr/auto" ∷ [])
    ∷ ("ali", "ali/qwen-plus" ∷ "ali/qwen3.8-flash" ∷ "ali/qwen3.8-max" ∷ [])
    ∷ []

abbrev pub provider_priority : Dict ℕ
provider_priority =
    ("ali", 5)
    ∷ ("bzl", 15)
    ∷ ("persor", 26)
    ∷ ("freeai", 28)
    ∷ ("kr", 8)
    ∷ ("ag", 18)
    ∷ ("cu", 20)
    ∷ ("rw", 22)
    ∷ ("amd", 23)
    ∷ ("glm", 25)
    ∷ ("glm-cn", 28)
    ∷ ("cf", 30)
    ∷ ("openrouter", 31)
    ∷ ("gemini", 32)
    ∷ ("samba", 35)
    ∷ ("llm7", 37)
    ∷ ("any", 38)
    ∷ ("groq", 40)
    ∷ ("gh", 12)
    ∷ ("cx", 55)
    ∷ ("nvidia", 60)
    ∷ ("ollama", 75)
    ∷ ("kc", 100)
    ∷ ("anthropic", 100)
    ∷ []

-- The least billions of parameters of each tier, and its penalty.
abbrev pub size_penalty_tiers : List (ℕ × ℕ)
size_penalty_tiers = (80, 0) ∷ (40, 15) ∷ (20, 50) ∷ (8, 100) ∷ []

abbrev pub tiny_model_max_b : ℕ
tiny_model_max_b = 8

abbrev pub per_provider_limit : ℕ
per_provider_limit = 30

abbrev pub max_combo_models : ℕ
max_combo_models = 500

abbrev pub no_data_penalty : ℕ
no_data_penalty = 30

abbrev pub spread_band : ℕ
spread_band = 30

abbrev pub fallback_only_penalty : ℕ
fallback_only_penalty = 500

abbrev pub combo_cache_ttl : ℕ
combo_cache_ttl = hours 24

abbrev pub disabled_cache_ttl : ℕ
disabled_cache_ttl = seconds 30

abbrev pub locked_models_ttl : ℕ
locked_models_ttl = seconds 60

abbrev pub conn_counts_ttl : ℕ
conn_counts_ttl = seconds 60
