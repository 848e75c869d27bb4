-- ===== src/Pools/Routes.antt =====
-- The default routes of durallm/pools.py.
use durallm.Common.{ℕ, false, some, String, List, [], ◌∷◌, none}
use durallm.Pools.Manager.{RouteDefinition, IsolatedPoolManager}

abbrev pub browser_ua : String
browser_ua =
    "Mozilla/5.0 (Macintosh; Intel Mac OS X 10_15_7) AppleWebKit/537.36 (KHTML, like Gecko) Chrome/124.0.0.0 Safari/537.36"

-- The fields that all default routes share are filled in.
abbrev pub cloud_route :
    String → String → String → String → String → String → ℕ → ℕ → RouteDefinition
cloud_route pool id provider model base_url env_key context_length max_output_tokens = record {
  id = id;
  provider = provider;
  model = model;
  pool = pool;
  base_url = base_url;
  api_format = "openai";
  env_key = some env_key;
  env_keys = [];
  context_length = context_length;
  max_output_tokens = max_output_tokens;
  headers = ("User-Agent", browser_ua) ∷ [];
  is_discovered = false;
}

abbrev pub default_coding_routes : List RouteDefinition
default_coding_routes =
    cloud_route "coding" "groq-qwen36-coding" "groq" "qwen/qwen3.6-27b"
      "https://api.groq.com/openai/v1" "GROQ_API_KEY" 7000 950
    ∷ cloud_route "coding" "groq-gpt-oss-coding" "groq" "openai/gpt-oss-120b"
        "https://api.groq.com/openai/v1" "GROQ_API_KEY" 7500 950
    ∷ cloud_route "coding" "groq-gpt-oss-20b-coding" "groq" "openai/gpt-oss-20b"
        "https://api.groq.com/openai/v1" "GROQ_API_KEY" 7500 950
    ∷ cloud_route "coding" "groq-llama33-coding" "groq" "llama-3.3-70b-versatile"
        "https://api.groq.com/openai/v1" "GROQ_API_KEY" 131072 8192
    ∷ cloud_route "coding" "sambanova-qwen25-coding" "sambanova" "Qwen2.5-Coder-32B-Instruct"
        "https://api.sambanova.ai/v1" "SAMBANOVA_API_KEY" 65536 4096
    ∷ cloud_route "coding" "sambanova-llama33-coding" "sambanova" "Meta-Llama-3.3-70B-Instruct"
        "https://api.sambanova.ai/v1" "SAMBANOVA_API_KEY" 65536 4096
    ∷ cloud_route "coding" "cerebras-llama33-coding" "cerebras" "llama-3.3-70b"
        "https://api.cerebras.ai/v1" "CEREBRAS_API_KEY" 65536 4096
    ∷ cloud_route "coding" "nvidia-llama33-coding" "nvidia" "meta/llama-3.3-70b-instruct"
        "https://integrate.api.nvidia.com/v1" "NVIDIA_API_KEY" 131072 4096
    ∷ cloud_route "coding" "nvidia-gemma4-coding" "nvidia" "google/gemma-4-31b-it"
        "https://integrate.api.nvidia.com/v1" "NVIDIA_API_KEY" 131072 8192
    ∷ cloud_route "coding" "nvidia-nemotron-coding" "nvidia" "nvidia/nemotron-3-ultra-550b-a55b"
        "https://integrate.api.nvidia.com/v1" "NVIDIA_API_KEY" 131072 8192
    ∷ cloud_route "coding" "openrouter-qwen25-coding" "openrouter"
        "qwen/qwen-2.5-coder-32b-instruct:free" "https://openrouter.ai/api/v1" "OPENROUTER_API_KEY"
        32768 4096
    ∷ cloud_route "coding" "openrouter-gemma4-coding" "openrouter" "google/gemma-4-31b-it:free"
        "https://openrouter.ai/api/v1" "OPENROUTER_API_KEY" 262144 8192
    ∷ cloud_route "coding" "openrouter-north-mini-coding" "openrouter" "cohere/north-mini-code:free"
        "https://openrouter.ai/api/v1" "OPENROUTER_API_KEY" 256000 8192
    ∷ cloud_route "coding" "openrouter-nemotron-coding" "openrouter"
        "nvidia/nemotron-3-super-120b-a12b:free" "https://openrouter.ai/api/v1" "OPENROUTER_API_KEY"
        262144 8192
    ∷ cloud_route "coding" "openrouter-free-coding" "openrouter" "openrouter/free"
        "https://openrouter.ai/api/v1" "OPENROUTER_API_KEY" 200000 8192
    ∷ []

abbrev pub default_agent_routes : List RouteDefinition
default_agent_routes =
    cloud_route "general_agent" "nvidia-llama32-agent" "nvidia" "meta/llama-3.2-11b-vision-instruct"
      "https://integrate.api.nvidia.com/v1" "NVIDIA_API_KEY" 131072 4096
    ∷ cloud_route "general_agent" "groq-llama31-agent" "groq" "llama-3.1-8b-instant"
        "https://api.groq.com/openai/v1" "GROQ_API_KEY" 131072 4096
    ∷ cloud_route "general_agent" "cerebras-llama31-agent" "cerebras" "llama3.1-8b"
        "https://api.cerebras.ai/v1" "CEREBRAS_API_KEY" 65536 4096
    ∷ cloud_route "general_agent" "sambanova-llama33-agent" "sambanova"
        "Meta-Llama-3.3-70B-Instruct" "https://api.sambanova.ai/v1" "SAMBANOVA_API_KEY" 65536 4096
    ∷ cloud_route "general_agent" "openrouter-nemotron-agent" "openrouter"
        "nvidia/nemotron-3-ultra-550b-a55b:free" "https://openrouter.ai/api/v1" "OPENROUTER_API_KEY"
        131072 4096
    ∷ []

-- A manager as it is made
abbrev pub new_pool_manager : IsolatedPoolManager
new_pool_manager = record {
  allowed_providers = none;
  keys = [];
  coding_routes = default_coding_routes;
  agent_routes = default_agent_routes;
  coding_index = 0;
  agent_index = 0;
  cooldowns = [];
  deprecated = [];
  exhausted_quotas = [];
  account_lockouts = [];
  last_success = [];
  last_success_at = [];
}
